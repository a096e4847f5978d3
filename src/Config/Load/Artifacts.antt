-- ===== src/Config/Load/Artifacts.antt =====
-- `_load_artifacts`, `_parse_channels`, `_load_observables` and `_load_reference` of config.py.
use qscat.Prelude.{ℕ, ◌+◌, true, false, not, Option, none, some, List, [], ◌∷◌, if◌then◌else◌}
use qscat.Python.{
  entry, not_a_mapping, Result, ok, ◌>>=◌, ◌>>◌, raise_if, Value, null, bool, text, seq, nil,
  mapping, end, items, traverse, Runtime,
}
use qscat.Python.Convert.{
  member, index, iterate, get, get_default, is_mapping, truthy, to_int, to_text,
}
use qscat.Config.Types.{
  Channels, first_n, listed, Observable, CrossSectionVsTimeSpec, WavefunctionSnapshotsSpec,
  ArtifactSpec, ReferenceSpec,
}
use qscat.Config.Load.Common.{require, optional, optional_text, floats, ints}

module _ (R : Runtime) where
  unfoldable pub parse_channels : Value R.Float → Result (Option Channels)
  parse_channels null = ok none
  parse_channels (seq vs) = traverse (to_int R) (items vs) >>= λ cs. ok (some (listed cs))
  parse_channels raw = to_int R raw >>= λ n. ok (some (first_n n))

  unfoldable pub load_observable : ℕ → Value R.Float → Result Observable
  unfolding require parse_channels
  load_observable i raw = do
    let place = entry "observables" i
    raise_if (not (is_mapping raw)) (not_a_mapping place)
    kind ← require raw "kind" place
    channels_raw ← get raw "channels"
    channels ← parse_channels channels_raw
    ok (record { kind = to_text R kind; channels = channels })

  -- The loop over `enumerate(raw)`.
  unfoldable pub load_observables : ℕ → List (Value R.Float) → Result (List Observable)
  unfolding load_observable
  load_observables i [] = ok []
  load_observables i (raw ∷ rest) = do
    o ← load_observable i raw
    os ← load_observables (i + 1) rest
    ok (o ∷ os)

  abbrev pub load_moments : Value R.Float → Result (CrossSectionVsTimeSpec R.Float)
  load_moments raw = do
    moments_raw ← get_default raw "moments" (seq nil)
    moments ← floats R moments_raw
    ok (record { moments = moments })

  abbrev pub load_snapshots : Value R.Float → Result (WavefunctionSnapshotsSpec R.Float)
  load_snapshots raw = do
    times_raw ← get_default raw "td_times" (seq nil)
    times ← floats R times_raw
    energies_raw ← get_default raw "ti_energies" (seq nil)
    energies ← floats R energies_raw
    full ← get_default raw "full_field" (bool false)
    ok (record { td_times = times; ti_energies = energies; full_field = truthy R full })

  -- `f(raw) if raw else None`
  abbrev pub if_given {ℓ} :
      {A : Type ℓ} → (Value R.Float → Result A) → Value R.Float → Result (Option A)
  if_given f raw =
      let loaded = f raw >>= λ a. ok (some a) in if truthy R raw then loaded else ok none

  unfoldable pub load_artifacts : Value R.Float → Result (ArtifactSpec R.Float)
  load_artifacts given = do
    let raw = if truthy R given then given else mapping end
    moments_raw ← get raw "cross_section_vs_time"
    moments ← if_given load_moments moments_raw
    snapshots_raw ← get raw "wavefunction_snapshots"
    snapshots ← if_given load_snapshots snapshots_raw
    cross_section ← get_default raw "cross_section" (bool true)
    correlations ← get_default raw "correlations" (bool false)
    eigenstates ← get_default raw "eigenstates" (bool false)
    levels ← get_default raw "resonance_levels" (bool false)
    ok (record {
      cross_section = truthy R cross_section;
      cross_section_vs_time = moments;
      correlations = truthy R correlations;
      wavefunction_snapshots = snapshots;
      eigenstates = truthy R eigenstates;
      resonance_levels = truthy R levels;
    })

  unfoldable pub load_reference_entry : ℕ → Value R.Float → Result ReferenceSpec
  load_reference_entry i raw = do
    let place = entry "reference" i
    raise_if (not (is_mapping raw)) (not_a_mapping place)
    there ← member "path" raw
    raise_if (not there) (not_a_mapping place)
    channels_raw ← get raw "channels"
    path ← index raw "path"
    format ← get_default raw "format" (text "houfek")
    label ← get raw "label"
    channels ← optional (ints R) channels_raw
    ok (record {
      path = to_text R path;
      format = to_text R format;
      label = optional_text R label;
      channels = channels;
    })

  -- The loop over `enumerate(raw)`.
  unfoldable pub load_references : ℕ → List (Value R.Float) → Result (List ReferenceSpec)
  unfolding load_reference_entry
  load_references i [] = ok []
  load_references i (raw ∷ rest) = do
    r ← load_reference_entry i raw
    rs ← load_references (i + 1) rest
    ok (r ∷ rs)

  unfoldable pub load_reference : Value R.Float → Result (List ReferenceSpec)
  unfolding load_references
  load_reference raw =
      let loaded = iterate raw >>= load_references 0 in if truthy R raw then loaded else ok []
