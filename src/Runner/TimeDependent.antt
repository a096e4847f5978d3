-- ===== src/Runner/TimeDependent.antt =====
-- `_run_td` of apps/qscat-run/qscat_run/runner.py.
pub mod Names
use qscat.Prelude.{
  ℕ, zero, String, Bool, true, false, ◌||◌, Option, none, some, List, [], ◌∷◌, ◌++◌, map, is_nil,
  str_eq, if◌then◌else◌,
}
use qscat.Prelude.Text.{◌<>◌}
use qscat.Prelude.Dict.{Dict, lookup, insert}
use qscat.Python.{
  ℤ, pos, ltb_ℤ, add_one, range, unknown_observable, unknown_extractor, no_td_block, no_incident,
  Result, ok, raise, ◌>>=◌, ◌>>◌, Runtime,
}
use qscat.Config.Types.{
  Observable, TdSpec, IncidentSpec, TestFunctionSpec, CrossSectionVsTimeSpec,
  WavefunctionSnapshotsSpec, ExperimentConfig,
}
use qscat.Presets.Decks.{Grid}
use qscat.Presets.Resolve.{resolve_grid, resolve_test_function, resolve_surface_r}
use qscat.Runner.{vprimes, n_channels, n_vib}
use qscat.Runner.Solvers.{
  Solvers, Basis, TimeSnapshot, WavefunctionSnapshot, EigenStates, ExtractorKind, tannor_weeks,
  dirac, flux, ExtractorAxis, electronic, nuclear,
}
use qscat.Runner.Keys.{final_state, channel_label, keys_behind, write_columns}
use qscat.Runner.TimeIndependent.{
  required_levels, known_model, energies_or_raise, vibrational_eigenstates,
}

abbrev pub td_or_raise : {F : Type 0} → Option (TdSpec F) → Result (TdSpec F)
td_or_raise none = raise no_td_block
td_or_raise (some td) = ok td

abbrev pub incident_or_raise : {F : Type 0} → Option (IncidentSpec F) → Result (IncidentSpec F)
incident_or_raise none = raise no_incident
incident_or_raise (some i) = ok i

-- The class that `_build_extractor` selects.
unfoldable pub extractor_kind : String → Result ExtractorKind
extractor_kind name =
    if str_eq name "tw"
    then ok tannor_weeks
    else if str_eq name "delta"
    then ok dirac
    else if str_eq name "flow"
    then ok flux
    else raise (unknown_extractor name)

-- The members of `cs`, as numbers.
abbrev pub contains_ℤ : ℤ → List ℤ → Bool
contains_ℤ c [] = false
contains_ℤ c (d ∷ ds) = (if ltb_ℤ c d || ltb_ℤ d c then false else true) || contains_ℤ c ds

-- `obs.kind in ("da", "dr")`
abbrev pub is_nuclear_kind : String → Bool
is_nuclear_kind kind = str_eq kind "da" || str_eq kind "dr"

module _ {R : Runtime} (S : Solvers R) where
  -- `entries`: a label, an extractor, the labels of its channels and the kind of its observable.
  pub record Entry : Type 0 where
    pub label : String
    pub extractor : S.Extractor
    pub class : ExtractorKind
    pub channels : List String
    pub kind : String

  -- What the extractors of a run share.
  pub record Setting : Type 0 where
    pub molecule : String
    pub v_init : ℤ
    pub grid : S.Tensor
    pub basis : Basis S.Array
    pub incident : IncidentSpec R.Float
    pub dt : R.Float

  -- `entries` and `free_entries`
  pub record Entries : Type 0 where
    pub all : List Entry
    pub free : Dict S.Extractor

  -- `_build_extractor`
  unfoldable pub build_extractor :
      Setting
      → String
      → List ℤ
      → TestFunctionSpec R.Float
      → ℕ
      → ExtractorAxis
      → ℤ
      → Result (ExtractorKind × S.Extractor)
  unfolding extractor_kind
  build_extractor t name vs packet index axis n = extractor_kind name >>= λ class. ok (
    class,
    S.extractor class t.molecule t.grid t.basis t.v_init vs packet t.incident t.dt index axis n,
  )

  -- One more entry, and its free reference if one is wanted.
  abbrev pub with_entry :
      String → List String → Bool → String → ExtractorKind × S.Extractor → Entries → Entries
  with_entry kind channels wants_free name built es = record {
    all =
        es.all
        ++ (record {
          label = "td:" <> (kind <> (":" <> name));
          extractor = built.1;
          class = built.0;
          channels = channels;
          kind = kind;
        }
            ∷ []);
    free =
        if wants_free then insert ("td:" <> (kind <> (":" <> name))) built.1 es.free else es.free;
  }

  -- The loop over the extractors of one observable.
  unfoldable pub add_entries :
      Setting
      → String
      → List ℤ
      → List String
      → TestFunctionSpec R.Float
      → ℕ
      → ExtractorAxis
      → ℤ
      → Bool
      → List String
      → Entries
      → Result Entries
  unfolding build_extractor
  add_entries t kind vs channels packet index axis n wants_free [] es = ok es
  add_entries t kind vs channels packet index axis n wants_free (name ∷ names) es =
      build_extractor t name vs packet index axis n >>= λ built.
      add_entries t kind vs channels packet index axis n wants_free names
        (with_entry kind channels wants_free name built es)

  -- The entries of one observable.
  unfoldable pub td_observable :
      ExperimentConfig R.Float → Setting → List String → Observable → Entries → Result Entries
  unfolding vprimes n_channels add_entries
  td_observable cfg t names o es =
      if str_eq o.kind "ve"
      then (vprimes o >>= λ vs. resolve_test_function R cfg "ve" >>= λ packet.
          add_entries t "ve" vs (map (final_state t.v_init) vs) packet
            (S.real_index_near (S.electronic_of t.grid) packet.r0_out) electronic (pos 1)
            (contains_ℤ t.v_init vs) names es)
      else if is_nuclear_kind o.kind
      then (n_channels o >>= λ n. resolve_test_function R cfg o.kind >>= λ packet.
          resolve_surface_r R cfg o.kind >>= λ surface.
          add_entries t o.kind [] (map channel_label (range n)) packet
            (S.real_index_near (S.nuclear_of t.grid) surface) nuclear n false names es)
      else raise (unknown_observable o.kind)

  unfoldable pub td_observables :
      ExperimentConfig R.Float → Setting → List String → List Observable → Entries → Result Entries
  unfolding td_observable
  td_observables cfg t names [] es = ok es
  td_observables cfg t names (o ∷ os) es =
      td_observable cfg t names o es >>= td_observables cfg t names os

  -- `free_entries.get(label)`, of a `ve` entry
  abbrev pub free_of : Dict S.Extractor → Entry → Option S.Extractor
  free_of free e = if str_eq e.kind "ve" then lookup e.label free else none

  -- What the propagations leave of the entries.
  abbrev pub propagate_all : (S.Extractor → S.Extractor) → List Entry → List Entry
  propagate_all run [] = []
  propagate_all run (e ∷ es) = record e { extractor = run e.extractor } ∷ propagate_all run es

  abbrev pub propagate_free_all : (S.Extractor → S.Extractor) → Dict S.Extractor → Dict S.Extractor
  propagate_free_all run [] = []
  propagate_free_all run ((label, x) ∷ free) = (label, run x) ∷ propagate_free_all run free

  -- The series of the entries, read up to a number of steps, under keys with a suffix.
  unfoldable pub td_series :
      S.Array → Dict S.Extractor → Option ℤ → String → List Entry → Dict S.Array → Dict S.Array
  unfolding write_columns
  td_series energies free n_steps suffix [] d = d
  td_series energies free n_steps suffix (e ∷ es) d = td_series energies free n_steps suffix es (
      write_columns S (S.sigma e.extractor energies (free_of free e) n_steps) 0
        (map (λ channel. e.label <> (":" <> (channel <> suffix))) e.channels) d)

  -- `cross_section_vs_time`: the same at each moment.
  unfoldable pub td_moments :
      R.Float → S.Array → Dict S.Extractor → List Entry → List R.Float → Dict S.Array → Dict S.Array
  unfolding td_series
  td_moments dt energies free es [] d = d
  td_moments dt energies free es (t ∷ ts) d =
      td_moments dt energies free es ts
        (td_series energies free (some (add_one (S.rounds t dt))) ("@t" <> S.show_g t) es d)

  abbrev pub vs_time :
      R.Float
      → S.Array
      → Dict S.Extractor
      → List Entry
      → Option (CrossSectionVsTimeSpec R.Float)
      → Dict S.Array
  vs_time dt energies free es none = []
  vs_time dt energies free es (some c) = td_moments dt energies free es c.moments []

  -- The recorded series of one entry.
  unfoldable pub write_correlation : Entry → ExtractorKind → Dict S.Array → Dict S.Array
  write_correlation e flux d =
      let series = S.flux_series e.extractor in
      insert (e.label <> ":d") series.2
        (insert (e.label <> ":b") series.1 (insert (e.label <> ":t") series.0 d))
  write_correlation e tannor_weeks d =
      let series = S.correlation e.extractor in
      insert (e.label <> ":c") series.1 (insert (e.label <> ":t") series.0 d)
  write_correlation e dirac d =
      let series = S.correlation e.extractor in
      insert (e.label <> ":c") series.1 (insert (e.label <> ":t") series.0 d)

  unfoldable pub write_correlations : List Entry → Dict S.Array → Dict S.Array
  unfolding write_correlation
  write_correlations [] d = d
  write_correlations (e ∷ es) d = write_correlations es (write_correlation e e.class d)

  unfoldable pub td_snapshot :
      S.Tensor → TimeSnapshot R.Float S.Array → WavefunctionSnapshot S.Array
  td_snapshot grid snap = record {
    kind = "td";
    label = "t" <> S.show_g snap.time;
    rho_r = snap.rho_r;
    rho_R = snap.rho_R;
    axis_r = S.real_points (S.electronic_of grid);
    axis_R = S.real_points (S.nuclear_of grid);
    psi = elim snap.psi [ none ↦ none | some psi ↦ some (S.masked_field grid psi) ];
  }

  abbrev pub td_wavefunctions :
      Setting
      → TdSpec R.Float
      → S.Array
      → Option (WavefunctionSnapshotsSpec R.Float)
      → List (WavefunctionSnapshot S.Array)
  td_wavefunctions t td psi none = []
  td_wavefunctions t td psi (some w) =
      if is_nil w.td_times
      then []
      else map (td_snapshot t.grid)
          (S.snapshots t.molecule t.grid psi td.dt td.n_steps td.order w.td_times w.full_field)

  pub record TdRun : Type 0 where
    pub cross_sections : Dict S.Array
    pub cross_section_vs_time : Dict S.Array
    pub correlations : Dict S.Array
    pub wavefunctions : List (WavefunctionSnapshot S.Array)
    pub eigenstates : List (EigenStates S.Array)
    pub grid : S.Tensor

  -- From the propagations on.
  unfoldable pub finish_td :
      ExperimentConfig R.Float → Setting → TdSpec R.Float → S.Array → Entries → TdRun
  unfolding td_series td_moments write_correlations td_snapshot
  finish_td cfg t td energies built =
      let psi = S.initial_state t.grid t.basis.chi t.v_init t.incident in
      let es =
        propagate_all (S.propagate t.molecule t.grid psi td.dt td.n_steps td.order) built.all in
      let free =
        propagate_free_all (S.propagate_free t.molecule t.grid psi td.dt td.n_steps td.order)
          built.free in
      record {
        cross_sections = td_series energies free none "" es [];
        cross_section_vs_time = vs_time td.dt energies free es cfg.artifacts.cross_section_vs_time;
        correlations = if cfg.artifacts.correlations then write_correlations es [] else [];
        wavefunctions = td_wavefunctions t td psi cfg.artifacts.wavefunction_snapshots;
        eigenstates =
            vibrational_eigenstates S cfg.artifacts.eigenstates "td:vibrational"
              (S.real_points (S.nuclear_of t.grid)) t.basis;
        grid = t.grid;
      }

  abbrev pub td_setting :
      ExperimentConfig R.Float → TdSpec R.Float → IncidentSpec R.Float → Grid R.Float → ℤ → Setting
  td_setting cfg td incident named required =
      let grid = S.tensor named in
      record {
        molecule = cfg.molecule;
        v_init = cfg.v_init;
        grid = grid;
        basis = S.vibrational_states cfg.molecule (S.nuclear_of grid) (n_vib R cfg required);
        incident = incident;
        dt = td.dt;
      }

  -- `_run_td`
  unfoldable pub run_td : ExperimentConfig R.Float → Result TdRun
  unfolding required_levels td_observables
  run_td cfg = td_or_raise cfg.td >>= λ td. energies_or_raise cfg.energies >>= λ spec.
      incident_or_raise td.incident >>= λ incident. resolve_grid R cfg "td" >>= λ named.
      required_levels (add_one cfg.v_init) cfg.observables >>= λ required.
      known_model cfg.molecule
      >> let setting = td_setting cfg td incident named required in
        td_observables cfg setting td.extractors cfg.observables (record { all = []; free = [] })
        >>= λ entries. ok (finish_td cfg setting td (S.as_array spec) entries)
