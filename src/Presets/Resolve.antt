-- ===== src/Presets/Resolve.antt =====
-- The resolution functions of presets.py.
pub mod Packets
pub mod Defaults
use qscat.Prelude.{
  ℕ, zero, suc, String, Bool, true, false, not, ◌&&◌, ◌||◌, Option, none, some, List, [], ◌∷◌, map,
  any, str_eq, if◌then◌else◌,
}
use qscat.Prelude.Text.{◌<>◌, contains}
use qscat.Prelude.Dict.{Dict, lookup, insert}
use qscat.Python.{
  ℤ, Problem, pos, negsuc, min_ℤ, count_up, no_preset, unknown_method, lcp_unavailable,
  nrm_unavailable, no_test_function, no_td_block, Result, ok, raise, ◌>>=◌, Runtime,
}
use qscat.Config.Types.{
  Channels, first_n, listed, Observable, EnergySpec, SegmentSpec, TestFunctionSpec, TdSpec, NrmSpec,
  default_nrm, ExperimentConfig,
}
use qscat.Presets.Decks.{
  TensorBuilder, LcpBuilder, ElectronicBuilder, MoleculePreset, Grid, explicit, built,
}
use qscat.Presets.Table.{default_preset, find_preset}

-- `grid.preset or DEFAULT_PRESET`: an empty name is falsy.
abbrev pub variant_of : Option String → String
variant_of none = default_preset
variant_of (some v) = if str_eq v "" then default_preset else v

abbrev pub or_else : {A : Type 0} → Option A → Option A → Option A
or_else (some a) b = some a
or_else none b = b

abbrev pub map_option : {A B : Type 0} → (A → B) → Option A → Option B
map_option f none = none
map_option f (some a) = some (f a)

abbrev pub or_problem : {A : Type 0} → Problem → Option A → Result A
or_problem p none = raise p
or_problem p (some a) = ok a

abbrev pub surface_or : {A : Type 0} → Option A → Result A → Result A
surface_or (some x) from_packet = ok x
surface_or none from_packet = from_packet

-- `_kinds_in`: a set, as a list without repetition. Python iterates over it in no fixed order.
unfoldable pub kinds_in : List Observable → List String
kinds_in [] = []
kinds_in (o ∷ os) =
    let rest = kinds_in os in
    if contains o.kind ("ve" ∷ "da" ∷ "dr" ∷ []) && not (contains o.kind rest)
    then o.kind ∷ rest
    else rest

abbrev pub one_of : List String → Bool
one_of (k ∷ []) = true
one_of _ = false

-- `list(range(1, stop))`
abbrev range_from_one : ℤ → List ℤ
range_from_one (pos zero) = []
range_from_one (pos (suc n)) = count_up 1 n
range_from_one (negsuc n) = []

module _ {F : Type 0} where
  -- `_default_channels`
  unfoldable pub default_channels : String → MoleculePreset F → Option Channels
  default_channels kind preset =
      if str_eq kind "ve"
      then some (listed (range_from_one (min_ℤ preset.n_vib (pos 4))))
      else if str_eq kind "resonance_levels"
      then none
      else some (first_n (pos 1))

  -- `_preset_test_function`
  unfoldable pub preset_test_function : MoleculePreset F → String → Option (TestFunctionSpec F)
  preset_test_function preset kind =
      if str_eq kind "ve"
      then preset.ve_test_function
      else if str_eq kind "da"
      then preset.da_test_function
      else if str_eq kind "dr"
      then preset.dr_test_function
      else none

  -- `mapping[kind]` where there is a mapping that has the kind.
  abbrev pub find_packet : String → Option (Dict (TestFunctionSpec F)) → Option (TestFunctionSpec F)
  find_packet kind none = none
  find_packet kind (some d) = lookup kind d

  abbrev pub flat_packet : Bool → Option (TestFunctionSpec F) → Option (TestFunctionSpec F)
  flat_packet true flat = flat
  flat_packet false flat = none

  abbrev pub preset_packet : Option (MoleculePreset F) → String → Option (TestFunctionSpec F)
  preset_packet none kind = none
  preset_packet (some p) kind = preset_test_function p kind

  -- `_test_function_for_kind`
  unfoldable pub test_function_for_kind :
      TdSpec F → Option (MoleculePreset F) → String → List String → Option (TestFunctionSpec F)
  test_function_for_kind td preset kind kinds = or_else (find_packet kind td.test_functions) (
      or_else (flat_packet (one_of kinds || str_eq kind "ve") td.test_function)
        (preset_packet preset kind))

-- `if tf is not None: d[kind] = tf`
abbrev pub put_some : {V : Type 0} → String → Option V → Dict V → Dict V
put_some k none d = d
put_some k (some v) d = insert k v d

-- `dict(d or {})` and `d or None`
abbrev pub or_empty : {V : Type 0} → Option (Dict V) → Dict V
or_empty none = []
or_empty (some d) = d

abbrev pub none_if_empty : {V : Type 0} → Dict V → Option (Dict V)
none_if_empty [] = none
none_if_empty (e ∷ d) = some (e ∷ d)

abbrev pub wants_energies : List Observable → Bool
wants_energies = any (λ o. not (str_eq o.kind "resonance_levels"))

abbrev pub fill_nrm : List String → Option NrmSpec → Option NrmSpec
fill_nrm methods given = or_else given (if contains "nrm" methods then some default_nrm else none)

module _ (R : Runtime) where
  -- `PRESETS.get(f"{cfg.molecule}:{variant}")`
  abbrev pub preset_for : ExperimentConfig R.Float → Option (MoleculePreset R.Float)
  preset_for cfg = find_preset R cfg.molecule (variant_of cfg.grid.preset)

  abbrev pub named_grid : String → String → Option (MoleculePreset R.Float) → Result (Grid R.Float)
  named_grid variant method none = raise (no_preset variant)
  named_grid variant method (some p) =
      if str_eq method "ti"
      then ok (built p.ti_grid)
      else if str_eq method "td"
      then ok (built p.td_grid)
      else raise (unknown_method method)

  -- `_build_explicit_segment` is not run, nor is the `GridError` that it may raise: an explicit grid
  -- is the pair of its halves.
  abbrev pub explicit_or :
      Option (SegmentSpec R.Float)
      → Option (SegmentSpec R.Float)
      → Result (Grid R.Float)
      → Result (Grid R.Float)
  explicit_or (some e) (some n) named = ok (explicit e n)
  explicit_or _ _ named = named

  unfoldable pub resolve_grid : ExperimentConfig R.Float → String → Result (Grid R.Float)
  resolve_grid cfg method =
      explicit_or cfg.grid.electronic cfg.grid.nuclear
        (named_grid (variant_of cfg.grid.preset) method (preset_for cfg))

  abbrev pub lcp_of : Option (MoleculePreset R.Float) → Option LcpBuilder
  lcp_of none = none
  lcp_of (some p) = p.lcp_grids

  unfoldable pub resolve_lcp_grids : ExperimentConfig R.Float → Result LcpBuilder
  resolve_lcp_grids cfg = or_problem lcp_unavailable (lcp_of (preset_for cfg))

  abbrev pub nrm_of : Option (MoleculePreset R.Float) → Option (TensorBuilder × ElectronicBuilder)
  nrm_of none = none
  nrm_of (some p) = elim p.nrm_elec_b [ none ↦ none | some b ↦ some (p.ti_grid, b) ]

  -- The nuclear and first electronic grid are the factors of the preset's TI grid.
  unfoldable pub resolve_nrm_grids :
      ExperimentConfig R.Float → Result (TensorBuilder × ElectronicBuilder)
  resolve_nrm_grids cfg = or_problem nrm_unavailable (nrm_of (preset_for cfg))

  abbrev pub packet_or_raise :
      Option (TdSpec R.Float)
      → Option (MoleculePreset R.Float)
      → String
      → List String
      → Result (TestFunctionSpec R.Float)
  packet_or_raise none preset kind kinds = raise no_td_block
  packet_or_raise (some td) preset kind kinds =
      or_problem (no_test_function kind) (test_function_for_kind td preset kind kinds)

  unfoldable pub resolve_test_function :
      ExperimentConfig R.Float → String → Result (TestFunctionSpec R.Float)
  resolve_test_function cfg kind =
      packet_or_raise cfg.td (preset_for cfg) kind (kinds_in cfg.observables)

  abbrev surface_of : String → Option (MoleculePreset R.Float) → Option R.Float
  surface_of kind none = none
  surface_of kind (some p) = if str_eq kind "da" then p.da_surface else p.dr_surface

  unfoldable pub resolve_surface_r : ExperimentConfig R.Float → String → Result R.Float
  resolve_surface_r cfg kind =
      let from_packet = (do t ← resolve_test_function cfg kind; ok t.r0_out) in
      if str_eq kind "ve"
      then from_packet
      else surface_or (surface_of kind (preset_for cfg)) from_packet

  -- `obs.channels`, or the preset's default.
  abbrev pub fill_channels : MoleculePreset R.Float → Observable → Observable
  fill_channels p o = record o { channels = or_else o.channels (default_channels o.kind p) }

  abbrev pub fill_packet :
      TdSpec R.Float
      → MoleculePreset R.Float
      → List String
      → String
      → Dict (TestFunctionSpec R.Float)
      → Dict (TestFunctionSpec R.Float)
  fill_packet td p kinds kind d =
      put_some kind (or_else (lookup kind d) (test_function_for_kind td (some p) kind kinds)) d

  -- The loop over `kinds`.
  unfoldable pub fill_packets :
      TdSpec R.Float
      → MoleculePreset R.Float
      → List String
      → List String
      → Dict (TestFunctionSpec R.Float)
      → Dict (TestFunctionSpec R.Float)
  fill_packets td p kinds [] d = d
  fill_packets td p kinds (k ∷ ks) d = fill_packets td p kinds ks (fill_packet td p kinds k d)

  unfoldable pub fill_td : MoleculePreset R.Float → List String → TdSpec R.Float → TdSpec R.Float
  fill_td p kinds td = record td {
    incident = or_else td.incident (some p.default_incident);
    test_functions = none_if_empty (fill_packets td p kinds kinds (or_empty td.test_functions));
  }

  abbrev pub default_energies : Bool → MoleculePreset R.Float → Option (EnergySpec R.Float)
  default_energies needed p = if needed then some p.default_energies else none

  unfoldable pub fill_config :
      MoleculePreset R.Float → ExperimentConfig R.Float → ExperimentConfig R.Float
  fill_config p cfg =
      let observables = map (fill_channels p) cfg.observables in
      record cfg {
        energies = or_else cfg.energies (default_energies (wants_energies cfg.observables) p);
        observables = observables;
        td = map_option (fill_td p (kinds_in observables)) cfg.td;
        nrm = fill_nrm cfg.methods cfg.nrm;
      }

  -- Without a preset nothing is filled in.
  abbrev pub fill_from :
      Option (MoleculePreset R.Float) → ExperimentConfig R.Float → ExperimentConfig R.Float
  fill_from none cfg = cfg
  fill_from (some p) cfg = fill_config p cfg

  unfoldable pub resolve_defaults : ExperimentConfig R.Float → ExperimentConfig R.Float
  resolve_defaults cfg = fill_from (preset_for cfg) cfg
