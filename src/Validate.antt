-- ===== src/Validate.antt =====
-- `validate_config` of apps/qscat-run/qscat_run/config.py, and what it takes from reference.py. The
-- warnings are left out; the reference files are a parameter: where a path leads, whether a file is
-- there, and the number of columns in its first line that is not blank. The culprits that an error
-- lists stand in the order of the config, not sorted and once each.
pub mod Passed
use qscat.Prelude.{
  ℕ, zero, suc, String, Bool, true, false, not, ◌&&◌, ◌||◌, Option, none, some, List, [], ◌∷◌, ◌+◌,
  is_nil, str_eq, any, if◌then◌else◌,
}
use qscat.Prelude.Text.{contains}
use qscat.Prelude.Dict.{Dict, lookup, has_key}
use qscat.Python.{
  ℤ, pos, negsuc, ltb_ℤ, Problem, unknown_molecule, no_methods, unknown_methods, no_observables,
  invalid_observable, no_td_block, lcp_explicit_grid, lcp_unavailable, nrm_unavailable,
  nrm_no_observable, nrm_explicit_grid, nrm_no_choice, nrm_bad_choices, nrm_bad_n_states,
  bad_extractors, missing_half, unknown_preset, reference_format, reference_missing,
  reference_unreadable, reference_channels, Result, ok, raise, raise_if, ◌>>=◌, ◌>>◌, Runtime,
}
use qscat.Config.Types.{
  Observable, TdSpec, NrmSpec, GridSpec, SegmentSpec, ReferenceSpec, ExperimentConfig,
}
use qscat.Presets.Decks.{MoleculePreset}
use qscat.Presets.Table.{models, validity, get_set, presets, find_preset}
use qscat.Presets.Resolve.{variant_of, preset_for, lcp_of, nrm_of}

-- `VALID_METHODS`, `VALID_EXTRACTORS`, `VALID_NRM_CHOICES` and `REFERENCE_FORMATS`
abbrev pub valid_methods : List String
valid_methods = "ti" ∷ "td" ∷ "lcp" ∷ "nrm" ∷ []

abbrev pub valid_extractors : List String
valid_extractors = "flow" ∷ "delta" ∷ "tw" ∷ []

abbrev pub valid_nrm_choices : List String
valid_nrm_choices = "a" ∷ "b" ∷ []

abbrev pub reference_formats : List String
reference_formats = "houfek" ∷ []

-- The names that are not allowed.
abbrev pub others : List String → List String → List String
others allowed [] = []
others allowed (s ∷ ss) =
    let rest = others allowed ss in if contains s allowed then rest else s ∷ rest

abbrev pub given {ℓ} : {A : Type ℓ} → Option A → Bool
given none = false
given (some a) = true

unfoldable pub check_methods : List String → Result (Unit {0})
check_methods methods = do
  raise_if (is_nil methods) no_methods
  raise_if (not (is_nil (others valid_methods methods)))
      (unknown_methods (others valid_methods methods))

-- The loop over the observables.
unfoldable pub check_kinds : List String → List Observable → Result (Unit {0})
check_kinds valid [] = ok tt
check_kinds valid (o ∷ os) =
    raise_if (not (contains o.kind valid)) (invalid_observable o.kind) >> check_kinds valid os

abbrev pub has_kind : String → List Observable → Bool
has_kind kind = any (λ o. str_eq o.kind kind)

unfoldable pub check_choices : Option NrmSpec → Result (Unit {0})
check_choices none = ok tt
check_choices (some n) = do
  raise_if (is_nil n.choices) nrm_no_choice
  raise_if (not (is_nil (others valid_nrm_choices n.choices)))
      (nrm_bad_choices (others valid_nrm_choices n.choices))
  raise_if (ltb_ℤ n.n_states (pos 1)) nrm_bad_n_states

-- `bad_channels`
unfoldable pub bad_channels : Option (List ℤ) → ℕ → List ℤ
bad_channels none n = []
bad_channels (some []) n = []
bad_channels (some (c ∷ cs)) n =
    let rest = bad_channels (some cs) n in
    if ltb_ℤ c (pos 0) || not (ltb_ℤ c (pos n)) then c ∷ rest else rest

-- The reference files, each under its path and the directory of the config.
pub record Files : Type 0 where
  pub is_file : String → Option String → Bool
  -- `peek_n_channels`, `none` where it raises.
  pub columns : String → Option String → Option ℕ

abbrev pub check_columns : ℕ → Option (List ℤ) → Option ℕ → Result (Unit {0})
check_columns i channels none = raise (reference_unreadable i)
check_columns i channels (some n) =
    raise_if (not (is_nil (bad_channels channels n))) (reference_channels i)

-- The loop over the references.
unfoldable pub check_references : Files → Option String → ℕ → List ReferenceSpec → Result (Unit {0})
unfolding bad_channels
check_references files dir i [] = ok tt
check_references files dir i (r ∷ rs) = do
  raise_if (not (contains r.format reference_formats)) (reference_format i)
  raise_if (not (files.is_file r.path dir)) (reference_missing i)
  check_columns i r.channels (files.columns r.path dir)
  check_references files dir (i + 1) rs

module _ (R : Runtime) where
  abbrev pub explicit_part : GridSpec R.Float → Bool
  explicit_part g = given g.electronic || given g.nuclear

  unfoldable pub check_lcp : ExperimentConfig R.Float → Result (Unit {0})
  check_lcp cfg = do
    raise_if (explicit_part cfg.grid) lcp_explicit_grid
    raise_if (not (given (lcp_of R (preset_for R cfg)))) lcp_unavailable

  unfoldable pub check_nrm : ExperimentConfig R.Float → Result (Unit {0})
  unfolding check_choices
  check_nrm cfg = do
    raise_if (not (given (nrm_of R (preset_for R cfg)))) nrm_unavailable
    raise_if (not (has_kind "ve" cfg.observables || has_kind "da" cfg.observables))
        nrm_no_observable
    raise_if (explicit_part cfg.grid) nrm_explicit_grid
    check_choices cfg.nrm

  unfoldable pub check_extractors : Option (TdSpec R.Float) → Result (Unit {0})
  check_extractors none = ok tt
  check_extractors (some td) =
      raise_if (not (is_nil (others valid_extractors td.extractors)))
        (bad_extractors (others valid_extractors td.extractors))

  -- `available_presets`, as a test.
  abbrev pub is_available : String → String → Bool
  is_available molecule variant = given (find_preset R molecule variant)

  abbrev pub check_preset_name : String → Option String → Result (Unit {0})
  check_preset_name molecule none = ok tt
  check_preset_name molecule (some v) = raise_if (not (is_available molecule v)) (unknown_preset v)

  abbrev pub check_segments :
      String
      → Option String
      → Option (SegmentSpec R.Float)
      → Option (SegmentSpec R.Float)
      → Result (Unit {0})
  check_segments molecule preset none none = check_preset_name molecule preset
  check_segments molecule preset none (some n) = raise (missing_half "electronic")
  check_segments molecule preset (some e) none = raise (missing_half "nuclear")
  check_segments molecule preset (some e) (some n) = ok tt

  unfoldable pub check_grid : ExperimentConfig R.Float → Result (Unit {0})
  check_grid cfg = check_segments cfg.molecule cfg.grid.preset cfg.grid.electronic cfg.grid.nuclear

  -- `validate_config`
  unfoldable pub validate_config : Files → ExperimentConfig R.Float → Result (Unit {0})
  unfolding check_methods check_kinds check_lcp check_nrm check_extractors check_grid
      check_references
  validate_config files cfg = do
    raise_if (not (contains cfg.molecule models)) (unknown_molecule cfg.molecule)
    check_methods cfg.methods
    raise_if (is_nil cfg.observables) no_observables
    check_kinds (get_set cfg.molecule validity) cfg.observables
    raise_if (contains "td" cfg.methods && not (given cfg.td)) no_td_block
    (if contains "lcp" cfg.methods then check_lcp cfg else ok tt)
    (if contains "nrm" cfg.methods then check_nrm cfg else ok tt)
    check_extractors cfg.td
    check_grid cfg
    check_references files cfg.config_dir 0 cfg.reference
