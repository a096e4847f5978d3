-- ===== src/Validate/Passed.antt =====
-- What a config that passes `validate_config` can rely on in the resolution functions.
use qscat.Prelude.{
  String, ◌≡◌, refl, inl, inr, Bool, true, false, not, ◌&&◌, ◌||◌, Option, none, some, List, [],
  ◌∷◌, is_nil, All, if◌then◌else◌, arith, str_eq, Bool-cases,
}
use qscat.Prelude.Text.{contains}
use qscat.Python.{
  Problem, ok, raise_if, bind_inv, unknown_molecule, no_observables, no_td_block, unknown_preset,
  Runtime,
}
use qscat.Config.Types.{Observable, SegmentSpec, TdSpec, ExperimentConfig}
use qscat.Presets.Decks.{MoleculePreset, TensorBuilder, ElectronicBuilder, LcpBuilder, built}
use qscat.Presets.Table.{models, validity, get_set, find_preset}
use qscat.Presets.Resolve.{
  variant_of, preset_for, lcp_of, nrm_of, or_problem, resolve_lcp_grids, resolve_nrm_grids,
  resolve_grid, named_grid, explicit_or,
}
use qscat.Validate.{
  Files, given, check_methods, check_kinds, check_lcp, check_nrm, check_extractors, check_grid,
  check_segments, validate_config,
}

has_value :
    {A : Type 0} (o : Option A) (p : Problem) → given o ≡ true → (a : A) × (or_problem p o ≡ ok a)
has_value none p h = cc
has_value (some a) p h = (a, refl)

is_given : {A : Type 0} (o : Option A) → given o ≡ true → (a : A) × (o ≡ some a)
is_given none h = cc
is_given (some a) h = (a, refl)

check_kinds-All :
    (valid : List String) (os : List Observable)
    → check_kinds valid os ≡ ok tt
    → All (λ o. contains o.kind valid ≡ true) os
unfolding check_kinds
check_kinds-All valid [] h = tt
check_kinds-All valid (o ∷ os) h = ground (arith, check_kinds-All valid os)

module _ (R : Runtime) where
  -- The parts of the check, each passed.
  pub record IsChecked (files : Files) (cfg : ExperimentConfig R.Float) : Type 0 where
    pub molecule : contains cfg.molecule models ≡ true
    pub kinds : check_kinds (get_set cfg.molecule validity) cfg.observables ≡ ok tt
    pub td : (contains "td" cfg.methods && not (given cfg.td)) ≡ false
    pub lcp : (if contains "lcp" cfg.methods then check_lcp R cfg else ok tt) ≡ ok tt
    pub nrm : (if contains "nrm" cfg.methods then check_nrm R cfg else ok tt) ≡ ok tt
    pub grid : check_grid R cfg ≡ ok tt

  not_raised : (b : Bool) (p : Problem) {u : Unit} → raise_if b p ≡ ok u → b ≡ false
  not_raised true p h = cc
  not_raised false p h = refl

  validate_config-IsChecked :
      (files : Files) (cfg : ExperimentConfig R.Float)
      → validate_config R files cfg ≡ ok tt
      → IsChecked files cfg
  unfolding validate_config
  validate_config-IsChecked files cfg h =
      bind_inv (raise_if (not (contains cfg.molecule models)) (unknown_molecule cfg.molecule)) _ h
        λ _ e1 h. bind_inv (check_methods cfg.methods) _ h λ _ _ h.
          bind_inv (raise_if (is_nil cfg.observables) no_observables) _ h λ _ _ h.
            bind_inv (check_kinds (get_set cfg.molecule validity) cfg.observables) _ h λ _ e2 h.
              bind_inv (raise_if (contains "td" cfg.methods && not (given cfg.td)) no_td_block) _ h
                λ _ e3 h.
                  bind_inv (if contains "lcp" cfg.methods then check_lcp R cfg else ok tt) _ h
                    λ _ e4 h.
                      bind_inv (if contains "nrm" cfg.methods then check_nrm R cfg else ok tt) _ h
                        λ _ e5 h. bind_inv (check_extractors R cfg.td) _ h λ _ _ h.
                          bind_inv (check_grid R cfg) _ h λ _ e6 h. record {
                            molecule = ground (
                              arith,
                              not_raised (not (contains cfg.molecule models))
                                  (unknown_molecule cfg.molecule) e1,
                            );
                            kinds = e2;
                            td = not_raised _ no_td_block e3;
                            lcp = e4;
                            nrm = e5;
                            grid = e6;
                          }

  lcp_given :
      (cfg : ExperimentConfig R.Float)
      → check_lcp R cfg ≡ ok tt
      → given (lcp_of R (preset_for R cfg)) ≡ true
  unfolding check_lcp
  lcp_given cfg h = ground arith

  nrm_given :
      (cfg : ExperimentConfig R.Float)
      → check_nrm R cfg ≡ ok tt
      → given (nrm_of R (preset_for R cfg)) ≡ true
  unfolding check_nrm
  nrm_given cfg h = ground arith

  -- A config that passes and lists the method `lcp` has LCP grids: `resolve_lcp_grids` returns.
  pub resolve_lcp_grids-validate_config :
      (files : Files) (cfg : ExperimentConfig R.Float)
      → validate_config R files cfg ≡ ok tt
      → contains "lcp" cfg.methods ≡ true
      → (g : LcpBuilder) × (resolve_lcp_grids R cfg ≡ ok g)
  unfolding resolve_lcp_grids
  resolve_lcp_grids-validate_config files cfg h m =
      has_value (lcp_of R (preset_for R cfg)) _
        (lcp_given cfg (rw m at ((validate_config-IsChecked files cfg h).lcp)))

  -- A config that passes and lists the method `nrm` has NRM grids: `resolve_nrm_grids` returns.
  pub resolve_nrm_grids-validate_config :
      (files : Files) (cfg : ExperimentConfig R.Float)
      → validate_config R files cfg ≡ ok tt
      → contains "nrm" cfg.methods ≡ true
      → (g : TensorBuilder × ElectronicBuilder) × (resolve_nrm_grids R cfg ≡ ok g)
  unfolding resolve_nrm_grids
  resolve_nrm_grids-validate_config files cfg h m =
      has_value (nrm_of R (preset_for R cfg)) _
        (nrm_given cfg (rw m at ((validate_config-IsChecked files cfg h).nrm)))

  -- A config that passes and lists the method `td` has a `td` block, and each of its observables is
  -- of a kind that is valid for its molecule.
  pub td-validate_config :
      (files : Files) (cfg : ExperimentConfig R.Float)
      → validate_config R files cfg ≡ ok tt
      → contains "td" cfg.methods ≡ true
      → ((t : TdSpec R.Float) × (cfg.td ≡ some t))
        × All (λ o. contains o.kind (get_set cfg.molecule validity) ≡ true) cfg.observables
  td-validate_config files cfg h m =
      let checked = validate_config-IsChecked files cfg h in
      (
        is_given cfg.td (given_of (given cfg.td) (rw m at checked.td)),
        check_kinds-All (get_set cfg.molecule validity) cfg.observables checked.kinds,
      )
    where
      given_of : (b : Bool) → not b ≡ false → b ≡ true
      given_of b h = ground arith

  named_of :
      (variant method : String) (o : Option (MoleculePreset R.Float))
      → given o ≡ true
      → (str_eq method "ti" || str_eq method "td") ≡ true
      → (g : TensorBuilder) × (named_grid R variant method o ≡ ok (built g))
  named_of variant method none h m = cc
  named_of variant method (some p) h m = elim (Bool-cases (str_eq method "ti")) [
    | inl ti ↦ (p.ti_grid, rw ti refl)
    | inr other ↦ (p.td_grid, rw (other, td_of _ _ other m) refl)
  ]
    where
      td_of : (a b : Bool) → a ≡ false → (a || b) ≡ true → b ≡ true
      td_of a b h k = ground arith

  grid_of :
      (molecule variant method : String) (n : Option (SegmentSpec R.Float))
      → check_segments R molecule (some variant) none n ≡ ok tt
      → str_eq variant "" ≡ false
      → (str_eq method "ti" || str_eq method "td") ≡ true
      → (g : TensorBuilder) × (explicit_or R none n (
            named_grid R
              (variant_of (some variant))
              method
              (find_preset R molecule (variant_of (some variant))))
          ≡ ok (built g))
  grid_of molecule variant method none h v m = rw v (
      named_of variant method (find_preset R molecule variant)
        (available (find_preset R molecule variant) h) m)
    where
      available :
          (o : Option (MoleculePreset R.Float))
          → raise_if (not (given o)) (unknown_preset variant) ≡ ok tt
          → given o ≡ true
      available none h = cc
      available (some p) h = refl
  grid_of molecule variant method (some n) h v m = cc

  -- A config that passes and names a grid preset, by a name that is not empty, and that gives no
  -- explicit electronic half, has a grid for both methods that ask for one: `resolve_grid` returns one
  -- that the preset builds, for `ti` and for `td`.
  pub resolve_grid-validate_config :
      (files : Files) (cfg : ExperimentConfig R.Float) (variant method : String)
      → validate_config R files cfg ≡ ok tt
      → cfg.grid.preset ≡ some variant
      → str_eq variant "" ≡ false
      → cfg.grid.electronic ≡ none
      → (str_eq method "ti" || str_eq method "td") ≡ true
      → (g : TensorBuilder) × (resolve_grid R cfg method ≡ ok (built g))
  unfolding resolve_grid check_grid
  resolve_grid-validate_config files cfg variant method h p v bare m =
      rw (p, bare)
        (grid_of cfg.molecule variant method cfg.grid.nuclear
          (rw (p, bare) at ((validate_config-IsChecked files cfg h).grid)) v m)
