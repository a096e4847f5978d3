-- ===== src/Runner/Nrm.antt =====
-- `_run_nrm` of apps/qscat-run/qscat_run/runner.py.
pub mod Names
use qscat.Prelude.{
  ℕ, zero, String, Bool, true, false, Option, none, some, List, [], ◌∷◌, map, str_eq, if◌then◌else◌,
}
use qscat.Prelude.Text.{◌<>◌}
use qscat.Prelude.Dict.{Dict, insert}
use qscat.Python.{ℤ, add_one, Result, ok, ◌>>=◌, ◌>>◌, Runtime}
use qscat.Config.Types.{Observable, NrmSpec, default_nrm, ExperimentConfig}
use qscat.Presets.Resolve.{resolve_nrm_grids}
use qscat.Runner.{vprimes, n_vib}
use qscat.Runner.Solvers.{Solvers, Basis}
use qscat.Runner.Keys.{final_state, keys_behind, write_columns}
use qscat.Runner.TimeIndependent.{required_levels, known_model, energies_or_raise}

-- `cfg.nrm or NrmSpec()`
abbrev pub or_default_nrm : Option NrmSpec → NrmSpec
or_default_nrm none = default_nrm
or_default_nrm (some spec) = spec

module _ {R : Runtime} (S : Solvers R) where
  -- `_nrm_discrete_state`
  unfoldable pub discrete_state : String → String → S.Fem → S.Fem → S.Fem → S.Array → S.Array
  discrete_state choice molecule elec elec_b nuc descending =
      if str_eq choice "b"
      then S.asymptotic_state molecule elec (S.rotation_origin nuc)
      else S.physical_state molecule elec elec_b descending

  -- The grids, the basis, the energies and the spec of a run.
  pub record NrmSetting : Type 0 where
    pub molecule : String
    pub v_init : ℤ
    pub nuc : S.Fem
    pub elec : S.Fem
    pub elec_b : S.Fem
    pub basis : Basis S.Array
    pub energies : S.Array
    pub spec : NrmSpec

  abbrev pub nrm_setting :
      ExperimentConfig R.Float → S.Array → S.Fem × S.Fem × S.Fem → ℤ → NrmSetting
  nrm_setting cfg energies decks levels = record {
    molecule = cfg.molecule;
    v_init = cfg.v_init;
    nuc = decks.0;
    elec = decks.1;
    elec_b = decks.2;
    basis = S.vibrational_states cfg.molecule decks.0 levels;
    energies = energies;
    spec = or_default_nrm cfg.nrm;
  }

  -- The cross sections of one observable under one choice, with its state and ingredients.
  unfoldable pub nrm_observable :
      NrmSetting → String → S.Array → S.Array → Observable → Dict S.Array → Result (Dict S.Array)
  unfolding vprimes
  nrm_observable t choice phi ing o d =
      if str_eq o.kind "ve"
      then (vprimes o >>= λ vs. ok (
          write_columns S
            (S.nrm_ve_cross_section t.molecule t.nuc t.elec phi ing t.basis t.v_init vs t.energies
              t.spec.n_states t.spec.include_background)
            0 (keys_behind ("nrm-" <> (choice <> ":ve:")) (map (final_state t.v_init) vs)) d))
      else if str_eq o.kind "da"
      then ok (
          insert ("nrm-" <> (choice <> ":da:ch0"))
            (S.nrm_da_cross_section t.molecule t.nuc t.elec phi ing t.basis t.v_init t.energies
              t.spec.n_states)
            d)
      else ok d

  unfoldable pub nrm_observables :
      NrmSetting
      → String
      → S.Array
      → S.Array
      → List Observable
      → Dict S.Array
      → Result (Dict S.Array)
  unfolding nrm_observable
  nrm_observables t choice phi ing [] d = ok d
  nrm_observables t choice phi ing (o ∷ os) d =
      nrm_observable t choice phi ing o d >>= nrm_observables t choice phi ing os

  -- The loop over the choices.
  unfoldable pub nrm_choices :
      NrmSetting → List Observable → List String → Dict S.Array → Result (Dict S.Array)
  unfolding nrm_observables discrete_state
  nrm_choices t os [] d = ok d
  nrm_choices t os (choice ∷ choices) d =
      let descending = S.real_nodes_descending t.nuc in
      let phi = discrete_state choice t.molecule t.elec t.elec_b t.nuc descending in
      let ing = S.nrm_ingredients t.molecule t.elec phi descending in
      nrm_observables t choice phi ing os d >>= nrm_choices t os choices

  -- `_run_nrm`
  unfoldable pub run_nrm : ExperimentConfig R.Float → Result (Dict S.Array)
  unfolding required_levels nrm_choices
  run_nrm cfg = energies_or_raise cfg.energies >>= λ spec. resolve_nrm_grids R cfg >>= λ builders.
      known_model cfg.molecule
      >> required_levels (add_one cfg.v_init) cfg.observables
      >>= λ required.
          nrm_choices
            (nrm_setting cfg (S.as_array spec) (S.nrm_decks builders) (n_vib R cfg required))
            cfg.observables (or_default_nrm cfg.nrm).choices []
