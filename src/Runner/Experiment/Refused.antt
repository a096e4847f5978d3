-- ===== src/Runner/Experiment/Refused.antt =====
-- What `_run_ti` and `_run_td` of apps/qscat-run/qscat_run/runner.py do with a `resonance_levels`
-- observable, which `validate_config` lets through.
use package.text.Mathlib.TextEquality.{eq_iff}
use qscat.Prelude.{
  String, Bool, true, ◌||◌, ◌≡◌, refl, ap, ◌∙◌, Option, some, none, List, [], ◌∷◌, map, inl, inr,
  str_eq, Bool-cases,
}
use qscat.Prelude.Text.{contains}
use qscat.Prelude.Dict.{Dict}
use qscat.Python.{ℤ, add_one, Error, Result, ok, err, ◌>>=◌, Runtime}
use qscat.Config.Types.{Observable, ExperimentConfig}
use qscat.Presets.Decks.{MoleculePreset}
use qscat.Presets.Resolve.{
  preset_for, fill_from, fill_config, fill_channels, resolve_defaults, resolve_grid,
}
use qscat.Validate.{has_kind}
use qscat.Runner.Solvers.{Solvers, Basis, ExperimentResult}
use qscat.Runner.Keys.Laws.{Ensures, Ensures-bind}
use qscat.Runner.TimeIndependent.{
  energies_or_raise, required_levels, known_model, ti_observable, ti_observables, run_ti,
}
use qscat.Runner.TimeDependent.{
  td_or_raise, incident_or_raise, td_setting, Setting, Entries, td_observable, td_observables,
  run_td,
}
use qscat.Runner.Lcp.{run_lcp}
use qscat.Runner.Nrm.{run_nrm}
use qscat.Runner.Experiment.{
  if_requested, no_result, with_ti, with_td, with_lcp, with_nrm, as_backend, run_methods,
  run_experiment,
}

-- An exception is raised.
abbrev Fails {ℓ} : {A : Type ℓ} → Result A → Type 0
Fails {A = A} = Ensures (λ (_ : A). ⊥)

Fails-bind {ℓ μ} :
    {A : Type ℓ} {B : Type μ} (m : Result A) (f : A → Result B) → Fails m → Fails (m >>= f)
Fails-bind (ok a) f h = elim h [ ]
Fails-bind (err e) f h = tt

abbrev Nothing {ℓ} : {A : Type ℓ} → A → Type 0
Nothing a = ⊥

module _ {R : Runtime} (S : Solvers R) where
  ti_observable-Fails :
      (molecule : String) (v_init : ℤ) (grid : S.Tensor) (basis : Basis S.Array)
      (energies : S.Array) (o : Observable) (d : Dict S.Array)
      → str_eq o.kind "resonance_levels" ≡ true
      → Fails (ti_observable S molecule v_init grid basis energies o d)
  unfolding ti_observable
  ti_observable-Fails molecule v_init grid basis energies o d h =
      rw ((eq_iff o.kind "resonance_levels").0 h) tt

  ti_observables-Fails :
      (molecule : String) (v_init : ℤ) (grid : S.Tensor) (basis : Basis S.Array)
      (energies : S.Array) (os : List Observable) (d : Dict S.Array)
      → has_kind "resonance_levels" os ≡ true
      → Fails (ti_observables S molecule v_init grid basis energies os d)
  unfolding ti_observables
  ti_observables-Fails molecule v_init grid basis energies [] d h = cc
  ti_observables-Fails molecule v_init grid basis energies (o ∷ os) d h =
      elim (Bool-cases (str_eq o.kind "resonance_levels")) [
        | inl levels ↦
            Fails-bind (ti_observable S molecule v_init grid basis energies o d) _
              (ti_observable-Fails molecule v_init grid basis energies o d levels)
        | inr other ↦
            Ensures-bind Nothing (ti_observable S molecule v_init grid basis energies o d) _
              (λ e. ti_observables-Fails molecule v_init grid basis energies os e (rw other at h))
      ]

  run_ti-Fails :
      (cfg : ExperimentConfig R.Float)
      → has_kind "resonance_levels" cfg.observables ≡ true
      → Fails (run_ti S cfg)
  unfolding run_ti
  run_ti-Fails cfg h = Ensures-bind Nothing (energies_or_raise cfg.energies) _ (λ spec.
      Ensures-bind Nothing (resolve_grid R cfg "ti") _ (λ named.
        Ensures-bind Nothing (required_levels (add_one cfg.v_init) cfg.observables) _ (λ required.
          Ensures-bind Nothing (known_model cfg.molecule) _ (λ _.
            Fails-bind (ti_observables S cfg.molecule cfg.v_init _ _ _ cfg.observables []) _
              (ti_observables-Fails cfg.molecule cfg.v_init _ _ _ cfg.observables [] h)))))

  td_observable-Fails :
      (cfg : ExperimentConfig R.Float) (t : Setting S) (names : List String) (o : Observable)
      (es : Entries S)
      → str_eq o.kind "resonance_levels" ≡ true
      → Fails (td_observable S cfg t names o es)
  unfolding td_observable
  td_observable-Fails cfg t names o es h = rw ((eq_iff o.kind "resonance_levels").0 h) tt

  td_observables-Fails :
      (cfg : ExperimentConfig R.Float) (t : Setting S) (names : List String) (os : List Observable)
      (es : Entries S)
      → has_kind "resonance_levels" os ≡ true
      → Fails (td_observables S cfg t names os es)
  unfolding td_observables
  td_observables-Fails cfg t names [] es h = cc
  td_observables-Fails cfg t names (o ∷ os) es h =
      elim (Bool-cases (str_eq o.kind "resonance_levels")) [
        | inl levels ↦
            Fails-bind (td_observable S cfg t names o es) _
              (td_observable-Fails cfg t names o es levels)
        | inr other ↦
            Ensures-bind Nothing (td_observable S cfg t names o es) _
              (λ more. td_observables-Fails cfg t names os more (rw other at h))
      ]

  run_td-Fails :
      (cfg : ExperimentConfig R.Float)
      → has_kind "resonance_levels" cfg.observables ≡ true
      → Fails (run_td S cfg)
  unfolding run_td
  run_td-Fails cfg h = Ensures-bind Nothing (td_or_raise cfg.td) _ (λ td.
      Ensures-bind Nothing (energies_or_raise cfg.energies) _ (λ spec.
        Ensures-bind Nothing (incident_or_raise td.incident) _ (λ incident.
          Ensures-bind Nothing (resolve_grid R cfg "td") _ (λ named.
            Ensures-bind Nothing (required_levels (add_one cfg.v_init) cfg.observables) _
              (λ required. Ensures-bind Nothing (known_model cfg.molecule) _ (λ _.
                let t : Setting S = td_setting S cfg td incident named required in
                let start : Entries S = record { all = []; free = [] } in
                Fails-bind (td_observables S cfg t td.extractors cfg.observables start) _
                  (td_observables-Fails cfg t td.extractors cfg.observables start h)))))))

  if_requested-Fails :
      {A : Type 0} (method : String) (cfg : ExperimentConfig R.Float) (run : Result A)
      (add : ExperimentResult S → A → ExperimentResult S) (r : ExperimentResult S)
      → contains method cfg.methods ≡ true
      → Fails run
      → Fails (if_requested S method cfg run add r)
  if_requested-Fails method cfg run add r asked h = rw asked (Fails-bind run _ h)

  run_methods-Fails :
      (cfg : ExperimentConfig R.Float)
      → (contains "ti" cfg.methods || contains "td" cfg.methods) ≡ true
      → has_kind "resonance_levels" cfg.observables ≡ true
      → Fails (run_methods S cfg)
  unfolding run_methods
  run_methods-Fails cfg asked levels =
      Fails-bind _ (if_requested S "nrm" cfg (run_nrm S cfg) (with_nrm S cfg)) (
        Fails-bind _ (if_requested S "lcp" cfg (run_lcp S cfg) (with_lcp S cfg))
          (elim (Bool-cases (contains "ti" cfg.methods)) [
            | inl ti ↦
                Fails-bind
                  (if_requested S "ti" cfg (run_ti S cfg) (with_ti S cfg) (no_result S cfg)) _
                  (if_requested-Fails "ti" cfg (run_ti S cfg) (with_ti S cfg) (no_result S cfg) ti
                    (run_ti-Fails cfg levels))
            | inr not_ti ↦
                Ensures-bind Nothing
                  (if_requested S "ti" cfg (run_ti S cfg) (with_ti S cfg) (no_result S cfg)) _
                  (λ r.
                    if_requested-Fails "td" cfg (run_td S cfg) (with_td S cfg) r
                      (rw not_ti at asked) (run_td-Fails cfg levels))
          ]))

  has_kind-fill_channels :
      (p : MoleculePreset R.Float) (kind : String) (os : List Observable)
      → has_kind kind (map (fill_channels R p) os) ≡ has_kind kind os
  has_kind-fill_channels p kind [] = refl
  has_kind-fill_channels p kind (o ∷ os) =
      ap (λ (b : Bool). str_eq o.kind kind || b) (has_kind-fill_channels p kind os)

  has_kind-fill_from :
      (p : Option (MoleculePreset R.Float)) (kind : String) (cfg : ExperimentConfig R.Float)
      → has_kind kind (fill_from R p cfg).observables ≡ has_kind kind cfg.observables
  unfolding fill_config
  has_kind-fill_from none kind cfg = refl
  has_kind-fill_from (some p) kind cfg = has_kind-fill_channels p kind cfg.observables

  methods-fill_from :
      (p : Option (MoleculePreset R.Float)) (cfg : ExperimentConfig R.Float)
      → (fill_from R p cfg).methods ≡ cfg.methods
  unfolding fill_config
  methods-fill_from none cfg = refl
  methods-fill_from (some p) cfg = refl

  -- A config with the method `ti` or `td` and a `resonance_levels` observable never gives a result:
  -- `run_experiment` raises an exception, whatever else the config holds.
  pub run_experiment_refuses_levels :
      (cfg : ExperimentConfig R.Float)
      → (contains "ti" cfg.methods || contains "td" cfg.methods) ≡ true
      → has_kind "resonance_levels" cfg.observables ≡ true
      → (e : Error) × (run_experiment S cfg ≡ err e)
  unfolding run_experiment resolve_defaults as_backend
  run_experiment_refuses_levels cfg asked levels = error_of (run_experiment S cfg) (
      Ensures-bind Nothing (as_backend (resolve_defaults R cfg).backend) _ (λ _.
        run_methods-Fails (resolve_defaults R cfg)
          (rw (methods-fill_from (preset_for R cfg) cfg) asked)
          (has_kind-fill_from (preset_for R cfg) "resonance_levels" cfg ∙ levels)))
    where
      error_of : {A : Type 0} (m : Result A) → Fails m → (e : Error) × (m ≡ err e)
      error_of (ok a) h = elim h [ ]
      error_of (err e) h = (e, refl)
