-- ===== src/Runner/Nrm/Names.antt =====
-- `_run_nrm` of apps/qscat-run/qscat_run/runner.py writes the series that are asked for.
use qscat.Prelude.{String, List, [], ◌∷◌, inl, inr, str_eq, Bool-cases}
use qscat.Prelude.Text.{◌<>◌}
use qscat.Prelude.Dict.{Dict}
use qscat.Python.{add_one, ◌>>◌, Runtime}
use qscat.Config.Types.{Observable, ExperimentConfig}
use qscat.Runner.{vprimes, n_vib}
use qscat.Runner.Solvers.{Solvers}
use qscat.Runner.Keys.Laws.{
  Extends, Extends-none, Adds, Ensures, Ensures-bind, Adds-bind, Ensures-vprimes, Extends-insert,
  write_columns-Extends,
}
use qscat.Runner.Requested.{nrm_names, nrm_requested, for_each}
use qscat.Presets.Resolve.{resolve_nrm_grids}
use qscat.Runner.TimeIndependent.{energies_or_raise, required_levels, known_model}
use qscat.Runner.Nrm.{
  NrmSetting, nrm_setting, or_default_nrm, nrm_observable, nrm_observables, nrm_choices, run_nrm,
}

module _ {R : Runtime} (S : Solvers R) where
  nrm_observable-Adds :
      (t : NrmSetting S) (choice : String) (phi ing : S.Array) (o : Observable) (d : Dict S.Array)
      → Adds (nrm_names t.v_init choice o) d (nrm_observable S t choice phi ing o d)
  unfolding nrm_observable vprimes
  nrm_observable-Adds t choice phi ing o d = elim (Bool-cases (str_eq o.kind "ve")) [
    | inl ve ↦ rw ve (Ensures-vprimes _ o o.channels _ (write_columns-Extends S _ 0 _ d))
    | inr not_ve ↦ rw not_ve (elim (Bool-cases (str_eq o.kind "da")) [
      | inl da ↦ rw da (Extends-insert ("nrm-" <> (choice <> ":da:ch0")) _ d)
      | inr not_da ↦ rw not_da (Extends-none d)
    ])
  ]

  nrm_observables-Adds :
      (t : NrmSetting S) (choice : String) (phi ing : S.Array) (os : List Observable)
      (d : Dict S.Array)
      → Adds (for_each (nrm_names t.v_init choice) os) d (nrm_observables S t choice phi ing os d)
  unfolding nrm_observables
  nrm_observables-Adds t choice phi ing [] d = Extends-none d
  nrm_observables-Adds t choice phi ing (o ∷ os) d =
      Adds-bind (nrm_names t.v_init choice o) (for_each (nrm_names t.v_init choice) os) d _ _
        (nrm_observable-Adds t choice phi ing o d) (nrm_observables-Adds t choice phi ing os)

  nrm_choices-Adds :
      (t : NrmSetting S) (os : List Observable) (choices : List String) (d : Dict S.Array)
      → Adds
          (for_each (λ (choice : String). for_each (nrm_names t.v_init choice) os) choices)
          d
          (nrm_choices S t os choices d)
  unfolding nrm_choices
  nrm_choices-Adds t os [] d = Extends-none d
  nrm_choices-Adds t os (choice ∷ choices) d =
      Adds-bind (for_each (nrm_names t.v_init choice) os)
        (for_each (λ (choice : String). for_each (nrm_names t.v_init choice) os) choices) d _ _
        (nrm_observables-Adds t choice _ _ os d) (nrm_choices-Adds t os choices)

  pub run_nrm-Ensures :
      (cfg : ExperimentConfig R.Float) → Ensures (Extends (nrm_requested cfg) []) (run_nrm S cfg)
  unfolding run_nrm
  run_nrm-Ensures cfg =
      Ensures-bind (Extends (nrm_requested cfg) []) (energies_or_raise cfg.energies) _ (λ spec.
        Ensures-bind (Extends (nrm_requested cfg) []) (resolve_nrm_grids R cfg) _ (λ builders.
          Ensures-bind (Extends (nrm_requested cfg) [])
            (known_model cfg.molecule >> required_levels (add_one cfg.v_init) cfg.observables) _
            (λ required.
              nrm_choices-Adds
                (nrm_setting S cfg (S.as_array spec) (S.nrm_decks builders) (n_vib R cfg required))
                cfg.observables (or_default_nrm cfg.nrm).choices [])))
