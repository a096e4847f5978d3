-- ===== src/Runner/TimeIndependent/Names.antt =====
-- `_run_ti` of apps/qscat-run/qscat_run/runner.py writes the series that are asked for.
use qscat.Prelude.{String, refl, List, [], ◌∷◌, inl, inr, str_eq, Bool-cases}
use qscat.Prelude.Dict.{Dict}
use qscat.Python.{ℤ, add_one, Runtime}
use qscat.Config.Types.{Observable, ExperimentConfig}
use qscat.Runner.{vprimes, n_channels}
use qscat.Runner.Solvers.{Solvers, Basis}
use qscat.Runner.Keys.Laws.{
  Extends, Extends-none, Adds, Ensures, Ensures-bind, Adds-Ensures, Adds-bind, Ensures-vprimes,
  Ensures-n_channels, write_columns-Extends,
}
use qscat.Runner.Requested.{ti_names, ti_requested, for_each}
use qscat.Presets.Resolve.{resolve_grid}
use qscat.Runner.TimeIndependent.{
  energies_or_raise, required_levels, known_model, TiRun, ti_observable, ti_observables, run_ti,
}

module _ {R : Runtime} (S : Solvers R) where
  ti_observable-Adds :
      (molecule : String) (v_init : ℤ) (grid : S.Tensor) (basis : Basis S.Array)
      (energies : S.Array) (o : Observable) (d : Dict S.Array)
      → Adds (ti_names v_init o) d (ti_observable S molecule v_init grid basis energies o d)
  unfolding ti_observable vprimes n_channels
  ti_observable-Adds molecule v_init grid basis energies o d =
      elim (Bool-cases (str_eq o.kind "ve")) [
        | inl ve ↦ rw ve (Ensures-vprimes _ o o.channels _ (write_columns-Extends S _ 0 _ d))
        | inr not_ve ↦ rw not_ve (elim (Bool-cases (str_eq o.kind "da")) [
          | inl da ↦ rw da (Ensures-n_channels _ o o.channels _ (write_columns-Extends S _ 0 _ d))
          | inr not_da ↦ rw not_da (elim (Bool-cases (str_eq o.kind "dr")) [
            | inl dr ↦ rw dr (Ensures-n_channels _ o o.channels _ (write_columns-Extends S _ 0 _ d))
            | inr not_dr ↦ rw not_dr tt
          ])
        ])
      ]

  ti_observables-Adds :
      (molecule : String) (v_init : ℤ) (grid : S.Tensor) (basis : Basis S.Array)
      (energies : S.Array) (os : List Observable) (d : Dict S.Array)
      → Adds
          (for_each (ti_names v_init) os)
          d
          (ti_observables S molecule v_init grid basis energies os d)
  unfolding ti_observables
  ti_observables-Adds molecule v_init grid basis energies [] d = Extends-none d
  ti_observables-Adds molecule v_init grid basis energies (o ∷ os) d =
      Adds-bind (ti_names v_init o) (for_each (ti_names v_init) os) d _ _
        (ti_observable-Adds molecule v_init grid basis energies o d)
        (ti_observables-Adds molecule v_init grid basis energies os)

  abbrev pub Named : ExperimentConfig R.Float → TiRun S → Type 0
  Named cfg run = Extends (ti_requested cfg) [] run.cross_sections

  pub run_ti-Ensures : (cfg : ExperimentConfig R.Float) → Ensures (Named cfg) (run_ti S cfg)
  unfolding run_ti
  run_ti-Ensures cfg = Ensures-bind (Named cfg) (energies_or_raise cfg.energies) _ (λ spec.
      Ensures-bind (Named cfg) (resolve_grid R cfg "ti") _ (λ named.
        Ensures-bind (Named cfg) (required_levels (add_one cfg.v_init) cfg.observables) _
          (λ required. Ensures-bind (Named cfg) (known_model cfg.molecule) _ (λ _.
            Adds-Ensures (ti_requested cfg) _ _ (λ (run : TiRun S). run.cross_sections) (λ d. refl)
              (ti_observables-Adds cfg.molecule cfg.v_init _ _ _ cfg.observables [])))))
