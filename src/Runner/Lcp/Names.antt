-- ===== src/Runner/Lcp/Names.antt =====
-- `_run_lcp` of apps/qscat-run/qscat_run/runner.py writes the series that are asked for.
use qscat.Prelude.{String, refl, not, ◌&&◌, List, [], ◌∷◌, inl, inr, str_eq, Bool-cases}
use qscat.Prelude.Dict.{Dict}
use qscat.Python.{ℤ, add_one, no_energies, raise_if, ◌>>◌, Runtime}
use qscat.Config.Types.{Observable, ExperimentConfig}
use qscat.Runner.{vprimes}
use qscat.Runner.Solvers.{Solvers, Basis}
use qscat.Runner.Keys.Laws.{
  Extends, Extends-none, Adds, Ensures, Ensures-bind, Adds-Ensures, Adds-bind, Ensures-vprimes,
  Extends-insert, write_columns-Extends,
}
use qscat.Runner.Requested.{lcp_names, lcp_requested, for_each}
use qscat.Presets.Resolve.{resolve_lcp_grids}
use qscat.Validate.{given}
use qscat.Runner.TimeIndependent.{required_levels, known_model}
use qscat.Runner.Lcp.{
  wants_sigma, lcp_curve, Curve, LcpRun, lcp_observable, lcp_observables, run_lcp,
}

module _ {R : Runtime} (S : Solvers R) where
  lcp_observable-Adds :
      (molecule : String) (v_init : ℤ) (g : S.Fem) (curve : Curve S) (basis : Basis S.Array)
      (energies : S.Array) (o : Observable) (d : Dict S.Array)
      → Adds (lcp_names v_init o) d (lcp_observable S molecule v_init g curve basis energies o d)
  unfolding lcp_observable vprimes
  lcp_observable-Adds molecule v_init g curve basis energies o d =
      elim (Bool-cases (str_eq o.kind "ve")) [
        | inl ve ↦ rw ve (Ensures-vprimes _ o o.channels _ (write_columns-Extends S _ 0 _ d))
        | inr not_ve ↦ rw not_ve (elim (Bool-cases (str_eq o.kind "da")) [
          | inl da ↦ rw da (Extends-insert "lcp:da:ch0" _ d)
          | inr not_da ↦ rw not_da (Extends-none d)
        ])
      ]

  lcp_observables-Adds :
      (molecule : String) (v_init : ℤ) (g : S.Fem) (curve : Curve S) (basis : Basis S.Array)
      (energies : S.Array) (os : List Observable) (d : Dict S.Array)
      → Adds
          (for_each (lcp_names v_init) os)
          d
          (lcp_observables S molecule v_init g curve basis energies os d)
  unfolding lcp_observables
  lcp_observables-Adds molecule v_init g curve basis energies [] d = Extends-none d
  lcp_observables-Adds molecule v_init g curve basis energies (o ∷ os) d =
      Adds-bind (lcp_names v_init o) (for_each (lcp_names v_init) os) d _ _
        (lcp_observable-Adds molecule v_init g curve basis energies o d)
        (lcp_observables-Adds molecule v_init g curve basis energies os)

  abbrev pub Named : ExperimentConfig R.Float → LcpRun S → Type 0
  Named cfg run = Extends (lcp_requested cfg) [] run.cross_sections

  pub run_lcp-Ensures : (cfg : ExperimentConfig R.Float) → Ensures (Named cfg) (run_lcp S cfg)
  unfolding run_lcp
  run_lcp-Ensures cfg =
      Ensures-bind (Named cfg)
        (raise_if (wants_sigma cfg.observables && not (given cfg.energies)) no_energies) _
        (λ _. Ensures-bind (Named cfg) (resolve_lcp_grids R cfg) _ (λ builder.
          Ensures-bind (Named cfg)
            (known_model cfg.molecule >> required_levels (add_one cfg.v_init) cfg.observables) _
            (λ required.
              Ensures-bind (Named cfg) (lcp_curve S cfg (S.lcp_decks builder)) _ (λ curve.
                Adds-Ensures (lcp_requested cfg) _ _ (λ (run : LcpRun S). run.cross_sections)
                  (λ d. refl)
                  (lcp_observables-Adds cfg.molecule cfg.v_init _ curve _ _ cfg.observables [])))))
