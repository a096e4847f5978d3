-- ===== src/Runner/Experiment/Names.antt =====
-- `run_experiment` of apps/qscat-run/qscat_run/runner.py hands back the series that are asked for.
use qscat.Prelude.{
  String, ◌≡◌, ◌∙◌, refl, Bool, false, ◌||◌, List, [], ◌++◌, inl, inr, Bool-cases, arith,
}
use qscat.Prelude.Text.{contains}
use qscat.Prelude.Dict.{Dict, has_key, NodupKeys}
use qscat.Python.{Result, ok, Runtime}
use qscat.Config.Types.{ExperimentConfig}
use qscat.Presets.Resolve.{resolve_defaults}
use qscat.Runner.Solvers.{Solvers, ExperimentResult}
use qscat.Runner.Keys.Laws.{
  Extends, Extends-none, merge-NodupKeys, Ensures, Ensures-bind, Ensures-then, Ensures-ok,
  has_key-merge, contains-append,
}
use qscat.Runner.Requested.{
  requested, if_method, ti_requested, td_requested, lcp_requested, nrm_requested,
}
use qscat.Runner.TimeIndependent.{TiRun, run_ti}
use qscat.Runner.TimeIndependent.Names.{run_ti-Ensures}
use qscat.Runner.TimeDependent.{TdRun, run_td}
use qscat.Runner.TimeDependent.Names.{run_td-Ensures}
use qscat.Runner.Lcp.{LcpRun, run_lcp}
use qscat.Runner.Lcp.Names.{run_lcp-Ensures}
use qscat.Runner.Nrm.{run_nrm}
use qscat.Runner.Nrm.Names.{run_nrm-Ensures}
use qscat.Runner.Experiment.{
  merge, if_requested, no_result, with_ti, with_td, with_lcp, with_nrm, as_backend, run_methods,
  run_experiment,
}

merge-Extends {ℓ} :
    {V : Type ℓ} (ks js : List String) (d e : Dict V)
    → Extends ks [] d
    → Extends js [] e
    → Extends (ks ++ js) [] (merge d e)
merge-Extends ks js d e (p, u) (q, w) = (
  (λ k. ground (arith, p k, q k, has_key-merge k d e, contains-append k ks js)),
  (λ once. merge-NodupKeys d e (u once)),
)

or_false : (a : Bool) → (a || false) ≡ a
or_false a = ground arith

module _ {R : Runtime} (S : Solvers R) where
  abbrev Named : List String → ExperimentResult S → Type 0
  Named ks r = Extends ks [] r.cross_sections

  -- One method, whose run has its own names, adds them to a result.
  if_requested-Named :
      {A : Type 0} (method : String) (cfg : ExperimentConfig R.Float) (run : Result A)
      (add : ExperimentResult S → A → ExperimentResult S) (series : A → Dict S.Array)
      (js ks : List String) (r : ExperimentResult S)
      → Ensures (λ (a : A). Extends js [] (series a)) run
      → ((a : A) → (add r a).cross_sections ≡ merge r.cross_sections (series a))
      → Named ks r
      → Ensures (Named (ks ++ if_method method cfg js)) (if_requested S method cfg run add r)
  if_requested-Named {A} method cfg run add series js ks r own adds named =
      elim (Bool-cases (contains method cfg.methods)) [
        | inl asked ↦ rw asked (
            Ensures-then (λ (a : A). Extends js [] (series a)) (Named (ks ++ js)) run _ own
              (λ a found.
                rw (adds a) (merge-Extends ks js r.cross_sections (series a) named found)))
        | inr not_asked ↦
            rw not_asked ((λ k. ground (arith, named.0 k, contains-append k ks [])), named.1)
      ]

  run_methods-Named :
      (cfg : ExperimentConfig R.Float) → Ensures (Named (requested cfg)) (run_methods S cfg)
  unfolding run_methods requested
  run_methods-Named cfg =
      Ensures-then (Named names_td_lcp)
        (Named (names_td_lcp ++ if_method "nrm" cfg (nrm_requested cfg))) _ _
        (Ensures-then (Named names_td) (Named names_td_lcp) _ _
          (Ensures-then (Named names_ti) (Named names_td) _ _
            (if_requested-Named "ti" cfg (run_ti S cfg) (with_ti S cfg)
              (λ (run : TiRun S). run.cross_sections) (ti_requested cfg) [] (no_result S cfg)
              (run_ti-Ensures S cfg) (λ a. refl) (Extends-none {V = S.Array} []))
            (λ r named.
              if_requested-Named "td" cfg (run_td S cfg) (with_td S cfg)
                (λ (run : TdRun S). run.cross_sections) (td_requested "" cfg) names_ti r
                (run_td-Ensures S cfg) (λ a. refl) named))
          (λ r named.
            if_requested-Named "lcp" cfg (run_lcp S cfg) (with_lcp S cfg)
              (λ (run : LcpRun S). run.cross_sections) (lcp_requested cfg) names_td r
              (run_lcp-Ensures S cfg) (λ a. refl) named))
        (λ r named.
          if_requested-Named "nrm" cfg (run_nrm S cfg) (with_nrm S cfg) (λ (d : Dict S.Array). d)
            (nrm_requested cfg) names_td_lcp r (run_nrm-Ensures S cfg) (λ a. refl) named)
    where
      names_ti : List String
      names_ti = if_method "ti" cfg (ti_requested cfg)

      names_td : List String
      names_td = names_ti ++ if_method "td" cfg (td_requested "" cfg)

      names_td_lcp : List String
      names_td_lcp = names_td ++ if_method "lcp" cfg (lcp_requested cfg)

  -- If `run_experiment` returns, its cross sections have exactly the names that the config with its
  -- defaults filled in asks for, each of them once: for `ti` one for each channel of each `ve`, `da`
  -- and `dr` observable, for `td` one for each channel of each observable and each extractor, for `lcp`
  -- one for each channel of `ve` and the single `ch0` for `da`, and for `nrm` the same for each choice.
  pub run_experiment-requested :
      (cfg : ExperimentConfig R.Float) (r : ExperimentResult S)
      → run_experiment S cfg ≡ ok r
      → NodupKeys r.cross_sections
        × ((k : String)
            → has_key k r.cross_sections ≡ contains k (requested (resolve_defaults R cfg)))
  unfolding run_experiment as_backend
  run_experiment-requested cfg r h =
      let resolved = resolve_defaults R cfg in
      let found =
        Ensures-ok (Named (requested resolved)) (run_experiment S cfg)
          (Ensures-bind (Named (requested resolved)) (as_backend resolved.backend) _
            (λ _. run_methods-Named resolved))
          h in
      (found.1 tt, (λ k. found.0 k ∙ or_false (contains k (requested resolved))))
