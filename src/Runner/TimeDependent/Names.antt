-- ===== src/Runner/TimeDependent/Names.antt =====
-- `_run_td` of apps/qscat-run/qscat_run/runner.py writes the series that are asked for.
use qscat.Prelude.{
  ℕ, String, Bool, ◌≡◌, refl, sym, ◌∙◌, ap, false, Option, none, some, List, [], ◌∷◌, ◌++◌, map,
  inl, inr, str_eq, Bool-cases,
}
use mathlib.Core.Path.{subst}
use mathlib.Core.List.{append-nil, append_assoc}
use qscat.Prelude.Text.{◌<>◌}
use qscat.Prelude.Dict.{Dict}
use qscat.Python.{ℤ, add_one, Runtime}
use qscat.Config.Types.{Observable, TdSpec, TestFunctionSpec, ExperimentConfig}
use qscat.Runner.{vprimes, n_channels}
use qscat.Runner.Solvers.{Solvers, ExtractorKind, ExtractorAxis}
use qscat.Runner.Keys.Laws.{
  Extends, Extends-none, Extends-trans, Ensures, Ensures-bind, Ensures-then, Ensures-map,
  Ensures-vprimes, Ensures-n_channels, write_columns-Extends,
}
use qscat.Runner.Keys.{write_columns}
use qscat.Runner.Requested.{td_names, extractor_names, td_requested, for_each}
use qscat.Presets.Resolve.{resolve_grid, resolve_test_function, resolve_surface_r}
use qscat.Runner.TimeIndependent.{energies_or_raise, required_levels, known_model}
use qscat.Runner.TimeDependent.{
  free_of, propagate_free_all, td_setting, build_extractor, with_entry, incident_or_raise,
  finish_td, Entry, Setting, Entries, TdRun, td_or_raise, is_nuclear_kind, add_entries,
  td_observable, td_observables, propagate_all, td_series, run_td,
}

for_each-append {ℓ} :
    {A : Type ℓ} (f : A → List String) (xs ys : List A)
    → for_each f (xs ++ ys) ≡ for_each f xs ++ for_each f ys
for_each-append f [] ys = refl
for_each-append f (x ∷ xs) ys =
    ap (λ (l : List String). f x ++ l) (for_each-append f xs ys)
    ∙ sym (append_assoc (f x) (for_each f xs) (for_each f ys))

module _ {R : Runtime} (S : Solvers R) where
  abbrev entry_names : String → Entry S → List String
  entry_names suffix e = map (λ (l : String). e.label <> (":" <> (l <> suffix))) e.channels

  abbrev names_of : String → Entries S → List String
  names_of suffix es = for_each (entry_names suffix) es.all

  -- `built` has the names of `es`, then `ks`.
  abbrev Follows : String → Entries S → List String → Entries S → Type 0
  Follows suffix es ks built = names_of suffix built ≡ names_of suffix es ++ ks

  Follows-trans :
      (suffix : String) (a b c : Entries S) (ks js : List String)
      → Follows suffix a ks b
      → Follows suffix b js c
      → Follows suffix a (ks ++ js) c
  Follows-trans suffix a b c ks js p q =
      q ∙ ap (λ (l : List String). l ++ js) p ∙ append_assoc (names_of suffix a) ks js

  with_entry-Follows :
      (suffix kind : String) (channels : List String) (wants_free : Bool) (name : String)
      (built : ExtractorKind × S.Extractor) (es : Entries S)
      → Follows suffix es
          (extractor_names suffix kind channels name)
          (with_entry S kind channels wants_free name built es)
  with_entry-Follows suffix kind channels wants_free name built es =
      for_each-append (entry_names suffix) es.all _
      ∙ ap (λ (l : List String). names_of suffix es ++ l)
          (append-nil (extractor_names suffix kind channels name))

  add_entries-Follows :
      (suffix : String) (t : Setting S) (kind : String) (vs : List ℤ) (channels : List String)
      (packet : TestFunctionSpec R.Float) (index : ℕ) (axis : ExtractorAxis) (n : ℤ)
      (wants_free : Bool) (names : List String) (es : Entries S)
      → Ensures
          (Follows suffix es (for_each (extractor_names suffix kind channels) names))
          (add_entries S t kind vs channels packet index axis n wants_free names es)
  unfolding add_entries
  add_entries-Follows suffix t kind vs channels packet index axis n wants_free [] es =
      sym (append-nil (names_of suffix es))
  add_entries-Follows suffix t kind vs channels packet index axis n wants_free (name ∷ names) es =
      Ensures-bind
        (Follows suffix es (for_each (extractor_names suffix kind channels) (name ∷ names)))
        (build_extractor S t name vs packet index axis n) _
        (λ built.
          let next : Entries S = with_entry S kind channels wants_free name built es in
          Ensures-map _ _ _
            (λ found follows.
              Follows-trans suffix es next found (extractor_names suffix kind channels name)
                (for_each (extractor_names suffix kind channels) names)
                (with_entry-Follows suffix kind channels wants_free name built es) follows)
            (add_entries-Follows suffix t kind vs channels packet index axis n wants_free names
              next))

  td_observable-Follows :
      (suffix : String) (cfg : ExperimentConfig R.Float) (t : Setting S) (names : List String)
      (o : Observable) (es : Entries S)
      → Ensures
          (Follows suffix es (td_names suffix t.v_init names o))
          (td_observable S cfg t names o es)
  unfolding td_observable vprimes n_channels
  td_observable-Follows suffix cfg t names o es = elim (Bool-cases (str_eq o.kind "ve")) [
    | inl ve ↦ rw ve (
        Ensures-vprimes _ o o.channels _ (
          Ensures-bind _ (resolve_test_function R cfg "ve") _
            (λ packet. add_entries-Follows suffix t "ve" _ _ packet _ _ _ _ names es)))
    | inr not_ve ↦ rw not_ve (elim (Bool-cases (is_nuclear_kind o.kind)) [
      | inl nuclear_kind ↦ rw nuclear_kind (
          Ensures-n_channels _ o o.channels _ (
            Ensures-bind _ (resolve_test_function R cfg o.kind) _ (λ packet.
              Ensures-bind _ (resolve_surface_r R cfg o.kind) _
                (λ surface. add_entries-Follows suffix t o.kind _ _ packet _ _ _ false names es))))
      | inr other ↦ rw other tt
    ])
  ]

  td_observables-Follows :
      (suffix : String) (cfg : ExperimentConfig R.Float) (t : Setting S) (names : List String)
      (os : List Observable) (es : Entries S)
      → Ensures
          (Follows suffix es (for_each (td_names suffix t.v_init names) os))
          (td_observables S cfg t names os es)
  unfolding td_observables
  td_observables-Follows suffix cfg t names [] es = sym (append-nil (names_of suffix es))
  td_observables-Follows suffix cfg t names (o ∷ os) es =
      Ensures-then (Follows suffix es (td_names suffix t.v_init names o)) _ _ _
        (td_observable-Follows suffix cfg t names o es)
        (λ mid first.
          Ensures-map _ _ _
            (λ found second.
              Follows-trans suffix es mid found (td_names suffix t.v_init names o)
                (for_each (td_names suffix t.v_init names) os) first second)
            (td_observables-Follows suffix cfg t names os mid))

  -- A propagation leaves every name as it is.
  propagate_all-names :
      (suffix : String) (run : S.Extractor → S.Extractor) (es : List (Entry S))
      → for_each (entry_names suffix) (propagate_all S run es) ≡ for_each (entry_names suffix) es
  propagate_all-names suffix run [] = refl
  propagate_all-names suffix run (e ∷ es) =
      ap (λ (l : List String). entry_names suffix e ++ l) (propagate_all-names suffix run es)

  td_series-Extends :
      (energies : S.Array) (free : Dict S.Extractor) (n_steps : Option ℤ) (suffix : String)
      (es : List (Entry S)) (d : Dict S.Array)
      → Extends (for_each (entry_names suffix) es) d (td_series S energies free n_steps suffix es d)
  unfolding td_series
  td_series-Extends energies free n_steps suffix [] d = Extends-none d
  td_series-Extends energies free n_steps suffix (e ∷ es) d =
      Extends-trans (entry_names suffix e) (for_each (entry_names suffix) es) d
        (write_columns S (S.sigma e.extractor energies (free_of S free e) n_steps) 0
          (entry_names suffix e) d)
        _ (write_columns-Extends S _ 0 (entry_names suffix e) d)
        (td_series-Extends energies free n_steps suffix es _)

  abbrev pub Named : ExperimentConfig R.Float → TdRun S → Type 0
  Named cfg run = Extends (td_requested "" cfg) [] run.cross_sections

  finish_td-names :
      (cfg : ExperimentConfig R.Float) (t : Setting S) (td : TdSpec R.Float) (energies : S.Array)
      (built : Entries S) (ks : List String)
      → names_of "" built ≡ ks
      → Extends ks [] (finish_td S cfg t td energies built).cross_sections
  unfolding finish_td
  finish_td-names cfg t td energies built ks same =
      let psi = S.initial_state t.grid t.basis.chi t.v_init t.incident in
      let run : S.Extractor → S.Extractor =
        S.propagate t.molecule t.grid psi td.dt td.n_steps td.order in
      let run_free : S.Extractor → S.Extractor =
        S.propagate_free t.molecule t.grid psi td.dt td.n_steps td.order in
      subst (λ (l : List String). Extends l [] (finish_td S cfg t td energies built).cross_sections)
        (propagate_all-names "" run built.all ∙ same)
        (td_series-Extends energies (propagate_free_all S run_free built.free) none ""
          (propagate_all S run built.all) [])

  td_or_raise_inv :
      (td : Option (TdSpec R.Float))
      → Ensures (λ (found : TdSpec R.Float). td ≡ some found) (td_or_raise td)
  td_or_raise_inv none = tt
  td_or_raise_inv (some td) = refl

  pub run_td-Ensures : (cfg : ExperimentConfig R.Float) → Ensures (Named cfg) (run_td S cfg)
  unfolding run_td
  run_td-Ensures cfg =
      Ensures-then _ (Named cfg) (td_or_raise cfg.td) _ (td_or_raise_inv cfg.td) (λ td same.
        Ensures-bind (Named cfg) (energies_or_raise cfg.energies) _ (λ spec.
          Ensures-bind (Named cfg) (incident_or_raise td.incident) _ (λ incident.
            Ensures-bind (Named cfg) (resolve_grid R cfg "td") _ (λ named.
              Ensures-bind (Named cfg) (required_levels (add_one cfg.v_init) cfg.observables) _
                (λ required. Ensures-bind (Named cfg) (known_model cfg.molecule) _ (λ _.
                  let t : Setting S = td_setting S cfg td incident named required in
                  Ensures-then _ (Named cfg) _ _
                    (td_observables-Follows "" cfg t td.extractors cfg.observables
                      (record { all = []; free = [] }))
                    (λ built follows.
                      finish_td-names cfg t td _ built (td_requested "" cfg)
                        (rw same follows))))))))
