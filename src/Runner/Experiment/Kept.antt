-- ===== src/Runner/Experiment/Kept.antt =====
-- `run_experiment` of apps/qscat-run/qscat_run/runner.py merges the methods' series without loss.
use qscat.Prelude.{
  ℕ, String, true, false, ◌≡◌, ◌≢◌, refl, sym, ◌∙◌, none, List, [], inl, inr, Bool-cases,
  if◌then◌else◌, arith,
}
use qscat.Prelude.Text.{contains}
use qscat.Prelude.Dict.{Dict, lookup, has_key, NodupKeys}
use qscat.Python.{Result, ok, err, ◌>>=◌, bind_inv, ok-injective, Runtime}
use qscat.Config.Types.{ExperimentConfig}
use qscat.Presets.Resolve.{resolve_defaults}
use qscat.Runner.Solvers.{Solvers, ExperimentResult}
use qscat.Runner.Keys.Laws.{Extends, Ensures, Ensures-ok, lookup-merge}
use qscat.Runner.TimeIndependent.{TiRun, run_ti}
use qscat.Runner.TimeIndependent.Names.{run_ti-Ensures}
use qscat.Runner.TimeDependent.{TdRun, run_td}
use qscat.Runner.TimeDependent.Names.{run_td-Ensures}
use qscat.Runner.Lcp.{LcpRun, run_lcp}
use qscat.Runner.Lcp.Names.{run_lcp-Ensures}
use qscat.Runner.Nrm.{run_nrm}
use qscat.Runner.Nrm.Names.{run_nrm-Ensures}
use qscat.Runner.Experiment.{
  merge, if_requested, no_result, with_ti, with_td, with_lcp, with_nrm, as_backend, run_methods,
  run_experiment,
}
use qscat.Runner.Experiment.Apart.{
  method_of, OfMethod, ti_requested-OfMethod, td_requested-OfMethod, lcp_requested-OfMethod,
  nrm_requested-OfMethod,
}

-- The four methods, in the order of their runs.
pub data Method : Type 0 where
  ti td lcp nrm : Method

abbrev pub method_name : Method → String
method_name ti = "ti"
method_name td = "td"
method_name lcp = "lcp"
method_name nrm = "nrm"

abbrev number : Method → ℕ
number ti = 1
number td = 2
number lcp = 3
number nrm = 4

module _ {R : Runtime} (S : Solvers R) where
  -- What a method computes by itself.
  abbrev pub series_of : Method → ExperimentConfig R.Float → Result (Dict S.Array)
  series_of ti cfg = run_ti S cfg >>= λ run. ok run.cross_sections
  series_of td cfg = run_td S cfg >>= λ run. ok run.cross_sections
  series_of lcp cfg = run_lcp S cfg >>= λ run. ok run.cross_sections
  series_of nrm cfg = run_nrm S cfg >>= λ series. ok series

  -- What it contributes to a run.
  abbrev part_of : Method → ExperimentConfig R.Float → Result (Dict S.Array)
  part_of m cfg = if contains (method_name m) cfg.methods then series_of m cfg else ok []

  -- A contribution: no name twice, and all of one method.
  abbrev Own : ℕ → Dict S.Array → Type 0
  Own n d = NodupKeys d × ((k : String) → has_key k d ≡ true → method_of k ≡ n)

  Own-of_Extends :
      (n : ℕ) (ks : List String) (d : Dict S.Array) → OfMethod n ks → Extends ks [] d → Own n d
  Own-of_Extends n ks d p (keys_are, once) = (once tt, (λ k h. p k (ground (arith, keys_are k))))

  Ensures-series :
      {A : Type 0} (n : ℕ) (ks : List String) (m : Result A) (series : A → Dict S.Array)
      → OfMethod n ks
      → Ensures (λ (a : A). Extends ks [] (series a)) m
      → Ensures (Own n) (m >>= λ a. ok (series a))
  Ensures-series n ks (ok a) series p h = Own-of_Extends n ks (series a) p h
  Ensures-series n ks (err e) series p h = tt

  series_of-Own :
      (m : Method) (cfg : ExperimentConfig R.Float) → Ensures (Own (number m)) (series_of m cfg)
  series_of-Own ti cfg =
      Ensures-series 1 _ (run_ti S cfg) (λ (run : TiRun S). run.cross_sections)
        (ti_requested-OfMethod cfg) (run_ti-Ensures S cfg)
  series_of-Own td cfg =
      Ensures-series 2 _ (run_td S cfg) (λ (run : TdRun S). run.cross_sections)
        (td_requested-OfMethod cfg) (run_td-Ensures S cfg)
  series_of-Own lcp cfg =
      Ensures-series 3 _ (run_lcp S cfg) (λ (run : LcpRun S). run.cross_sections)
        (lcp_requested-OfMethod cfg) (run_lcp-Ensures S cfg)
  series_of-Own nrm cfg =
      Ensures-series 4 _ (run_nrm S cfg) (λ (d : Dict S.Array). d) (nrm_requested-OfMethod cfg)
        (run_nrm-Ensures S cfg)

  part_of-Own :
      (m : Method) (cfg : ExperimentConfig R.Float) (d : Dict S.Array)
      → part_of m cfg ≡ ok d
      → Own (number m) d
  part_of-Own m cfg d h = elim (Bool-cases (contains (method_name m) cfg.methods)) [
    | inl asked ↦
        Ensures-ok (Own (number m)) (series_of m cfg) (series_of-Own m cfg) (rw asked at h)
    | inr not_asked ↦ rw (← ok-injective (rw not_asked at h)) (tt, (λ k found. cc))
  ]

  -- A step of `run_methods` adds one contribution.
  if_requested_inv :
      {A : Type 0} (method : String) (cfg : ExperimentConfig R.Float) (run : Result A)
      (add : ExperimentResult S → A → ExperimentResult S) (series : A → Dict S.Array)
      (before after : ExperimentResult S)
      → ((a : A) → (add before a).cross_sections ≡ merge before.cross_sections (series a))
      → if_requested S method cfg run add before ≡ ok after
      → (d : Dict S.Array) × ((if contains method cfg.methods
            then (run >>= λ a. ok (series a))
            else ok [])
          ≡ ok d)
        × (after.cross_sections ≡ merge before.cross_sections d)
  if_requested_inv method cfg (ok a) add series before after adds h =
      elim (Bool-cases (contains method cfg.methods)) [
        | inl asked ↦ (series a, rw asked refl, rw (← ok-injective (rw asked at h)) (adds a))
        | inr not_asked ↦ ([], rw not_asked refl, rw (← ok-injective (rw not_asked at h)) refl)
      ]
  if_requested_inv method cfg (err e) add series before after adds h =
      elim (Bool-cases (contains method cfg.methods)) [
        | inl asked ↦ let impossible : err e ≡ ok after = rw asked at h in cc
        | inr not_asked ↦ ([], rw not_asked refl, rw (← ok-injective (rw not_asked at h)) refl)
      ]

  -- What the methods contribute, and that the cross sections are the merge of it in order.
  abbrev Merged : ExperimentConfig R.Float → ExperimentResult S → Type 0
  Merged cfg r =
      (a b c d : Dict S.Array) × (part_of ti cfg ≡ ok a)
      × (part_of td cfg ≡ ok b)
      × (part_of lcp cfg ≡ ok c)
      × (part_of nrm cfg ≡ ok d)
      × (r.cross_sections ≡ merge (merge (merge (merge [] a) b) c) d)

  run_methods_inv :
      (cfg : ExperimentConfig R.Float) (r : ExperimentResult S)
      → run_methods S cfg ≡ ok r
      → Merged cfg r
  unfolding run_methods
  run_methods_inv cfg r h = bind_inv _ _ h (λ r3 h3 last. bind_inv _ _ h3 (λ r2 h2 third.
      bind_inv _ _ h2 (λ r1 first second.
        let (a, a_is, a_merged) =
          if_requested_inv "ti" cfg (run_ti S cfg) (with_ti S cfg)
            (λ (run : TiRun S). run.cross_sections) (no_result S cfg) r1 (λ run. refl) first in
        let (b, b_is, b_merged) =
          if_requested_inv "td" cfg (run_td S cfg) (with_td S cfg)
            (λ (run : TdRun S). run.cross_sections) r1 r2 (λ run. refl) second in
        let (c, c_is, c_merged) =
          if_requested_inv "lcp" cfg (run_lcp S cfg) (with_lcp S cfg)
            (λ (run : LcpRun S). run.cross_sections) r2 r3 (λ run. refl) third in
        let (d, d_is, d_merged) =
          if_requested_inv "nrm" cfg (run_nrm S cfg) (with_nrm S cfg) (λ (s : Dict S.Array). s) r3 r
            (λ run. refl) last in
        (a, b, c, d, a_is, b_is, c_is, d_is, cc))))

  absent :
      (m n : ℕ) (d e : Dict S.Array) (k : String)
      → m ≢ n
      → Own m d
      → Own n e
      → has_key k d ≡ true
      → has_key k e ≡ false
  absent m n d e k differ own_d own_e there = elim (Bool-cases (has_key k e)) [
    | inl both ↦ elim (differ (sym (own_d.1 k there) ∙ own_e.1 k both)) [ ]
    | inr apart ↦ apart
  ]

  abbrev choose : Method → (a b c d : Dict S.Array) → Dict S.Array
  choose ti a b c d = a
  choose td a b c d = b
  choose lcp a b c d = c
  choose nrm a b c d = d

  -- The last contribution that has a name gives its series.
  lookup_merges :
      (a b c d : Dict S.Array) (k : String)
      → Own 1 a
      → Own 2 b
      → Own 3 c
      → Own 4 d
      → lookup k (merge (merge (merge (merge [] a) b) c) d) ≡ (
          if has_key k d
          then lookup k d
          else if has_key k c
          then lookup k c
          else if has_key k b
          then lookup k b
          else if has_key k a
          then lookup k a
          else none)
  lookup_merges a b c d k own_a own_b own_c own_d =
      rw
        (
          lookup-merge k (merge (merge (merge [] a) b) c) d own_d.0,
          lookup-merge k (merge (merge [] a) b) c own_c.0,
          lookup-merge k (merge [] a) b own_b.0,
          lookup-merge k [] a own_a.0,
        )
        refl

  -- The merge of four contributions gives each of them back.
  merged_lookup :
      (m : Method) (a b c d : Dict S.Array) (k : String)
      → Own 1 a
      → Own 2 b
      → Own 3 c
      → Own 4 d
      → has_key k (choose m a b c d) ≡ true
      → lookup k (merge (merge (merge (merge [] a) b) c) d) ≡ lookup k (choose m a b c d)
  merged_lookup ti a b c d k own_a own_b own_c own_d there =
      rw
        (
          lookup_merges a b c d k own_a own_b own_c own_d,
          absent 1 4 a d k (omega arith) own_a own_d there,
          absent 1 3 a c k (omega arith) own_a own_c there,
          absent 1 2 a b k (omega arith) own_a own_b there,
          there,
        )
        refl
  merged_lookup td a b c d k own_a own_b own_c own_d there =
      rw
        (
          lookup_merges a b c d k own_a own_b own_c own_d,
          absent 2 4 b d k (omega arith) own_b own_d there,
          absent 2 3 b c k (omega arith) own_b own_c there,
          there,
        )
        refl
  merged_lookup lcp a b c d k own_a own_b own_c own_d there =
      rw
        (
          lookup_merges a b c d k own_a own_b own_c own_d,
          absent 3 4 c d k (omega arith) own_c own_d there,
          there,
        )
        refl
  merged_lookup nrm a b c d k own_a own_b own_c own_d there =
      rw (lookup_merges a b c d k own_a own_b own_c own_d, there) refl

  part_of_asked :
      (m : Method) (cfg : ExperimentConfig R.Float) (d e : Dict S.Array)
      → contains (method_name m) cfg.methods ≡ true
      → series_of m cfg ≡ ok d
      → part_of m cfg ≡ ok e
      → e ≡ d
  part_of_asked m cfg d e asked computed part =
      let same : series_of m cfg ≡ ok e = rw asked at part in cc

  run_methods_keeps :
      (m : Method) (cfg : ExperimentConfig R.Float) (r : ExperimentResult S) (own : Dict S.Array)
      (k : String)
      → Merged cfg r
      → contains (method_name m) cfg.methods ≡ true
      → series_of m cfg ≡ ok own
      → has_key k own ≡ true
      → lookup k r.cross_sections ≡ lookup k own
  run_methods_keeps m cfg r own k (a, b, c, d, a_is, b_is, c_is, d_is, merged) asked computed
        there =
      let chosen : choose m a b c d ≡ own =
        part_of_asked m cfg own _ asked computed (part_of_choose m a_is b_is c_is d_is) in
      rw (merged, ← chosen)
        (merged_lookup m a b c d k (part_of-Own ti cfg a a_is) (part_of-Own td cfg b b_is)
          (part_of-Own lcp cfg c c_is) (part_of-Own nrm cfg d d_is) (rw chosen there))
    where
      part_of_choose :
          (m : Method)
          → part_of ti cfg ≡ ok a
          → part_of td cfg ≡ ok b
          → part_of lcp cfg ≡ ok c
          → part_of nrm cfg ≡ ok d
          → part_of m cfg ≡ ok (choose m a b c d)
      part_of_choose ti p q r s = p
      part_of_choose td p q r s = q
      part_of_choose lcp p q r s = r
      part_of_choose nrm p q r s = s

  -- If `run_experiment` returns and a method is requested, every series that this method computes by
  -- itself stands under its name among the cross sections of the result, whatever the other methods
  -- compute: the merge overwrites nothing.
  pub run_experiment_keeps :
      (m : Method) (cfg : ExperimentConfig R.Float) (r : ExperimentResult S) (own : Dict S.Array)
      → run_experiment S cfg ≡ ok r
      → contains (method_name m) (resolve_defaults R cfg).methods ≡ true
      → series_of m (resolve_defaults R cfg) ≡ ok own
      → (k : String) → has_key k own ≡ true
      → lookup k r.cross_sections ≡ lookup k own
  unfolding run_experiment as_backend
  run_experiment_keeps m cfg r own h asked computed k there = bind_inv _ _ h (λ _ checked ran.
      run_methods_keeps m (resolve_defaults R cfg) r own k
        (run_methods_inv (resolve_defaults R cfg) r ran) asked computed there)
