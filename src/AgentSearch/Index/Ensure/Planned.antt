-- ===== src/AgentSearch/Index/Ensure/Planned.antt =====
-- A run of `ensure_main` that only plans.
use qscat.Prelude.{ℕ, String, ◌≡◌, refl, ◌∙◌, Bool, true, Option, List, inl, inr, Bool-cases}
use qscat.Prelude.Dict.{Dict}
use qscat.ArtifactStore.Names.{Text}
use qscat.AgentSearch.Chunks.{Chunk}
use qscat.AgentSearch.Source.{Owner}
use qscat.AgentSearch.Index.{Result, ok, err, Json, Recipe, Snapshot}
use qscat.AgentSearch.Index.Reconcile.{Store, Refresh, Report, reconcile}
use qscat.AgentSearch.Index.Reconcile.Kept.{reconcile-kept}
use qscat.AgentSearch.Index.Ensure.{
  Status, describe, Clock, conclude, fetched_refresh, refresh_main, reuse_or_refresh, ensure_main,
  may_reuse,
}

conclude_planned :
    {V : Type 0} (completed : ℕ) (r : Refresh) (x : Store V × Result Report)
    → (conclude true completed r x).0 ≡ x.0
conclude_planned completed r (s, ok rep) = refl
conclude_planned completed r (s, err e) = refl

module _ {V : Type 0} (fingerprint : List Json → String) (digest : String → String)
    (split : Recipe → String → String → Option (Text × List Chunk))
    (embedding : String → Option String) (encode : String → List Text → Result (List (Option V)))
    (legacy : Dict V) (table : String) where
  -- A planning run writes nothing, whatever its result: neither the manifest, nor a generation, nor
  -- the refresh record.
  pub ensure_main_planned :
      (name : String) (version : ℕ) (force : Bool) (interval : ℕ) (clock : Clock) (o : Owner)
      (fetch : Result Snapshot) (s : Store V)
      → (ensure_main fingerprint digest split embedding encode legacy table name version force true
          interval clock o fetch s).0
        ≡ s
  unfolding ensure_main
  ensure_main_planned name version force interval clock o fetch s =
      go (describe o clock.attempt interval s)
    where
      main_planned :
          (f : Result Snapshot)
          → (refresh_main fingerprint digest split embedding encode legacy table name version true
              clock o f s).0
            ≡ s
      main_planned (err x) = refl
      main_planned (ok fetched) =
          let snap = record fetched { owner = o } in
          conclude_planned clock.completed (fetched_refresh clock snap) (
            reconcile fingerprint digest split embedding encode legacy table name version true snap
              s)
          ∙ reconcile-kept fingerprint digest split embedding encode legacy table name version true
              snap s (inl refl)

      go :
          (st : Result Status)
          → (reuse_or_refresh fingerprint digest split embedding encode legacy table name version
              force true interval clock o fetch s st).0
            ≡ s
      go (err x) = refl
      go (ok st) = elim (Bool-cases (may_reuse force true clock.attempt interval st)) [
        | inl again ↦ rw again refl
        | inr fresh ↦ rw fresh (main_planned fetch)
      ]
