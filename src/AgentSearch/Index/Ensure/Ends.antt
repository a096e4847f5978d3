-- ===== src/AgentSearch/Index/Ensure/Ends.antt =====
-- How a run of `ensure_main` ends that succeeds.
use native.Mathlib.Omega.{arith}
use qscat.Prelude.{
  ℕ, ◌+◌, ◌≤◌, String, ◌≡◌, refl, ap, Bool, true, false, Option, some, List, inl, inr, leb,
  Bool-cases,
}
use qscat.Prelude.Dict.{Dict}
use qscat.ArtifactStore.Names.{Text}
use qscat.AgentSearch.Chunks.{Chunk}
use qscat.AgentSearch.Source.{Owner, owner_eq_refl, option_eq_refl}
use qscat.AgentSearch.Index.{Result, ok, err, Json, Recipe, Snapshot}
use qscat.AgentSearch.Index.Incremental.{ok-injective}
use qscat.AgentSearch.Index.Reconcile.{
  Store, Refresh, RefreshState, Report, Mode, reused, reconcile,
}
use qscat.AgentSearch.Index.Reconcile.Outcomes.{reconcile-Ran}
use qscat.AgentSearch.Index.Reconcile.Kept.{Synced, Ran-Synced}
use qscat.AgentSearch.Index.Ensure.{
  up_to_date, Status, status_of, describe, may_reuse, Clock, write_refresh, conclude, first_refresh,
  fetched_refresh, refresh_main, reuse_or_refresh, ensure_main,
}

not_both : true ≡ false → ⊥
not_both e = cc

abbrev pub is_reuse : Mode → Bool
is_reuse reused = true
is_reuse _ = false

module _ {V : Type 0} where
  -- A run that reports success has written the record of its end.
  conclude-ok :
      (completed : ℕ) (r : Refresh) (x : Store V × Result Report) (rep : Report)
      → (conclude false completed r x).1 ≡ ok rep
      → (x.1 ≡ ok rep)
        × ((conclude false completed r x).0 ≡ record x.0 {
          refresh =
              some (record r { state = RefreshState.complete; completed_at = some completed });
        })
  conclude-ok completed r (t, ok x) rep h = (h, refl)
  conclude-ok completed r (t, err x) rep h = cc

  -- The status within the interval after the fetch of a synced store.
  Synced-status :
      (now interval : ℕ) (clock : Clock) (snap : Snapshot) (t : Store V)
      → Synced snap t
      → now ≤ clock.fetched + interval
      → let s : Store V = record t {
        refresh = some (record (fetched_refresh clock snap) {
          state = RefreshState.complete;
          completed_at = some clock.completed;
        });
      } in
        describe snap.owner now interval s ≡ ok (status_of now interval s)
        × ((status_of now interval s).state ≡ up_to_date)
  unfolding describe
  Synced-status now interval clock snap t (m, g, there, opened, owned, commit, blobs) soon = (
    rw (there, owned, owner_eq_refl snap.owner) refl,
    rw (there, opened, commit, option_eq_refl (some snap.commit), in_time) refl,
  )
    where
      in_time : leb now (clock.fetched + interval) ≡ true
      in_time = ground arith

module _ {V : Type 0} (fingerprint : List Json → String) (digest : String → String)
    (split : Recipe → String → String → Option (Text × List Chunk))
    (embedding : String → Option String) (encode : String → List Text → Result (List (Option V)))
    (legacy : Dict V) (table : String) where
  -- A run that succeeds, and neither plans nor reuses, has fetched: the manifest names a healthy
  -- generation of the fetched commit and its blobs, and for the length of the interval after the fetch
  -- the described state is up to date.
  pub ensure_main-up_to_date :
      (name : String) (version : ℕ) (force : Bool) (interval : ℕ) (clock : Clock) (o : Owner)
      (fetch : Result Snapshot) (s : Store V) (rep : Report) (now : ℕ)
      → (ensure_main fingerprint digest split embedding encode legacy table name version force false
          interval clock o fetch s).1
        ≡ ok rep
      → is_reuse rep.mode ≡ false
      → now ≤ clock.fetched + interval
      → (fetched : Snapshot) × (fetch ≡ ok fetched)
        × Synced
            (record fetched { owner = o })
            (ensure_main fingerprint digest split embedding encode legacy table name version force
              false interval clock o fetch s).0
        × ((st : Status) × (describe o now interval
                (ensure_main fingerprint digest split embedding encode legacy table name version
                  force false interval clock o fetch s).0
              ≡ ok st)
            × (st.state ≡ up_to_date))
  unfolding ensure_main
  ensure_main-up_to_date name version force interval clock o fetch s rep now h used soon =
      go (describe o clock.attempt interval s) h
    where
      Ends : Store V → Type 0
      Ends t =
          (fetched : Snapshot) × (fetch ≡ ok fetched)
          × Synced (record fetched { owner = o }) t
          × ((st : Status) × (describe o now interval t ≡ ok st) × (st.state ≡ up_to_date))

      main_ends :
          (f : Result Snapshot)
          → fetch ≡ f
          → (refresh_main fingerprint digest split embedding encode legacy table name version false
              clock o f
              (write_refresh false (first_refresh o clock.attempt) s)).1
            ≡ ok rep
          → Ends
              (refresh_main fingerprint digest split embedding encode legacy table name version
                false clock o f
                (write_refresh false (first_refresh o clock.attempt) s)).0
      main_ends (err x) e q = cc
      main_ends (ok fetched) e q =
          let snap = record fetched { owner = o } in
          let s' =
            write_refresh false (fetched_refresh clock snap)
              (write_refresh false (first_refresh o clock.attempt) s) in
          let (done, written) =
            conclude-ok clock.completed (fetched_refresh clock snap)
              (reconcile fingerprint digest split embedding encode legacy table name version false
                snap s')
              rep q in
          let synced =
            Ran-Synced fingerprint digest split embedding encode legacy table name version snap s'
              (reconcile-Ran fingerprint digest split embedding encode legacy table name version
                snap s' false)
              rep done in
          let (described, current) =
            Synced-status now interval clock snap
              (reconcile fingerprint digest split embedding encode legacy table name version false
                snap s').0
              synced soon in
          let final : Store V =
            record (reconcile fingerprint digest split embedding encode legacy table name version
              false snap s').0 {
                refresh = some (record (fetched_refresh clock snap) {
                  state = RefreshState.complete;
                  completed_at = some clock.completed;
                });
              } in
          (
            fetched,
            e,
            rw written synced,
            (status_of now interval final, rw written described, current),
          )

      go :
          (st : Result Status)
          → (reuse_or_refresh fingerprint digest split embedding encode legacy table name version
              force false interval clock o fetch s st).1
            ≡ ok rep
          → Ends
              (reuse_or_refresh fingerprint digest split embedding encode legacy table name version
                force false interval clock o fetch s st).0
      go (err x) q = cc
      go (ok st) q = elim (Bool-cases (may_reuse force false clock.attempt interval st)) [
        | inl again ↦
            absurd (reused_mode (ap (λ (r : Report). r.mode) (ok-injective (rw again at q))))
        | inr fresh ↦ rw fresh (main_ends fetch refl (rw fresh at q))
      ]
        where
          reused_mode : reused ≡ rep.mode → ⊥
          reused_mode e = not_both (rw (← e) at used)
