-- ===== src/AgentSearch/Index/Reconcile/Outcomes.antt =====
-- The ways a run of `reconcile` ends.
use qscat.Prelude.{
  ℕ, String, ◌≡◌, refl, Bool, true, false, ◌&&◌, Option, none, some, List, [], length, inl, inr,
  Bool-cases, some-injective, ap,
}
use qscat.Prelude.Dict.{Dict, has_key, insert}
use qscat.ArtifactStore.Names.{Text}
use qscat.AgentSearch.Chunks.{Chunk}
use qscat.AgentSearch.Index.{
  IndexError, name_collides, Result, ok, err, Json, Row, Recipe, Manifest, Generation, Snapshot,
  check_owner, open_published, dict_eq,
}
use qscat.AgentSearch.Index.Incremental.{bind-ok}
use qscat.AgentSearch.Index.Reconcile.Published.{attach-rows, publish-ok, stored_some}
use qscat.AgentSearch.Index.Reconcile.{
  Store, Report, stored_of, same_policy, touch, rows_without_vectors, cache_of, embed_all, needed,
  attach, matching, prepare_records, rows_with_vectors, manifest_of, publish_rows, build, rebuild,
  update_or_rebuild, after_owner, matching_manifest, reconcile, report, mode_of, planned, synced,
}

module _ {V : Type 0} where
  matching-some :
      (snap : Snapshot) (o : Option Manifest) (stored : Option (Generation V)) (m : Manifest)
      → matching snap o stored ≡ some m
      → (o ≡ some m)
        × ((g : Generation V) × (stored ≡ some g))
        × (dict_eq m.blobs snap.selected ≡ true)
  matching-some snap none stored m h = cc
  matching-some snap (some n) none m h = cc
  matching-some snap (some n) (some g) m h =
      elim (Bool-cases (same_policy n snap && dict_eq n.blobs snap.selected)) [
        | inl same ↦
            let e : n ≡ m = some-injective (rw same at h) in
            (
              ap some e,
              (g, refl),
              rw (← e) (and_right (same_policy n snap) (dict_eq n.blobs snap.selected) same),
            )
        | inr other ↦ absurd (rw other at h)
      ]
    where
      and_right : (a b : Bool) → (a && b) ≡ true → b ≡ true
      and_right true b e = e
      and_right false b e = cc

      absurd :
          none ≡ some m
          → (some n ≡ some m)
            × ((g' : Generation V) × (some g ≡ some g'))
            × (dict_eq m.blobs snap.selected ≡ true)
      absurd e = cc

module _ {V : Type 0} (fingerprint : List Json → String) (digest : String → String)
    (split : Recipe → String → String → Option (Text × List Chunk))
    (embedding : String → Option String) (encode : String → List Text → Result (List (Option V)))
    (legacy : Dict V) (table : String) where
  -- A run fails or plans and leaves all as it is, or moves the commit on, or publishes a generation.
  pub data Ran (name : String) (version : ℕ) (plan : Bool) (snap : Snapshot) (s : Store V)
      : Store V × Result Report → Type 0 where
    fails : (e : IndexError) → Ran name version plan snap s (s, err e)
    plans : (n : ℕ) → plan ≡ true → Ran name version plan snap s (s, ok (report planned snap n))
    touches :
        (m : Manifest) (g : Generation V)
        → s.manifest ≡ some m
        → open_published s.generations m ≡ ok g
        → dict_eq m.blobs snap.selected ≡ true
        → check_owner s.manifest snap.owner ≡ ok tt
        → Ran name version plan snap s
            (touch plan snap m s, ok (report (mode_of plan) snap m.chunks))
    publishes :
        (spec : String) (r : List Row × Dict String) (rows : List (Row × V))
        → plan ≡ false
        → check_owner s.manifest snap.owner ≡ ok tt
        → prepare_records fingerprint digest split embedding encode legacy table snap s
          ≡ ok (spec, r)
        → rows_without_vectors rows ≡ r.0
        → Ran name version plan snap s (
          record s {
            manifest = some (manifest_of name version snap spec r);
            generations = insert name (record { version = version; rows = rows }) s.generations;
          },
          ok (report synced snap (length r.0)),
        )

  module _ (name : String) (version : ℕ) (snap : Snapshot) (s : Store V) where
    publish_rows-Ran :
        (plan : Bool) (spec : String) (r : List Row × Dict String) (rows : Result (List (Row × V)))
        → plan ≡ false
        → check_owner s.manifest snap.owner ≡ ok tt
        → prepare_records fingerprint digest split embedding encode legacy table snap s
          ≡ ok (spec, r)
        → rows_with_vectors fingerprint digest split embedding encode legacy table snap s r.0 ≡ rows
        → Ran name version plan snap s (publish_rows name version snap spec r s rows)
    unfolding rows_with_vectors
    publish_rows-Ran plan spec r (err e) p o made h = fails e
    publish_rows-Ran plan spec r (ok rows) p o made h =
        let old = cache_of legacy snap s in
        let (cache, embedded, attached) =
          bind-ok
            (embed_all fingerprint digest split embedding encode legacy table snap.profile_sha256
              (needed old [] r.0) old)
            (λ cache. attach cache r.0) rows h in
        let same = attach-rows cache r.0 rows attached in
        let (opened, done) = publish-ok name version snap spec r rows s same in
        rw done (publishes spec r rows p o made same)

    build-Ran :
        (plan : Bool) (spec : String) (r : List Row × Dict String)
        → plan ≡ false
        → check_owner s.manifest snap.owner ≡ ok tt
        → prepare_records fingerprint digest split embedding encode legacy table snap s
          ≡ ok (spec, r)
        → Ran name version plan snap s (
            build fingerprint digest split embedding encode legacy table name version snap spec r s)
    unfolding build
    build-Ran plan spec r p o made = elim (Bool-cases (has_key table s.generations)) [
      | inl collides ↦ rw collides (fails name_collides)
      | inr free ↦ rw free (
          publish_rows-Ran plan spec r
            (rows_with_vectors fingerprint digest split embedding encode legacy table snap s r.0) p
            o made refl)
    ]

    rebuild-Ran :
        (plan : Bool) (p : Result (String × (List Row × Dict String)))
        → check_owner s.manifest snap.owner ≡ ok tt
        → prepare_records fingerprint digest split embedding encode legacy table snap s ≡ p
        → Ran name version plan snap s (
            rebuild fingerprint digest split embedding encode legacy table name version plan snap s
              p)
    rebuild-Ran plan (err e) o made = fails e
    rebuild-Ran true (ok (spec, r)) o made = plans (length r.0) refl
    rebuild-Ran false (ok (spec, r)) o made = build-Ran false spec r refl o made

    update-Ran :
        (plan : Bool) (m : Option Manifest)
        → check_owner s.manifest snap.owner ≡ ok tt
        → matching_manifest snap s ≡ m
        → Ran name version plan snap s (
            update_or_rebuild fingerprint digest split embedding encode legacy table name version
              plan snap s m)
    unfolding matching_manifest
    update-Ran plan none o h =
        rebuild-Ran plan
          (prepare_records fingerprint digest split embedding encode legacy table snap s) o refl
    update-Ran plan (some m) o h =
        let (there, (g, stored), same) = matching-some snap s.manifest (stored_of s) m h in
        touches m g there (stored_some s m g there stored) same o

    owner-Ran :
        (plan : Bool) (r : Result (Unit {0}))
        → check_owner s.manifest snap.owner ≡ r
        → Ran name version plan snap s (
            after_owner fingerprint digest split embedding encode legacy table name version plan
              snap s r)
    owner-Ran plan (err e) h = fails e
    owner-Ran plan (ok u) h = update-Ran plan (matching_manifest snap s) h refl

    pub reconcile-Ran :
        (plan : Bool)
        → Ran name version plan snap s (
            reconcile fingerprint digest split embedding encode legacy table name version plan snap
              s)
    unfolding reconcile
    reconcile-Ran plan = owner-Ran plan (check_owner s.manifest snap.owner) refl
