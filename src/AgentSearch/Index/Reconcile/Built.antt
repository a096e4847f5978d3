-- ===== src/AgentSearch/Index/Reconcile/Built.antt =====
-- A published generation is what parsing all its blobs gives, and a build that takes rows over is a
-- build that takes none over.
use package.text.Mathlib.TextEquality.{eq_iff}
use qscat.Prelude.{
  String, ◌≡◌, refl, true, false, Option, none, some, List, [], inl, inr, arith, Bool-cases,
  Option-cases,
}
use qscat.Prelude.Dict.{Dict, NodupKeys}
use qscat.ArtifactStore.Names.{Text}
use qscat.AgentSearch.Chunks.{Chunk}
use qscat.AgentSearch.Index.{
  generation_absent, Result, ok, err, Json, Recipe, Manifest, Generation, Snapshot, chunker_of,
  recipe, check_owner, open_published, collect, make_records,
}
use qscat.AgentSearch.Index.Incremental.{collect-cached}
use qscat.AgentSearch.Index.Reconcile.Published.{cached_cases, stored_some}
use qscat.AgentSearch.Index.Reconcile.{
  Store, stored_of, same_policy, other_embedding, rows_without_vectors, cached_of, prepare_records,
}

-- The recipe that a manifest was built with.
abbrev pub recipe_of : Manifest → Recipe
recipe_of m = record {
  repo_id = m.owner.repo_id;
  profile_sha256 = m.profile_sha256;
  chunker = m.chunker;
  embedding = m.embedding;
}

-- The recipe is the manifest's when owner, policy and model are the same.
same_recipe :
    (m : Manifest) (snap : Snapshot) (spec : String)
    → check_owner (some m) snap.owner ≡ ok tt
    → same_policy m snap ≡ true
    → other_embedding (some m) spec ≡ false
    → recipe_of m ≡ recipe snap spec
unfolding check_owner
same_recipe m snap spec o p e =
    let e1 : m.owner.repo_id ≡ snap.owner.repo_id =
      ground (arith, eq_iff m.owner.repo_id snap.owner.repo_id) in
    let e2 : m.profile_sha256 ≡ snap.profile_sha256 =
      ground (arith, eq_iff m.profile_sha256 snap.profile_sha256) in
    let e3 : m.chunker ≡ chunker_of snap.owner =
      ground (arith, eq_iff m.chunker (chunker_of snap.owner)) in
    let e4 : m.embedding ≡ spec = ground (arith, eq_iff m.embedding spec) in cc

module _ {V : Type 0} (fingerprint : List Json → String) (digest : String → String)
    (split : Recipe → String → String → Option (Text × List Chunk)) where
  -- A healthy published generation is what parsing all its blobs gives.
  unfoldable pub IsBuilt : Store V → Type 0
  IsBuilt s =
      (m : Manifest) (g : Generation V)
      → s.manifest ≡ some m
      → open_published s.generations m ≡ ok g
      → NodupKeys m.blobs
        × (collect fingerprint digest split (recipe_of m) none m.blobs
            ≡ ok (rows_without_vectors g.rows, m.files))

  pub make_records-cached :
      (snap : Snapshot) (spec : String) (s : Store V)
      → IsBuilt s
      → check_owner s.manifest snap.owner ≡ ok tt
      → other_embedding s.manifest spec ≡ false
      → make_records fingerprint digest split
          (recipe snap spec)
          (cached_of snap s.manifest (stored_of s))
          snap.selected
        ≡ make_records fingerprint digest split (recipe snap spec) none snap.selected
  unfolding IsBuilt make_records
  make_records-cached snap spec s b o e = elim (cached_cases snap s.manifest (stored_of s)) [
    | inl none_taken ↦ rw none_taken refl
    | inr (m, g, h, stored, same, taken) ↦
        let (u, full) = b m g h (stored_some s m g h stored) in
        let r = same_recipe m snap spec (rw h at o) same (rw h at e) in
        let full' = rw r at full in
        rw
          (
            taken,
            collect-cached fingerprint digest split (recipe snap spec) m.blobs snap.selected
                (rows_without_vectors g.rows, m.files) u full',
          )
          refl
  ]

  not_stored :
      (snap : Snapshot) (s : Store V)
      → cached_of snap s.manifest (stored_of (record s { generations = [] })) ≡ none
  unfolding open_published
  not_stored snap s =
      elim (cached_cases snap s.manifest (stored_of (record s { generations = [] }))) [
        | inl none_taken ↦ none_taken
        | inr (m, g, h, stored, same, taken) ↦
            absurd (stored_some (record s { generations = [] }) m g h stored)
      ]
    where
      absurd :
          {g : Generation V}
          → err generation_absent ≡ ok g
          → cached_of snap s.manifest (stored_of (record s { generations = [] })) ≡ none
      absurd e = cc

module _ {V : Type 0} (fingerprint : List Json → String) (digest : String → String)
    (split : Recipe → String → String → Option (Text × List Chunk))
    (embedding : String → Option String) (encode : String → List Text → Result (List (Option V)))
    (legacy : Dict V) (table : String) where
  -- With a healthy generation that is built from its blobs, and for its owner, the records that
  -- `reconcile` prepares, errors included, are those it prepares when the database has lost every
  -- generation and nothing can be taken over.
  pub prepare_records-fresh :
      (snap : Snapshot) (s : Store V)
      → IsBuilt fingerprint digest split s
      → check_owner s.manifest snap.owner ≡ ok tt
      → prepare_records fingerprint digest split embedding encode legacy table snap s
        ≡ prepare_records fingerprint digest split embedding encode legacy table snap
            (record s { generations = [] })
  unfolding prepare_records
  prepare_records-fresh snap s b o = elim (Option-cases (embedding snap.profile_sha256)) [
    | inl none_loaded ↦ rw (prepare_records, none_loaded) refl
    | inr (spec, loaded) ↦ elim (Bool-cases (other_embedding s.manifest spec)) [
      | inl other ↦ rw (prepare_records, loaded, other) refl
      | inr same ↦
          rw
            (
              prepare_records,
              loaded,
              same,
              make_records-cached fingerprint digest split snap spec s b o same,
              not_stored fingerprint digest split snap s,
            )
            refl
    ]
  ]
