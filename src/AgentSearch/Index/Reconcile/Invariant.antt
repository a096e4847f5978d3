-- ===== src/AgentSearch/Index/Reconcile/Invariant.antt =====
-- A run of `reconcile` keeps a published generation what parsing all its blobs gives.
use mathlib.Core.Path.{subst}
use qscat.Prelude.{
  ℕ, String, ◌≡◌, refl, Bool, true, false, not, ◌&&◌, Option, none, some, List, is_nil, ◌∙◌, sym,
  inl, inr, str_eq, Option-cases, Bool-cases, some-injective,
}
use qscat.Prelude.Dict.{Dict, NodupKeys}
use qscat.ArtifactStore.Names.{Text}
use qscat.AgentSearch.Chunks.{Chunk}
use qscat.AgentSearch.Index.{
  IndexError, embedding_changed, model_unusable, no_records, ids_not_unique, Result, ok, err, ◌>>=◌,
  ◌>>◌, raise_if, Json, Row, Recipe, Manifest, Snapshot, recipe, check_owner, open_published,
  collect, Cached, unique_ids, make_records,
}
use qscat.AgentSearch.Index.Incremental.{bind-ok, ok-injective}
use qscat.AgentSearch.Index.Reconcile.Published.{publish-ok}
use qscat.AgentSearch.Index.Reconcile.Built.{IsBuilt, make_records-cached}
use qscat.AgentSearch.Index.Reconcile.Outcomes.{
  Ran, fails, plans, touches, publishes, reconcile-Ran,
}
use qscat.AgentSearch.Index.Reconcile.{
  Store, Report, stored_of, touch, other_embedding, cached_of, prepare_records, manifest_of,
  reconcile,
}

raise_if-ok : (b : Bool) (e : IndexError) (u : Unit {0}) → raise_if b e ≡ ok u → b ≡ false
raise_if-ok true e u h = cc
raise_if-ok false e u h = refl

-- The checks of `make_records` pass its records on.
make_records-collect :
    (fingerprint : List Json → String) (digest : String → String)
    (split : Recipe → String → String → Option (Text × List Chunk)) (source : Recipe)
    (cached : Option Cached) (selected : Dict String) (r : List Row × Dict String)
    → make_records fingerprint digest split source cached selected ≡ ok r
    → collect fingerprint digest split source cached selected ≡ ok r
unfolding make_records
make_records-collect fingerprint digest split source cached selected r h =
    let (r', made, h1) = bind-ok (collect fingerprint digest split source cached selected) _ r h in
    let (u, passed, h2) =
      bind-ok (raise_if (is_nil r'.0) no_records >> raise_if (not (unique_ids r'.0)) ids_not_unique)
        _ r h1 in
    made ∙ h2

module _ {V : Type 0} (fingerprint : List Json → String) (digest : String → String)
    (split : Recipe → String → String → Option (Text × List Chunk))
    (embedding : String → Option String) (encode : String → List Text → Result (List (Option V)))
    (legacy : Dict V) (table : String) where
  touch-IsBuilt :
      (plan : Bool) (snap : Snapshot) (m : Manifest) (s : Store V)
      → s.manifest ≡ some m
      → IsBuilt fingerprint digest split s
      → IsBuilt fingerprint digest split (touch plan snap m s)
  unfolding IsBuilt touch open_published
  touch-IsBuilt plan snap m s h b =
      elim (Bool-cases (not plan && not (str_eq m.source_commit snap.commit))) [
        | inl moves ↦ rw moves moved
        | inr stays ↦ rw stays b
      ]
    where
      moved :
          IsBuilt fingerprint digest split
            (record s { manifest = some (record m { source_commit = snap.commit }) })
      moved n g e opened =
          let same : record m { source_commit = snap.commit } ≡ n = some-injective e in
          rw (← same) (b m g h (rw (← same) at opened))

  prepare_records-full :
      (snap : Snapshot) (s : Store V) (spec : String) (r : List Row × Dict String)
      → IsBuilt fingerprint digest split s
      → check_owner s.manifest snap.owner ≡ ok tt
      → prepare_records fingerprint digest split embedding encode legacy table snap s ≡ ok (spec, r)
      → collect fingerprint digest split (recipe snap spec) none snap.selected ≡ ok r
  unfolding prepare_records make_records
  prepare_records-full snap s spec r b o h = elim (Option-cases (embedding snap.profile_sha256)) [
    | inl gone ↦ absurd (rw (prepare_records, gone) at h)
    | inr (spec', loaded) ↦
        let other = other_embedding s.manifest spec' in
        let h' : (raise_if other embedding_changed >> (taking spec' >>= λ r. ok (spec', r)))
            ≡ ok (spec, r) =
          rw (prepare_records, loaded) at h in
        let (u, same, h1) = bind-ok (raise_if other embedding_changed) _ (spec, r) h' in
        let (r', made, h2) = bind-ok (taking spec') _ (spec, r) h1 in
        let fresh =
          make_records-cached fingerprint digest split snap spec' s b o
            (raise_if-ok other embedding_changed u same) in
        subst
          (λ (p : String × (List Row × Dict String)).
            collect fingerprint digest split (recipe snap p.0) none snap.selected ≡ ok p.1)
          (ok-injective h2)
          (make_records-collect fingerprint digest split (recipe snap spec') none snap.selected r'
            (sym fresh ∙ made))
  ]
    where
      taking : String → Result (List Row × Dict String)
      taking spec =
          make_records fingerprint digest split (recipe snap spec)
            (cached_of snap s.manifest (stored_of s)) snap.selected

      absurd :
          ◌≡◌ {A = Result (String × (List Row × Dict String))} (err model_unusable) (ok (spec, r))
          → collect fingerprint digest split (recipe snap spec) none snap.selected ≡ ok r
      absurd e = cc

  Ran-IsBuilt :
      (name : String) (version : ℕ) (plan : Bool) (snap : Snapshot) (s : Store V)
      {t : Store V × Result Report}
      → Ran fingerprint digest split embedding encode legacy table name version plan snap s t
      → NodupKeys snap.selected
      → IsBuilt fingerprint digest split s
      → IsBuilt fingerprint digest split t.0
  unfolding IsBuilt
  Ran-IsBuilt name version plan snap s (fails e) u b = b
  Ran-IsBuilt name version plan snap s (plans n p) u b = b
  Ran-IsBuilt name version plan snap s (touches m g h opened same o) u b =
      touch-IsBuilt plan snap m s h b
  Ran-IsBuilt name version plan snap s (publishes spec r rows p o made same) u b = λ m g e opened.
      let named : manifest_of name version snap spec r ≡ m = some-injective e in
      let (there, done) = publish-ok name version snap spec r rows s same in
      let new : record { version = version; rows = rows } ≡ g =
        ok-injective (sym there ∙ (rw (← named) at opened)) in
      rw (← named, ← new, same) (u, prepare_records-full snap s spec r b o made)

  -- After every run of `reconcile`, whatever its result, a healthy published generation holds the
  -- rows and the digests that parsing all the blobs of its manifest gives, when this was so before
  -- and the selected paths differ.
  pub reconcile-IsBuilt :
      (name : String) (version : ℕ) (plan : Bool) (snap : Snapshot) (s : Store V)
      → NodupKeys snap.selected
      → IsBuilt fingerprint digest split s
      → IsBuilt fingerprint digest split
          (reconcile fingerprint digest split embedding encode legacy table name version plan snap
            s).0
  reconcile-IsBuilt name version plan snap s u b =
      Ran-IsBuilt name version plan snap s
        (reconcile-Ran fingerprint digest split embedding encode legacy table name version snap s
          plan)
        u b
