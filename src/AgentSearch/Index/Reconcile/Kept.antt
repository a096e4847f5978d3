-- ===== src/AgentSearch/Index/Reconcile/Kept.antt =====
-- What a run of `reconcile` leaves as it was, and what a successful one leaves.
use package.text.Mathlib.TextEquality.{eq_iff}
use qscat.Prelude.{
  ℕ, String, ◌≡◌, refl, Bool, true, false, not, Option, some, List, inl, inr, str_eq, ◌⊎◌,
  Bool-cases,
}
use qscat.Prelude.Dict.{Dict}
use qscat.ArtifactStore.Names.{Text}
use qscat.AgentSearch.Chunks.{Chunk}
use qscat.AgentSearch.Source.{Owner, owner_eq, owner_eq_refl}
use qscat.AgentSearch.Index.{
  wrong_owner, IndexError, Result, ok, err, raise_if, Json, Recipe, Manifest, Generation, Snapshot,
  check_owner, open_published, dict_eq,
}
use qscat.AgentSearch.Index.Reconcile.Published.{publish-ok}
use qscat.AgentSearch.Index.Reconcile.Outcomes.{
  Ran, fails, plans, touches, publishes, reconcile-Ran,
}
use qscat.AgentSearch.Index.Reconcile.{Store, Report, touch, manifest_of, reconcile}

module _ {V : Type 0} where
  -- The manifest names a healthy generation, of the fetched commit and its blobs.
  abbrev pub Synced : Snapshot → Store V → Type 0
  Synced snap t =
      (m : Manifest) × (g : Generation V) × (t.manifest ≡ some m)
      × (open_published t.generations m ≡ ok g)
      × (check_owner (some m) snap.owner ≡ ok tt)
      × (m.source_commit ≡ snap.commit)
      × ((m.blobs ≡ snap.selected) ⊎ (dict_eq m.blobs snap.selected ≡ true))

module _ {V : Type 0} (fingerprint : List Json → String) (digest : String → String)
    (split : Recipe → String → String → Option (Text × List Chunk))
    (embedding : String → Option String) (encode : String → List Text → Result (List (Option V)))
    (legacy : Dict V) (table : String) where
  Ran-kept :
      (name : String) (version : ℕ) (plan : Bool) (snap : Snapshot) (s : Store V)
      {t : Store V × Result Report}
      → Ran fingerprint digest split embedding encode legacy table name version plan snap s t
      → (plan ≡ true) ⊎ ((e : IndexError) × (t.1 ≡ err e))
      → t.0 ≡ s
  unfolding touch
  Ran-kept name version plan snap s (fails e) h = refl
  Ran-kept name version plan snap s (plans n p) h = refl
  Ran-kept name version plan snap s (touches m g there opened same o) (inl p) = rw p refl
  Ran-kept name version plan snap s (touches m g there opened same o) (inr (e, q)) = cc
  Ran-kept name version plan snap s (publishes spec r rows p o made same) (inl q) = cc
  Ran-kept name version plan snap s (publishes spec r rows p o made same) (inr (e, q)) = cc

  -- A run of `reconcile` that fails, or that only plans, leaves the manifest, the refresh record and
  -- every generation as they were.
  pub reconcile-kept :
      (name : String) (version : ℕ) (plan : Bool) (snap : Snapshot) (s : Store V)
      → (plan ≡ true)
        ⊎ ((e : IndexError) × ((reconcile fingerprint digest split embedding encode legacy table
                name version plan snap s).1
              ≡ err e))
      → (reconcile fingerprint digest split embedding encode legacy table name version plan snap
          s).0
        ≡ s
  reconcile-kept name version plan snap s h =
      Ran-kept name version plan snap s
        (reconcile-Ran fingerprint digest split embedding encode legacy table name version snap s
          plan)
        h

  pub Ran-Synced :
      (name : String) (version : ℕ) (snap : Snapshot) (s : Store V) {t : Store V × Result Report}
      → Ran fingerprint digest split embedding encode legacy table name version false snap s t
      → (rep : Report) → t.1 ≡ ok rep
      → Synced snap t.0
  unfolding touch open_published check_owner
  Ran-Synced name version snap s (fails e) rep h = cc
  Ran-Synced name version snap s (plans n p) rep h = cc
  Ran-Synced name version snap s (touches m g there opened same o) rep h =
      elim (Bool-cases (str_eq m.source_commit snap.commit)) [
        | inl current ↦ rw current (
          m,
          g,
          there,
          opened,
          rw there at o,
          (eq_iff m.source_commit snap.commit).0 current,
          inr same,
        )
        | inr behind ↦ rw behind (
          record m { source_commit = snap.commit },
          g,
          refl,
          opened,
          rw there at o,
          refl,
          inr same,
        )
      ]
  Ran-Synced name version snap s (publishes spec r rows p o made same) rep h = (
    manifest_of name version snap spec r,
    record { version = version; rows = rows },
    refl,
    (publish-ok name version snap spec r rows s same).0,
    own snap.owner,
    refl,
    inl refl,
  )
    where
      own : (o : Owner) → raise_if (not (owner_eq o o)) wrong_owner ≡ ok tt
      own o = rw (owner_eq_refl o) refl
