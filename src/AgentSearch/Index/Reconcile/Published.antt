-- ===== src/AgentSearch/Index/Reconcile/Published.antt =====
-- The parts of a run of `reconcile`: what it takes over, and the generation that it publishes.
use package.text.Mathlib.TextEquality.{eq_iff}
use qscat.Prelude.{
  ℕ, suc, String, ◌≡◌, refl, ap, true, Option, none, some, List, [], ◌∷◌, length, inl, inr, ◌⊎◌,
  str_eq, ◌==◌, arith, Bool-cases, Option-cases, some-injective,
}
use qscat.Prelude.Dict.{Dict, lookup, insert, lookup-insert}
use qscat.AgentSearch.Index.{
  missing_vector, Result, ok, err, ◌>>=◌, Row, Manifest, Generation, Snapshot, open_published,
}
use qscat.AgentSearch.Index.Incremental.{bind-ok, ok-injective}
use qscat.AgentSearch.Index.Reconcile.{
  Store, healthy, stored_of, same_policy, rows_without_vectors, cached_of, attach, manifest_of,
  publish, report, synced,
}

pub cached_cases :
    {V : Type 0} (snap : Snapshot) (o : Option Manifest) (stored : Option (Generation V))
    → (cached_of snap o stored ≡ none)
      ⊎ ((m : Manifest) × (g : Generation V) × (o ≡ some m)
          × (stored ≡ some g)
          × (same_policy m snap ≡ true)
          × (cached_of snap o stored
              ≡ some (record {
                blobs = m.blobs;
                files = m.files;
                rows = rows_without_vectors g.rows;
              })))
unfolding cached_of
cached_cases snap none stored = inl refl
cached_cases snap (some m) none = inl refl
cached_cases snap (some m) (some g) = elim (Bool-cases (same_policy m snap)) [
  | inl same ↦ inr (m, g, refl, refl, same, rw same refl)
  | inr other ↦ inl (rw other refl)
]

module _ {V : Type 0} where
  healthy-some : (r : Result (Generation V)) (g : Generation V) → healthy r ≡ some g → r ≡ ok g
  healthy-some (ok g') g e = ap ok (some-injective e)
  healthy-some (err x) g e = cc

  pub stored_some :
      (s : Store V) (m : Manifest) (g : Generation V)
      → s.manifest ≡ some m
      → stored_of s ≡ some g
      → open_published s.generations m ≡ ok g
  unfolding stored_of
  stored_some s m g h e = healthy-some (open_published s.generations m) g (rw h at e)

  pub attach-rows :
      (cache : Dict V) (rows : List Row) (qs : List (Row × V))
      → attach cache rows ≡ ok qs
      → rows_without_vectors qs ≡ rows
  unfolding attach
  attach-rows cache [] qs h = rw (← ok-injective h) refl
  attach-rows cache (r ∷ rs) qs h = elim (Option-cases (lookup r.embedding_key cache)) [
    | inl gone ↦ absurd (rw (attach, gone) at h)
    | inr (v, found) ↦
        let h' : (attach cache rs >>= λ (qs : List (Row × V)). ok ((r, v) ∷ qs)) ≡ ok qs =
          rw (attach, found) at h in
        let (qs', rest, last) = bind-ok (attach cache rs) _ qs h' in
        rw (← ok-injective last) (ap (λ xs. r ∷ xs) (attach-rows cache rs qs' rest))
  ]
    where
      absurd : err (missing_vector r.embedding_key) ≡ ok qs → rows_without_vectors qs ≡ r ∷ rs
      absurd e = cc

  length-rows : (qs : List (Row × V)) → length (rows_without_vectors qs) ≡ length qs
  length-rows [] = refl
  length-rows ((r, v) ∷ qs) = ap suc (length-rows qs)

  -- A new generation passes the check, and the manifest names it.
  pub publish-ok :
      (name : String) (version : ℕ) (snap : Snapshot) (spec : String) (r : List Row × Dict String)
      (rows : List (Row × V)) (s : Store V)
      → rows_without_vectors rows ≡ r.0
      → let g : Generation V = record { version = version; rows = rows } in
        let m = manifest_of name version snap spec r in
        (open_published (insert name g s.generations) m ≡ ok g)
        × (publish name version snap spec r rows s ≡ (
          record s { manifest = some m; generations = insert name g s.generations },
          ok (report synced snap (length r.0)),
        ))
  unfolding publish open_published
  publish-ok name version snap spec r rows s h =
      let g : Generation V = record { version = version; rows = rows } in
      let opened : open_published (insert name g s.generations)
            (manifest_of name version snap spec r)
          ≡ ok g =
        rw
          (
            open_published,
            lookup-insert name name g s.generations,
            same_text name,
            self version,
            ← h,
            length-rows rows,
            self (length rows),
          )
          refl in
      (opened, rw opened refl)
    where
      same_text : (p : String) → str_eq p p ≡ true
      same_text p = ground (arith, eq_iff p p)

      self : (n : ℕ) → (n == n) ≡ true
      self n = ground arith
