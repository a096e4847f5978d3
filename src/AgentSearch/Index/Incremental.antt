-- ===== src/AgentSearch/Index/Incremental.antt =====
-- The rows that `make_records` takes over from the previous generation.
use package.text.Mathlib.TextEquality.{eq_iff}
use qscat.Prelude.{
  String, ◌≡◌, refl, ap, ◌∙◌, true, false, Option, none, some, List, [], ◌∷◌, ◌++◌, map, inl, inr,
  str_eq, if◌then◌else◌, arith, Bool-cases, some-injective, Option-cases,
}
use qscat.Prelude.Dict.{Dict, lookup, has_key, NodupKeys}
use qscat.ArtifactStore.Names.{Text}
use qscat.AgentSearch.Chunks.{Chunk}
use qscat.AgentSearch.Source.{option_eq}
use qscat.AgentSearch.Index.{
  cannot_index, Result, ok, err, ◌>>=◌, Json, Row, Recipe, rows_of, make_row, parsed_file,
  cached_file, file_records, collect,
}

pub ok-injective : {A : Type 0} {a b : A} → ok a ≡ ok b → a ≡ b
ok-injective h = cc

-- A bind that gives a value.
pub bind-ok :
    {A B : Type 0} (a : Result A) (f : A → Result B) (b : B)
    → (a >>= f) ≡ ok b
    → (x : A) × (a ≡ ok x) × (f x ≡ ok b)
bind-ok (ok x) f b h = (x, refl, h)
bind-ok (err e) f b h = cc

rows_of-append :
    (path : String) (rs qs : List Row)
    → rows_of path (rs ++ qs) ≡ rows_of path rs ++ rows_of path qs
rows_of-append path [] qs = refl
rows_of-append path (r ∷ rs) qs = ground (arith, rows_of-append path rs qs)

append_nil : {A : Type 0} (xs : List A) → xs ++ [] ≡ xs
append_nil [] = refl
append_nil (x ∷ xs) = ap (λ ys. x ∷ ys) (append_nil xs)

option_eq-some : (o : Option String) (v : String) → option_eq o (some v) ≡ true → o ≡ some v
option_eq-some none v h = cc
option_eq-some (some w) v h = ap some ((eq_iff w v).0 h)

module _ (fingerprint : List Json → String) (digest : String → String)
    (split : Recipe → String → String → Option (Text × List Chunk)) (recipe : Recipe) where
  mapped_rows :
      (q path oid : String) (language : Text) (cs : List Chunk)
      → rows_of q (map (make_row fingerprint digest split recipe path oid language) cs) ≡ (
          if str_eq path q
          then map (make_row fingerprint digest split recipe path oid language) cs
          else [])
  unfolding make_row
  mapped_rows q path oid language [] = ground arith
  mapped_rows q path oid language (c ∷ cs) = elim (Bool-cases (str_eq path q)) [
    | inl same ↦ rw same (
        ap (λ rs. make_row fingerprint digest split recipe path oid language c ∷ rs)
          (mapped_rows q path oid language cs ∙ (rw same refl)))
    | inr other ↦ rw other (mapped_rows q path oid language cs ∙ (rw other refl))
  ]

  parsed_rows :
      (q path oid : String) (f : String × List Row)
      → parsed_file fingerprint digest split recipe path oid ≡ ok f
      → rows_of q f.1 ≡ (if str_eq path q then f.1 else [])
  unfolding parsed_file
  parsed_rows q path oid f h = elim (Option-cases (split recipe path oid)) [
    | inl refused ↦ absurd (rw (parsed_file, refused) at h)
    | inr ((language, cs), parsed) ↦
        rw (← ok-injective (rw (parsed_file, parsed) at h)) (mapped_rows q path oid language cs)
  ]
    where
      absurd : err (cannot_index path) ≡ ok f → rows_of q f.1 ≡ (if str_eq path q then f.1 else [])
      absurd e = cc

  fresh_rows :
      (q : String) (d : Dict String) (r : List Row × Dict String)
      → collect fingerprint digest split recipe none d ≡ ok r
      → has_key q d ≡ false
      → rows_of q r.0 ≡ []
  unfolding collect file_records
  fresh_rows q [] r h fresh = rw (← ok-injective h) refl
  fresh_rows q ((path, oid) ∷ d) r h fresh =
      let (f, first, h') = bind-ok (parsed_file fingerprint digest split recipe path oid) _ r h in
      let (r', rest, last) = bind-ok (collect fingerprint digest split recipe none d) _ r h' in
      let other : str_eq path q ≡ false = ground arith in
      rw
        (
          ← ok-injective last,
          rows_of-append q f.1 r'.0,
          parsed_rows q path oid f first,
          other,
          fresh_rows q d r' rest (ground arith),
        )
        refl

  stored_file :
      (path oid : String) (d : Dict String) (r : List Row × Dict String)
      → NodupKeys d
      → collect fingerprint digest split recipe none d ≡ ok r
      → lookup path d ≡ some oid
      → (h : String) × (lookup path r.1 ≡ some h)
        × (parsed_file fingerprint digest split recipe path oid ≡ ok (h, rows_of path r.0))
  unfolding collect file_records
  stored_file path oid [] r u h there = cc
  stored_file path oid ((p, o) ∷ d) r (fresh, u) h there =
      let (f, first, h') = bind-ok (parsed_file fingerprint digest split recipe p o) _ r h in
      let (r', rest, last) = bind-ok (collect fingerprint digest split recipe none d) _ r h' in
      elim (Bool-cases (str_eq p path)) [
        | inl same ↦
            let e : p ≡ path = (eq_iff p path).0 same in
            let old : o ≡ oid = some-injective (rw same at there) in
            (
              f.0,
              (rw (← ok-injective last, same) refl),
              (rw
                  (
                    ← old,
                    ← e,
                    ← ok-injective last,
                    rows_of-append p f.1 r'.0,
                    parsed_rows p p o f first,
                    fresh_rows p d r' rest fresh,
                    same_text p,
                    append_nil f.1,
                  )
                  first),
            )
        | inr other ↦
            let (x, there', parsed) = stored_file path oid d r' u rest (rw other at there) in
            (
              x,
              (rw (← ok-injective last, other) there'),
              (rw
                  (
                    ← ok-injective last,
                    rows_of-append path f.1 r'.0,
                    parsed_rows path p o f first,
                    other,
                  )
                  parsed),
            )
      ]
    where
      same_text : (p : String) → str_eq p p ≡ true
      same_text p = ground (arith, eq_iff p p)

  -- A file of a full build: the cache has for it what parsing it gives.
  cached_file_full :
      (path oid : String) (blobs : Dict String) (r : List Row × Dict String)
      → NodupKeys blobs
      → collect fingerprint digest split recipe none blobs ≡ ok r
      → lookup path blobs ≡ some oid
      → cached_file fingerprint digest split
          (some (record { blobs = blobs; files = r.1; rows = r.0 }))
          path
        ≡ parsed_file fingerprint digest split recipe path oid
  unfolding cached_file
  cached_file_full path oid blobs r u h there =
      let (x, found, parsed) = stored_file path oid blobs r u h there in
      rw (cached_file, found, parsed) refl

  file_cached :
      (path oid : String) (blobs : Dict String) (r : List Row × Dict String)
      → NodupKeys blobs
      → collect fingerprint digest split recipe none blobs ≡ ok r
      → file_records fingerprint digest split recipe
          (some (record { blobs = blobs; files = r.1; rows = r.0 }))
          path
          oid
        ≡ file_records fingerprint digest split recipe none path oid
  unfolding file_records
  file_cached path oid blobs r u h = elim (Bool-cases (option_eq (lookup path blobs) (some oid))) [
    | inl same ↦
        rw same
          (cached_file_full path oid blobs r u h (option_eq-some (lookup path blobs) oid same))
    | inr other ↦ rw other refl
  ]

  -- Whatever is selected next, the rows and digests that `make_records` gathers with the cache of a
  -- full build of `blobs` are those of a build without a cache, errors included.
  pub collect-cached :
      (blobs selected : Dict String) (r : List Row × Dict String)
      → NodupKeys blobs
      → collect fingerprint digest split recipe none blobs ≡ ok r
      → collect fingerprint digest split recipe
          (some (record { blobs = blobs; files = r.1; rows = r.0 }))
          selected
        ≡ collect fingerprint digest split recipe none selected
  unfolding collect
  collect-cached blobs [] r u h = refl
  collect-cached blobs ((path, oid) ∷ d) r u h =
      rw (file_cached path oid blobs r u h, collect-cached blobs d r u h) refl
