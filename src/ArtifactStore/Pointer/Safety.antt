-- ===== src/ArtifactStore/Pointer/Safety.antt =====
-- What every pointer that is loaded satisfies.
use qscat.Prelude.{ℕ, String, ◌≡◌, true, Option, none, some, [], ◌∷◌, All, arith}
use qscat.Prelude.Dict.{Dict, lookup, insert, keys}
use qscat.Python.{Value, mapping, entries, text}
use qscat.ArtifactStore.Names.{
  ok, bind_inv, ok-injective, StoreError, bad_sha256, bad_git_sha, Text, codes, is_hex_of,
  check_name,
}
use qscat.ArtifactStore.Urls.{
  SplitResult, IsStoreUrl, check_url_prefix, check_store_url, check_store_url-IsStoreUrl,
}
use qscat.ArtifactStore.Pointer.{
  ArtifactEntry, ArtifactPointer, hex_field, bytes_field, make_entry, entry_fields, entry_from,
  entries_from, check_names, text_field, make_pointer, artifacts_from, pointer_fields, pointer_from,
  load_pointer,
}

abbrev pub IsNamed : Dict ArtifactEntry → Type 0
IsNamed = All (λ (e : String × ArtifactEntry). check_name (codes e.0) ≡ ok tt)

abbrev pub IsHashed : Dict ArtifactEntry → Type 0
IsHashed = All (λ (e : String × ArtifactEntry). is_hex_of 64 e.1.sha256 ≡ true)

pub record IsSafe (urlsplit : Text → SplitResult) (lower : Text → Text) (p : ArtifactPointer)
    : Type 0 where
  pub commit : is_hex_of 40 p.git_sha ≡ true
  pub prefix : check_url_prefix urlsplit lower p.url_prefix ≡ ok tt
  pub store : IsStoreUrl urlsplit lower p.url_prefix
  pub named : IsNamed p.artifacts
  pub hashed : IsHashed p.artifacts

hex_field-is_hex_of :
    {F : Type 0} (n : ℕ) (e : StoreError) (v : Value F) (t : Text)
    → hex_field n e v ≡ ok t
    → is_hex_of n t ≡ true
unfolding hex_field
hex_field-is_hex_of n e (text s) t h = ground arith
hex_field-is_hex_of n e _ t h = ground arith

make_entry-sha256 :
    {F : Type 0} (sha size : Value F) (e : ArtifactEntry)
    → make_entry sha size ≡ ok e
    → is_hex_of 64 e.sha256 ≡ true
unfolding make_entry
make_entry-sha256 sha size e h = bind_inv (hex_field 64 bad_sha256 sha) _ h λ s p h.
    bind_inv (bytes_field size) _ h
      λ b _ h. rw (← ok-injective h) (hex_field-is_hex_of 64 bad_sha256 sha s p)

entry_fields-sha256 :
    {F : Type 0} (sha size : Option (Value F)) (e : ArtifactEntry)
    → entry_fields sha size ≡ ok e
    → is_hex_of 64 e.sha256 ≡ true
entry_fields-sha256 (some sha) (some size) e h = make_entry-sha256 sha size e h
entry_fields-sha256 none size e h = cc
entry_fields-sha256 (some sha) none e h = cc

entry_from-sha256 :
    {F : Type 0} (v : Value F) (e : ArtifactEntry)
    → entry_from v ≡ ok e
    → is_hex_of 64 e.sha256 ≡ true
unfolding entry_from
entry_from-sha256 (mapping fs) e h =
    entry_fields-sha256 (lookup "sha256" (entries fs)) (lookup "bytes" (entries fs)) e h
entry_from-sha256 _ e h = cc

IsHashed-insert :
    (k : String) (e : ArtifactEntry) (d : Dict ArtifactEntry)
    → is_hex_of 64 e.sha256 ≡ true
    → IsHashed d
    → IsHashed (insert k e d)
IsHashed-insert k e [] h hs = (h, tt)
IsHashed-insert k e ((j, f) ∷ d) h (g, hs) = ground (arith, IsHashed-insert k e d h hs)

entries_from-IsHashed :
    {F : Type 0} (done : Dict ArtifactEntry) (fs : Dict (Value F)) (d : Dict ArtifactEntry)
    → entries_from done fs ≡ ok d
    → IsHashed done
    → IsHashed d
unfolding entries_from
entries_from-IsHashed done [] d h hs = rw (← ok-injective h) hs
entries_from-IsHashed done ((name, raw) ∷ fs) d h hs = bind_inv (entry_from raw) _ h λ e p h.
    entries_from-IsHashed (insert name e done) fs d h
      (IsHashed-insert name e done (entry_from-sha256 raw e p) hs)

check_names-IsNamed : (d : Dict ArtifactEntry) → check_names (keys d) ≡ ok tt → IsNamed d
unfolding check_names
check_names-IsNamed [] h = tt
check_names-IsNamed ((name, e) ∷ d) h =
    bind_inv (check_name (codes name)) _ h λ u p h. (p, check_names-IsNamed d h)

module _ (urlsplit : Text → SplitResult) (lower : Text → Text) where
  url_prefix-IsStoreUrl :
      (t : Text) → check_url_prefix urlsplit lower t ≡ ok tt → IsStoreUrl urlsplit lower t
  unfolding check_url_prefix
  url_prefix-IsStoreUrl t h =
      bind_inv (check_store_url urlsplit lower t) _ h
        λ parts e _. check_store_url-IsStoreUrl urlsplit lower t parts e

  make_pointer-IsSafe :
      {F : Type 0} (sha prefix : Value F) (d : Dict ArtifactEntry) (p : ArtifactPointer)
      → make_pointer urlsplit lower sha prefix d ≡ ok p
      → IsHashed d
      → IsSafe urlsplit lower p
  unfolding make_pointer
  make_pointer-IsSafe sha prefix d p h hashed =
      bind_inv (hex_field 40 bad_git_sha sha) _ h λ s e1 h.
        bind_inv (text_field prefix) _ h λ t e2 h.
          bind_inv (check_url_prefix urlsplit lower t) _ h λ u e3 h.
            bind_inv (check_names (keys d)) _ h λ v e4 h. rw (← ok-injective h) (record {
              commit = hex_field-is_hex_of 40 bad_git_sha sha s e1;
              prefix = e3;
              store = url_prefix-IsStoreUrl t e3;
              named = check_names-IsNamed d e4;
              hashed = hashed;
            })

  artifacts_from-IsHashed :
      {F : Type 0} (v : Value F) (d : Dict ArtifactEntry) → artifacts_from v ≡ ok d → IsHashed d
  artifacts_from-IsHashed (mapping fs) d h = entries_from-IsHashed [] (entries fs) d h tt
  artifacts_from-IsHashed _ d h = cc

  pointer_fields-IsSafe :
      {F : Type 0} (sha prefix raw : Option (Value F)) (p : ArtifactPointer)
      → pointer_fields urlsplit lower sha prefix raw ≡ ok p
      → IsSafe urlsplit lower p
  pointer_fields-IsSafe (some sha) (some prefix) (some raw) p h =
      bind_inv (artifacts_from raw) _ h
        λ d e h. make_pointer-IsSafe sha prefix d p h (artifacts_from-IsHashed raw d e)
  pointer_fields-IsSafe none prefix raw p h = cc
  pointer_fields-IsSafe (some sha) none raw p h = cc
  pointer_fields-IsSafe (some sha) (some prefix) none p h = cc

  pointer_from-IsSafe :
      {F : Type 0} (v : Value F) (p : ArtifactPointer)
      → pointer_from urlsplit lower v ≡ ok p
      → IsSafe urlsplit lower p
  unfolding pointer_from
  pointer_from-IsSafe (mapping fs) p h =
      pointer_fields-IsSafe (lookup "git_sha" (entries fs)) (lookup "url_prefix" (entries fs))
        (lookup "artifacts" (entries fs)) p h
  pointer_from-IsSafe _ p h = cc

  -- A pointer that `load_pointer` returns names a commit by 40 hex digits, has a prefix that passes
  -- `check_url_prefix` and is a URL of the store, and lists only names that pass `check_name`,
  -- each with a digest of 64 hex digits.
  pub load_pointer-IsSafe :
      {F : Type 0} (stored : Option (Option (Value F))) (p : ArtifactPointer)
      → load_pointer urlsplit lower stored ≡ ok p
      → IsSafe urlsplit lower p
  unfolding load_pointer
  load_pointer-IsSafe none p h = cc
  load_pointer-IsSafe (some none) p h = cc
  load_pointer-IsSafe (some (some raw)) p h = pointer_from-IsSafe raw p h
