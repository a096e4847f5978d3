-- ===== src/ArtifactStore/Pointer.antt =====
-- `ArtifactEntry`, `ArtifactPointer`, `load_pointer` and `_pointer_from`.
pub mod Safety
use qscat.Prelude.{
  ℕ, String, Bool, true, false, not, ◌&&◌, Option, none, some, List, [], ◌∷◌, is_nil, if◌then◌else◌,
}
use qscat.Prelude.Dict.{Dict, lookup, has_key, insert, keys}
use qscat.Python.{ℤ, pos, negsuc, Value, null, bool, int, float, text, seq, mapping, entries}
use qscat.ArtifactStore.Names.{
  StoreError, not_a_string, bad_sha256, bad_bytes, bad_git_sha, not_an_object, missing_fields,
  artifacts_not_an_object, bad_entry, missing_pointer, unreadable_pointer, Outcome, ok, err, ◌>>=◌,
  ◌>>◌, refuse_if, Text, codes, is_hex_of, check_name,
}
use qscat.ArtifactStore.Urls.{SplitResult, check_url_prefix}

pub record ArtifactEntry : Type 0 where
  pub sha256 : Text
  pub bytes : ℕ

pub record ArtifactPointer : Type 0 where
  pub git_sha : Text
  pub url_prefix : Text
  pub artifacts : Dict ArtifactEntry

module _ {F : Type 0} where
  -- `isinstance(raw, str)` and the pattern.
  unfoldable pub hex_field : ℕ → StoreError → Value F → Outcome Text
  hex_field n e (text s) = if is_hex_of n (codes s) then ok (codes s) else err e
  hex_field n e _ = err e

  -- `bool` is refused although it is a subclass of `int`.
  unfoldable pub bytes_field : Value F → Outcome ℕ
  bytes_field (int (pos n)) = ok n
  bytes_field (int (negsuc n)) = err bad_bytes
  bytes_field _ = err bad_bytes

  -- `ArtifactEntry(sha256=..., bytes=...)`
  unfoldable pub make_entry : Value F → Value F → Outcome ArtifactEntry
  unfolding hex_field bytes_field
  make_entry sha size = do
    s ← hex_field 64 bad_sha256 sha
    b ← bytes_field size
    ok (record { sha256 = s; bytes = b })

  abbrev pub entry_fields : Option (Value F) → Option (Value F) → Outcome ArtifactEntry
  entry_fields (some sha) (some size) = make_entry sha size
  entry_fields _ _ = err bad_entry

  unfoldable pub entry_from : Value F → Outcome ArtifactEntry
  entry_from (mapping fs) =
      entry_fields (lookup "sha256" (entries fs)) (lookup "bytes" (entries fs))
  entry_from _ = err bad_entry

  -- The loop over `artifacts.items()`.
  unfoldable pub entries_from : Dict ArtifactEntry → Dict (Value F) → Outcome (Dict ArtifactEntry)
  entries_from done [] = ok done
  entries_from done ((name, raw) ∷ rest) = do
    e ← entry_from raw
    entries_from (insert name e done) rest

unfoldable pub check_names : List String → Outcome (Unit {0})
check_names [] = ok tt
check_names (name ∷ names) = check_name (codes name) >> check_names names

abbrev pub text_field : {F : Type 0} → Value F → Outcome Text
text_field (text s) = ok (codes s)
text_field _ = err not_a_string

abbrev pub artifacts_from : {F : Type 0} → Value F → Outcome (Dict ArtifactEntry)
artifacts_from (mapping fs) = entries_from [] (entries fs)
artifacts_from _ = err artifacts_not_an_object

module _ (urlsplit : Text → SplitResult) (lower : Text → Text) where
  -- `ArtifactPointer(git_sha=..., url_prefix=..., artifacts=...)`
  unfoldable pub make_pointer :
      {F : Type 0} → Value F → Value F → Dict ArtifactEntry → Outcome ArtifactPointer
  unfolding check_names
  make_pointer sha prefix artifacts = do
    git_sha ← hex_field 40 bad_git_sha sha
    url_prefix ← text_field prefix
    check_url_prefix urlsplit lower url_prefix
    check_names (keys artifacts)
    ok (record { git_sha = git_sha; url_prefix = url_prefix; artifacts = artifacts })

  abbrev pub pointer_fields :
      {F : Type 0}
      → Option (Value F)
      → Option (Value F)
      → Option (Value F)
      → Outcome ArtifactPointer
  pointer_fields (some sha) (some prefix) (some raw) = do
    artifacts ← artifacts_from raw
    make_pointer sha prefix artifacts
  pointer_fields _ _ _ = err missing_fields

  unfoldable pub pointer_from : {F : Type 0} → Value F → Outcome ArtifactPointer
  pointer_from (mapping fs) =
      pointer_fields (lookup "git_sha" (entries fs)) (lookup "url_prefix" (entries fs))
        (lookup "artifacts" (entries fs))
  pointer_from _ = err not_an_object

  -- `load_pointer`: `stored` is `none` without a file, and `some none` where the file is no JSON.
  unfoldable pub load_pointer : {F : Type 0} → Option (Option (Value F)) → Outcome ArtifactPointer
  load_pointer none = err missing_pointer
  load_pointer (some none) = err unreadable_pointer
  load_pointer (some (some raw)) = pointer_from raw
