-- ===== src/Tests/Store.antt =====
-- The artifact store on a pointer with two artifacts.
use qscat.Prelude.{
  ℕ, String, ◌≡◌, refl, true, false, Bool-cases, inl, inr, str_eq, Option, none, some, List, [],
  ◌∷◌, All, if◌then◌else◌, ◌==◌, arith, sym, ◌∙◌, length,
}
use package.text.Mathlib.TextEquality.{eq_iff}
use qscat.Prelude.Dict.{lookup}
use qscat.Python.{pos, Value, text, int, a_dict}
use qscat.ArtifactStore.Names.{
  Outcome, ok, err, Text, codes, check_name, is_hex_of, is_component, split, check_components,
  bad_component,
}
use qscat.ArtifactStore.Names.Safe.{walk, walk-check_name}
use qscat.ArtifactStore.Urls.{SplitResult, check_store_url, check_url_prefix, url_for, stem, suffix}
use qscat.ArtifactStore.Pointer.{
  ArtifactEntry, ArtifactPointer, hex_field, bytes_field, make_entry, entry_from, entries_from,
  check_names, make_pointer, pointer_from, load_pointer,
}
use qscat.ArtifactStore.Pointer.Safety.{IsSafe, load_pointer-IsSafe}
use qscat.ArtifactStore.Fetch.{
  FilePath, Disk, path_eq, contained_target, prove_targets, prepare, deliver, download_all, fetch,
}
use qscat.ArtifactStore.Fetch.Prepare.{fails, fetch_refused}
use qscat.ArtifactStore.Fetch.Verified.{IsAccounted, fetch-IsAccounted}
use qscat.ArtifactStore.Fetch.Deliver.{is_write_failure}
use qscat.ArtifactStore.Fetch.Twice.{Separate, IsApart, IsFetched, fetch-IsFetched, fetch_twice}

abbrev git_sha : String
git_sha = "0123456789abcdef0123456789abcdef01234567"

abbrev sha256 : String
sha256 = "0123456789abcdef0123456789abcdef0123456789abcdef0123456789abcdef"

abbrev entry_value : Value ℕ
entry_value = a_dict (("sha256", text sha256) ∷ ("bytes", int (pos 8)) ∷ [])

abbrev pointer_value : Value ℕ
pointer_value = a_dict (
    ("git_sha", text git_sha)
    ∷ ("url_prefix", text "https://data.qscat.org/r/")
    ∷ ("artifacts", a_dict (("a.h5", entry_value) ∷ ("b/c", entry_value) ∷ []))
    ∷ [])

-- Every text is taken for a URL of the store.
abbrev store_url : Text → SplitResult
store_url url = record {
  scheme = codes "https";
  username = none;
  password = none;
  hostname = some (codes "data.qscat.org");
  port = none;
  path = codes "/r/";
  query = [];
  fragment = [];
}

abbrev same_case : Text → Text
same_case s = s

abbrev same_place : FilePath → FilePath
same_place p = p

-- The bytes are a number, and 7 has the digest of the entries.
abbrev digest_of : ℕ → Text
digest_of n = if n == 7 then codes sha256 else []

abbrev seven : Text → Outcome ℕ
seven url = ok 7

abbrev any_write : Disk ℕ → FilePath → ℕ → Option (Option ℕ)
any_write disk target content = none

abbrev run_dir : FilePath
run_dir = codes "runs" ∷ []

-- The pointer file has the content 1.
abbrev only_pointer : Disk ℕ
only_pointer path =
    if path_eq (codes "runs" ∷ codes "artifacts.json" ∷ []) path then some 1 else none

abbrev read_pointer : Option ℕ → Option (Option (Value ℕ))
read_pointer none = none
read_pointer (some n) = if n == 1 then some (some pointer_value) else some none

abbrev entry_loaded : ArtifactEntry
entry_loaded = record { sha256 = codes sha256; bytes = 8 }

abbrev pointer : ArtifactPointer
pointer = record {
  git_sha = codes git_sha;
  url_prefix = codes "https://data.qscat.org/r/";
  artifacts = ("a.h5", entry_loaded) ∷ ("b/c", entry_loaded) ∷ [];
}

pointer_loads : load_pointer store_url same_case (some (some pointer_value)) ≡ ok pointer
unfolding load_pointer pointer_from entries_from entry_from make_entry hex_field bytes_field
    make_pointer check_names check_name check_components is_component is_hex_of split
    check_url_prefix check_store_url
pointer_loads = refl

load_pointer-IsSafe_example : IsSafe store_url same_case pointer
load_pointer-IsSafe_example =
    load_pointer-IsSafe store_url same_case (some (some pointer_value)) pointer pointer_loads

-- `fetch("runs")` with its parameters.
abbrev fetched_from : Disk ℕ → Outcome (List FilePath) × Disk ℕ
fetched_from =
    fetch digest_of seven any_write same_place store_url same_case run_dir read_pointer none

abbrev both : List FilePath
both = (codes "runs" ∷ codes "a.h5" ∷ []) ∷ (codes "runs" ∷ codes "b" ∷ codes "c" ∷ []) ∷ []

both_fetched : (fetched_from only_pointer).0 ≡ ok both
unfolding fetch prepare prove_targets contained_target download_all deliver load_pointer
    pointer_from entries_from entry_from make_entry hex_field bytes_field make_pointer check_names
    check_name check_components is_component is_hex_of split check_url_prefix check_store_url
both_fetched = refl

same_digest :
    (n : String) (e : ArtifactEntry) → lookup n pointer.artifacts ≡ some e → e.sha256 ≡ codes sha256
same_digest n e h = ground arith

are-Separate : Separate same_place run_dir pointer.artifacts
are-Separate n m e f h g _ = same_digest n e h ∙ sym (same_digest m f g)

fetch-IsAccounted_example :
    IsAccounted digest_of seven any_write same_place run_dir pointer.artifacts only_pointer
      (is_write_failure (fetched_from only_pointer).0)
      (fetched_from only_pointer).1
      (codes "runs" ∷ codes "a.h5" ∷ [])
fetch-IsAccounted_example =
    fetch-IsAccounted digest_of seven any_write same_place store_url same_case run_dir read_pointer
      none only_pointer pointer pointer_loads (codes "runs" ∷ codes "a.h5" ∷ [])

fetch-IsFetched_example :
    All
      (IsFetched digest_of same_place run_dir pointer.artifacts (fetched_from only_pointer).1)
      ("a.h5" ∷ "b/c" ∷ [])
fetch-IsFetched_example =
    fetch-IsFetched digest_of seven any_write same_place store_url same_case run_dir read_pointer
      none only_pointer pointer both pointer_loads are-Separate both_fetched

are-IsApart : IsApart same_place run_dir pointer.artifacts
unfolding split
are-IsApart n e h = elim (Bool-cases (str_eq "a.h5" n)) [
  | inl first ↦ rw (← (eq_iff "a.h5" n).0 first) refl
  | inr not_first ↦ elim (Bool-cases (str_eq "b/c" n)) [
    | inl second ↦ rw (← (eq_iff "b/c" n).0 second) refl
    | inr neither ↦ absurd (not_listed_name n e not_first neither h)
  ]
]
  where
    not_listed_name :
        (n : String) (e : ArtifactEntry)
        → str_eq "a.h5" n ≡ false
        → str_eq "b/c" n ≡ false
        → lookup n pointer.artifacts ≡ some e
        → ⊥
    not_listed_name n e p q h = ground arith

fetch_twice_example :
    fetched_from (fetched_from only_pointer).1 ≡ (ok [], (fetched_from only_pointer).1)
fetch_twice_example =
    fetch_twice digest_of seven any_write same_place store_url same_case run_dir read_pointer none
      only_pointer pointer both pointer_loads are-Separate are-IsApart both_fetched seven any_write

fetch_refused_example :
    (fails
        (fetch digest_of seven any_write same_place store_url same_case run_dir read_pointer
          (some ("a.h5" ∷ "other" ∷ []))
          only_pointer).0
      ≡ true)
    × ((fetch digest_of seven any_write same_place store_url same_case run_dir read_pointer
          (some ("a.h5" ∷ "other" ∷ []))
          only_pointer).1
        ≡ only_pointer)
unfolding split
fetch_refused_example =
    fetch_refused same_place digest_of seven any_write store_url same_case run_dir read_pointer
      (some ("a.h5" ∷ "other" ∷ [])) only_pointer pointer pointer_loads refl

nested_name : check_name (codes "b/c") ≡ ok tt
unfolding check_name check_components is_component split
nested_name = refl

walk-check_name_example :
    walk 0 (split b'/' (codes "b/c")) ≡ some (length (split b'/' (codes "b/c")))
walk-check_name_example = walk-check_name (codes "b/c") nested_name

-- The digest stands between the stem and the suffix.
published : url_for (codes "p/") (codes "d/a.h5") (codes sha256) ≡ codes "p/d/a.0123456789ab.h5"
unfolding url_for stem suffix split
published = refl

-- A name that climbs is refused.
climbing : check_name (codes "../a") ≡ err bad_component
unfolding check_name check_components is_component split
climbing = refl
