-- ===== src/AgentSearch/Objects.antt =====
-- `read_blobs` of tools/agent_search/git_source.py, on the bytes that `git cat-file --batch` gives.
-- The model drops what is read instead of counting an offset; `none` is a ValueError.
pub mod Printed
use qscat.Prelude.{
  ℕ, zero, suc, ◌+◌, Bool, true, false, not, ◌&&◌, ◌||◌, Option, none, some, List, [], ◌∷◌, ◌++◌,
  ◌==◌, if◌then◌else◌,
}
use qscat.ArtifactStore.Names.{Text, codes, text_eq}
use qscat.AgentSearch.Chunks.{take, drop}

-- The bytes that `bytes.split()` takes for white space.
unfoldable pub is_space : ℕ → Bool
is_space c = c == b' ' || c == b'\n' || c == b'\t' || c == 13 || c == 11 || c == 12

abbrev pub keep : Text → List Text → List Text
keep [] ws = ws
keep (c ∷ w) ws = (c ∷ w) ∷ ws

-- The word that a line starts with, if any, and the words behind it.
unfoldable pub first_word : Text → Text × List Text
first_word [] = ([], [])
first_word (c ∷ s) =
    let rest = first_word s in if is_space c then ([], keep rest.0 rest.1) else (c ∷ rest.0, rest.1)

-- `data[offset:end].split()`
unfoldable pub words : Text → List Text
unfolding first_word
words s = keep (first_word s).0 (first_word s).1

abbrev pub prefixed : Text → Option (Text × Text) → Option (Text × Text)
prefixed w none = none
prefixed w (some (line, rest)) = some (w ++ line, rest)

-- The bytes before the first newline and those behind it.
unfoldable pub next_line : Text → Option (Text × Text)
next_line [] = none
next_line (c ∷ s) =
    let later = prefixed (c ∷ []) (next_line s) in if c == b'\n' then some ([], s) else later

-- `oid, kind, length = ...`: three words, or an error.
abbrev pub header_of : List Text → Option (Text × Text × Text)
header_of (oid ∷ kind ∷ size ∷ []) = some (oid, kind, size)
header_of _ = none

abbrev pub content_of : Text → Option ℕ → Option (Text × Text)
content_of rest none = none
content_of rest (some n) = some (take n rest, drop (n + 1) rest)

module _ (int : Text → Option ℕ) where
  abbrev pub checked : Text → Text → Option (Text × Text × Text) → Option (Text × Text)
  checked expected rest none = none
  checked expected rest (some (oid, kind, length)) =
      if text_eq oid expected && text_eq kind (codes "blob")
      then content_of rest (int length)
      else none

  abbrev pub of_line : Text → Option (Text × Text) → Option (Text × Text)
  of_line expected none = none
  of_line expected (some (line, rest)) = checked expected rest (header_of (words line))

  -- One round of the loop: an object's content, and the bytes behind it.
  unfoldable pub read_blob : Text → Text → Option (Text × Text)
  unfolding words next_line
  read_blob expected bytes = of_line expected (next_line bytes)

  abbrev pub with_blob : Text → Text → Option (List (Text × Text)) → Option (List (Text × Text))
  with_blob oid content none = none
  with_blob oid content (some blobs) = some ((oid, content) ∷ blobs)

  -- The loop over the expected objects, which are different.
  unfoldable pub read_blobs : List Text → Text → Option (List (Text × Text))
  unfolding read_blob
  read_blobs [] bytes = some []
  read_blobs (oid ∷ oids) bytes = elim (read_blob oid bytes) [
    | none ↦ none
    | some (content, rest) ↦ with_blob oid content (read_blobs oids rest)
  ]
