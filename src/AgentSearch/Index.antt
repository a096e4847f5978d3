-- ===== src/AgentSearch/Index.antt =====
-- `make_records`, `open_published`, `reconcile` and `ensure_main` of tools/agent_search/__main__.py, for
-- one logical table. What is outside: the splitting of a blob into chunks, the embedding model, git and
-- the clock. A write of a JSON file, which is a rename, takes place whole. The counts of new and reused
-- rows in a result, the texts shown with a row and its kind of source are left out.
pub mod Incremental
pub mod Reconcile
pub mod Ensure
use qscat.Prelude.{
  ℕ, zero, suc, ◌+◌, String, Bool, true, false, not, ◌&&◌, ◌||◌, Option, none, some, List, [], ◌∷◌,
  ◌++◌, map, is_nil, length, any, ◌==◌, leb, ltb, ◌-◌, str_eq, if◌then◌else◌,
}
use qscat.Prelude.Text.{contains}
use qscat.Prelude.Dict.{Dict, lookup, has_key, insert}
use qscat.ArtifactStore.Names.{Text}
use qscat.AgentSearch.Chunks.{Chunk}
use qscat.AgentSearch.Source.{Owner, owner_eq, option_eq}

-- The errors, by what raised them.
pub data IndexError : Type 0 where
  wrong_owner wrong_refresh_owner : IndexError
  generation_absent generation_modified wrong_row_count : IndexError
  cannot_index missing_file missing_vector : String → IndexError
  no_records ids_not_unique embedding_changed name_collides incomplete_batch : IndexError
  model_unusable cannot_fetch : IndexError

pub data Result {ℓ} (A : Type ℓ) : Type ℓ where
  ok : A → Result A
  err : IndexError → Result A

infixl 5 ◌>>=◌
infixl 5 ◌>>◌
abbrev pub ◌>>=◌ {ℓ μ} : {A : Type ℓ} {B : Type μ} → Result A → (A → Result B) → Result B
ok result >>= continue = continue result
err error >>= continue = err error

abbrev pub ◌>>◌ {ℓ} : {B : Type ℓ} → Result (Unit {0}) → Result B → Result B
check >> afterwards = check >>= λ _. afterwards

abbrev pub raise_if : Bool → IndexError → Result (Unit {0})
raise_if true e = err e
raise_if false e = ok tt

-- What `fingerprint` is taken of.
pub data Json : Type 0 where
  string : String → Json
  text : Text → Json
  number : ℕ → Json

-- A row of the table, without its vector; the fields that its chunk gives are the chunk's.
pub record Row : Type 0 where
  pub id : String
  pub path : String
  pub language : Text
  pub repo_id : String
  pub source_blob : String
  pub source_sha256 : String
  pub embedding_key : String
  pub chunk : Chunk

-- All that the rows of a blob depend on besides the blob and its path.
pub record Recipe : Type 0 where
  pub repo_id : String
  pub profile_sha256 : String
  pub chunker : String
  pub embedding : String

pub record Manifest : Type 0 where
  pub owner : Owner
  pub published_table : String
  pub table_version : ℕ
  pub source_commit : String
  pub files : Dict String
  pub blobs : Dict String
  pub profile_sha256 : String
  pub chunker : String
  pub embedding : String
  pub chunks : ℕ

pub record Generation (V : Type 0) : Type 0 where
  pub version : ℕ
  pub rows : List (Row × V)

-- `Snapshot` as fetched: its commit, its selected blobs, the fingerprint of its profile.
pub record Snapshot : Type 0 where
  pub owner : Owner
  pub commit : String
  pub selected : Dict String
  pub profile_sha256 : String

-- `CHUNKER` of the corpus
abbrev pub chunker_of : Owner → String
chunker_of o = elim o.corpus [
  | none ↦ "python-ast-rust-treesitter-markdown-v2"
  | some corpus ↦ "reference-note-blocks-v1"
]

abbrev pub recipe : Snapshot → String → Recipe
recipe s spec = record {
  repo_id = s.owner.repo_id;
  profile_sha256 = s.profile_sha256;
  chunker = chunker_of s.owner;
  embedding = spec;
}

-- `previous["blobs"] == selected`: as dicts, so in any order.
abbrev pub includes : Dict String → Dict String → Bool
includes d [] = true
includes d ((k, v) ∷ e) = option_eq (lookup k d) (some v) && includes d e

abbrev pub dict_eq : Dict String → Dict String → Bool
dict_eq d e = includes d e && includes e d && length d == length e

-- `check_owner`
unfoldable pub check_owner : Option Manifest → Owner → Result (Unit {0})
check_owner none o = ok tt
check_owner (some m) o = raise_if (not (owner_eq m.owner o)) wrong_owner

-- `open_published`
unfoldable pub open_published :
    {V : Type 0} → Dict (Generation V) → Manifest → Result (Generation V)
open_published db m = elim (lookup m.published_table db) [
  | none ↦ err generation_absent
  | some g ↦
      raise_if (not (g.version == m.table_version)) generation_modified
      >> raise_if (not (length g.rows == m.chunks)) wrong_row_count
      >> ok g
]

abbrev pub rows_of : String → List Row → List Row
rows_of path [] = []
rows_of path (r ∷ rs) = if str_eq r.path path then r ∷ rows_of path rs else rows_of path rs

abbrev pub unique_ids : List Row → Bool
unique_ids [] = true
unique_ids (r ∷ rs) = not (contains r.id (map (λ (q : Row). q.id) rs)) && unique_ids rs

-- A file of the previous generation whose blob is the same is not parsed again.
pub record Cached : Type 0 where
  pub blobs : Dict String
  pub files : Dict String
  pub rows : List Row

abbrev pub is_unchanged : Option Cached → String → String → Bool
is_unchanged none path oid = false
is_unchanged (some c) path oid = option_eq (lookup path c.blobs) (some oid)

module _ (fingerprint : List Json → String) (digest : String → String)
    (split : Recipe → String → String → Option (Text × List Chunk)) where
  -- The row of one chunk.
  unfoldable pub make_row : Recipe → String → String → Text → Chunk → Row
  make_row recipe path oid language chunk = record {
    id = fingerprint (
        string recipe.repo_id
        ∷ string path
        ∷ text language
        ∷ text chunk.kind
        ∷ text chunk.anchor
        ∷ number chunk.declaration
        ∷ text chunk.content_sha256
        ∷ number chunk.duplicate
        ∷ []);
    path = path;
    language = language;
    repo_id = recipe.repo_id;
    source_blob = oid;
    source_sha256 = digest oid;
    embedding_key =
        fingerprint
          (string (fingerprint (string recipe.embedding ∷ [])) ∷ text chunk.payload_sha256 ∷ []);
    chunk = chunk;
  }

  -- The digest and the rows of a file that is parsed.
  unfoldable pub parsed_file : Recipe → String → String → Result (String × List Row)
  unfolding make_row
  parsed_file recipe path oid = elim (split recipe path oid) [
    | none ↦ err (cannot_index path)
    | some (language, chunks) ↦ ok (digest oid, map (make_row recipe path oid language) chunks)
  ]

  -- The digest and the rows of a file that the previous generation has.
  unfoldable pub cached_file : Option Cached → String → Result (String × List Row)
  cached_file none path = err (missing_file path)
  cached_file (some c) path = elim (lookup path c.files) [
    | none ↦ err (missing_file path)
    | some h ↦ ok (h, rows_of path c.rows)
  ]

  unfoldable pub file_records :
      Recipe → Option Cached → String → String → Result (String × List Row)
  unfolding cached_file parsed_file
  file_records recipe cached path oid =
      if is_unchanged cached path oid then cached_file cached path else parsed_file recipe path oid

  abbrev pub add_file : String → String × List Row → List Row × Dict String → List Row × Dict String
  add_file path f r = (f.1 ++ r.0, (path, f.0) ∷ r.1)

  -- The loop of `make_records` over the selected files.
  unfoldable pub collect : Recipe → Option Cached → Dict String → Result (List Row × Dict String)
  unfolding file_records
  collect recipe cached [] = ok ([], [])
  collect recipe cached ((path, oid) ∷ files) = file_records recipe cached path oid >>= λ f.
      collect recipe cached files >>= λ r. ok (add_file path f r)

  -- `make_records`
  unfoldable pub make_records :
      Recipe → Option Cached → Dict String → Result (List Row × Dict String)
  unfolding collect
  make_records recipe cached selected = collect recipe cached selected >>= λ r.
      raise_if (is_nil r.0) no_records >> raise_if (not (unique_ids r.0)) ids_not_unique >> ok r
