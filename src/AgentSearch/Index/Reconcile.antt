-- ===== src/AgentSearch/Index/Reconcile.antt =====
-- `reconcile` of tools/agent_search/__main__.py: the build of a generation and its publication.
-- `name` is the generation's fresh name and `version` the version that the database gives it.
pub mod Published
pub mod Built
pub mod Outcomes
pub mod Invariant
pub mod Kept
use qscat.Prelude.{
  ℕ, zero, suc, ◌+◌, ◌/◌, String, Bool, true, false, not, ◌&&◌, ◌||◌, Option, none, some, List, [],
  ◌∷◌, ◌++◌, map, length, ◌==◌, str_eq, if◌then◌else◌,
}
use qscat.Prelude.Dict.{Dict, lookup, has_key, insert}
use qscat.ArtifactStore.Names.{Text}
use qscat.AgentSearch.Chunks.{Chunk, take, drop}
use qscat.AgentSearch.Source.{Owner, option_eq, owner_eq}
use qscat.AgentSearch.Index.{
  IndexError, wrong_owner, generation_absent, generation_modified, wrong_row_count, missing_vector,
  embedding_changed, name_collides, incomplete_batch, model_unusable, Result, ok, err, ◌>>=◌, ◌>>◌,
  raise_if, Json, Row, Recipe, Manifest, Generation, Snapshot, chunker_of, recipe, dict_eq,
  check_owner, open_published, Cached, make_records,
}

-- `{table}.refresh.json`
pub data RefreshState : Type 0 where
  checking indexing complete failed : RefreshState

pub record Refresh : Type 0 where
  pub owner : Owner
  pub state : RefreshState
  pub attempted_at : ℕ
  pub fetch_ok : Bool
  pub checked_at : Option ℕ
  pub target_commit : Option String
  pub completed_at : Option ℕ
  pub error : Option IndexError

-- The files and generations of one logical table.
pub record Store (V : Type 0) : Type 0 where
  pub manifest : Option Manifest
  pub refresh : Option Refresh
  pub generations : Dict (Generation V)

-- What a run reports.
pub data Mode : Type 0 where
  reused planned synced : Mode

pub record Report : Type 0 where
  pub mode : Mode
  pub source_commit : Option String
  pub files : ℕ
  pub chunks : ℕ

-- `can_reuse`, of a healthy generation
abbrev pub same_policy : Manifest → Snapshot → Bool
same_policy m snap =
    str_eq m.profile_sha256 snap.profile_sha256 && str_eq m.chunker (chunker_of snap.owner)

-- `"plan" if plan else "sync"`
abbrev pub mode_of : Bool → Mode
mode_of plan = if plan then planned else synced

abbrev pub report : Mode → Snapshot → ℕ → Report
report mode snap chunks = record {
  mode = mode;
  source_commit = some snap.commit;
  files = length snap.selected;
  chunks = chunks;
}

abbrev pub other_embedding : Option Manifest → String → Bool
other_embedding none spec = false
other_embedding (some m) spec = not (str_eq m.embedding spec)

abbrev pub texts_of : Dict Text → List Text
texts_of [] = []
texts_of ((k, t) ∷ is) = t ∷ texts_of is

abbrev pub batch_size : ℕ
batch_size = 64

abbrev pub manifest_of : String → ℕ → Snapshot → String → List Row × Dict String → Manifest
manifest_of name version snap spec r = record {
  owner = snap.owner;
  published_table = name;
  table_version = version;
  source_commit = snap.commit;
  files = r.1;
  blobs = snap.selected;
  profile_sha256 = snap.profile_sha256;
  chunker = chunker_of snap.owner;
  embedding = spec;
  chunks = length r.0;
}

module _ {V : Type 0} where
  abbrev pub healthy : Result (Generation V) → Option (Generation V)
  healthy (ok g) = some g
  healthy (err e) = none

  abbrev pub stored_by : Dict (Generation V) → Option Manifest → Option (Generation V)
  stored_by db none = none
  stored_by db (some m) = healthy (open_published db m)

  -- `stored`, if the previous generation is healthy
  unfoldable pub stored_of : Store V → Option (Generation V)
  stored_of s = stored_by s.generations s.manifest

  -- Nothing is to be built: at most the commit moves on.
  unfoldable pub touch : Bool → Snapshot → Manifest → Store V → Store V
  touch plan snap m s =
      if not plan && not (str_eq m.source_commit snap.commit)
      then record s { manifest = some (record m { source_commit = snap.commit }) }
      else s

  abbrev pub rows_without_vectors : List (Row × V) → List Row
  rows_without_vectors [] = []
  rows_without_vectors ((r, v) ∷ rs) = r ∷ rows_without_vectors rs

  unfoldable pub cached_of : Snapshot → Option Manifest → Option (Generation V) → Option Cached
  cached_of snap none stored = none
  cached_of snap (some m) none = none
  cached_of snap (some m) (some g) =
      if same_policy m snap
      then some (record { blobs = m.blobs; files = m.files; rows = rows_without_vectors g.rows })
      else none

  -- `cache`, by the keys of the old rows: a later row wins
  abbrev pub vectors_of : Dict V → List (Row × V) → Dict V
  vectors_of cache [] = cache
  vectors_of cache ((r, v) ∷ rs) = vectors_of (insert r.embedding_key v cache) rs

  abbrev pub old_rows : Option (Generation V) → List (Row × V)
  old_rows none = []
  old_rows (some g) = g.rows

  -- `cache.update(legacy_vectors(...))`
  abbrev pub update : Dict V → Dict V → Dict V
  update cache [] = cache
  update cache ((k, v) ∷ d) = update (insert k v cache) d

  -- `needed`: the text to embed of each key that has no vector
  unfoldable pub needed : Dict V → Dict Text → List Row → Dict Text
  needed cache found [] = found
  needed cache found (r ∷ rs) =
      needed cache
        (if has_key r.embedding_key cache then found else insert r.embedding_key r.chunk.text found)
        rs

  -- The vectors of one batch; a missing or surplus one refuses the batch.
  unfoldable pub store_batch : Dict Text → List (Option V) → Dict V → Result (Dict V)
  store_batch [] [] cache = ok cache
  store_batch [] (v ∷ vs) cache = err incomplete_batch
  store_batch (i ∷ is) [] cache = err incomplete_batch
  store_batch (i ∷ is) (none ∷ vs) cache = err incomplete_batch
  store_batch ((k, t) ∷ is) (some v ∷ vs) cache = store_batch is vs (insert k v cache)

  -- `row["vector"] = cache[row["embedding_key"]]`
  unfoldable pub attach : Dict V → List Row → Result (List (Row × V))
  attach cache [] = ok []
  attach cache (r ∷ rs) = elim (lookup r.embedding_key cache) [
    | none ↦ err (missing_vector r.embedding_key)
    | some v ↦ attach cache rs >>= λ (qs : List (Row × V)). ok ((r, v) ∷ qs)
  ]

  unfoldable pub cache_of : Dict V → Snapshot → Store V → Dict V
  cache_of legacy snap s =
      let old = vectors_of [] (old_rows (stored_of s)) in
      elim s.manifest [
        | none ↦ elim snap.owner.corpus [ none ↦ update old legacy | some corpus ↦ old ]
        | some m ↦ old
      ]

  abbrev pub matching : Snapshot → Option Manifest → Option (Generation V) → Option Manifest
  matching snap none stored = none
  matching snap (some m) none = none
  matching snap (some m) (some g) =
      if same_policy m snap && dict_eq m.blobs snap.selected then some m else none

  -- The manifest of a healthy generation of the same policy and the same blobs.
  unfoldable pub matching_manifest : Snapshot → Store V → Option Manifest
  matching_manifest snap s = matching snap s.manifest (stored_of s)

  abbrev pub point_to :
      Manifest → Report → Store V → Result (Generation V) → Store V × Result Report
  point_to m r built (err e) = (built, err e)
  point_to m r built (ok g) = (record built { manifest = some m }, ok r)

  -- The new generation stands in the database before the manifest names it. Making its table and its
  -- text index is taken to succeed.
  unfoldable pub publish :
      String
      → ℕ
      → Snapshot
      → String
      → List Row × Dict String
      → List (Row × V)
      → Store V
      → Store V × Result Report
  publish name version snap spec r rows s =
      let m = manifest_of name version snap spec r in
      let built : Store V = record s {
        generations = insert name (record { version = version; rows = rows }) s.generations;
      } in
      point_to m (report synced snap (length r.0)) built (open_published built.generations m)

  abbrev pub publish_rows :
      String
      → ℕ
      → Snapshot
      → String
      → List Row × Dict String
      → Store V
      → Result (List (Row × V))
      → Store V × Result Report
  publish_rows name version snap spec r s (err e) = (s, err e)
  publish_rows name version snap spec r s (ok rows) = publish name version snap spec r rows s

module _ {V : Type 0} (fingerprint : List Json → String) (digest : String → String)
    (split : Recipe → String → String → Option (Text × List Chunk))
    (embedding : String → Option String) (encode : String → List Text → Result (List (Option V)))
    (legacy : Dict V) (table : String) where
  -- The rounds of `range(0, len(items), 64)`.
  unfoldable pub embed_rounds : String → ℕ → Dict Text → Dict V → Result (Dict V)
  embed_rounds profile zero items cache = ok cache
  embed_rounds profile (suc rounds) items cache =
      encode profile (texts_of (take batch_size items)) >>= λ (vectors : List (Option V)).
      store_batch (take batch_size items) vectors cache >>= λ (more : Dict V).
      embed_rounds profile rounds (drop batch_size items) more

  abbrev pub embed_all : String → Dict Text → Dict V → Result (Dict V)
  embed_all profile items cache =
      embed_rounds profile ((length items + 63) / batch_size) items cache

  -- The model's specification and the records.
  unfoldable pub prepare_records : Snapshot → Store V → Result (String × (List Row × Dict String))
  prepare_records snap s = elim (embedding snap.profile_sha256) [
    | none ↦ err model_unusable
    | some spec ↦
        raise_if (other_embedding s.manifest spec) embedding_changed
        >> (make_records fingerprint digest split (recipe snap spec)
              (cached_of snap s.manifest (stored_of s)) snap.selected
            >>= λ r. ok (spec, r))
  ]

  unfoldable pub rows_with_vectors : Snapshot → Store V → List Row → Result (List (Row × V))
  rows_with_vectors snap s rows =
      embed_all snap.profile_sha256 (needed (cache_of legacy snap s) [] rows)
        (cache_of legacy snap s)
      >>= λ cache. attach cache rows

  -- What comes after the plan.
  unfoldable pub build :
      String → ℕ → Snapshot → String → List Row × Dict String → Store V → Store V × Result Report
  build name version snap spec r s =
      if has_key table s.generations
      then (s, err name_collides)
      else publish_rows name version snap spec r s (rows_with_vectors snap s r.0)

  abbrev pub rebuild :
      String
      → ℕ
      → Bool
      → Snapshot
      → Store V
      → Result (String × (List Row × Dict String))
      → Store V × Result Report
  rebuild name version plan snap s (err e) = (s, err e)
  rebuild name version plan snap s (ok (spec, r)) =
      if plan then (s, ok (report planned snap (length r.0))) else build name version snap spec r s

  abbrev pub update_or_rebuild :
      String → ℕ → Bool → Snapshot → Store V → Option Manifest → Store V × Result Report
  update_or_rebuild name version plan snap s (some m) =
      (touch plan snap m s, ok (report (mode_of plan) snap m.chunks))
  update_or_rebuild name version plan snap s none =
      rebuild name version plan snap s (prepare_records snap s)

  abbrev pub after_owner :
      String → ℕ → Bool → Snapshot → Store V → Result (Unit {0}) → Store V × Result Report
  after_owner name version plan snap s (err e) = (s, err e)
  after_owner name version plan snap s (ok u) =
      update_or_rebuild name version plan snap s (matching_manifest snap s)

  -- `reconcile`
  unfoldable pub reconcile : String → ℕ → Bool → Snapshot → Store V → Store V × Result Report
  reconcile name version plan snap s =
      after_owner name version plan snap s (check_owner s.manifest snap.owner)
