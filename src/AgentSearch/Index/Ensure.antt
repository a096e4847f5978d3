-- ===== src/AgentSearch/Index/Ensure.antt =====
-- `describe` and `ensure_main` of tools/agent_search/__main__.py. The clock gives the times of the
-- attempt, of the fetch and of the end of a run; what `fetch` gives is an argument.
pub mod Ends
pub mod Planned
use qscat.Prelude.{
  ℕ, ◌+◌, String, Bool, true, false, not, ◌&&◌, ◌||◌, Option, none, some, List, leb, ltb, length,
  str_eq, if◌then◌else◌,
}
use qscat.Prelude.Dict.{Dict}
use qscat.ArtifactStore.Names.{Text}
use qscat.AgentSearch.Chunks.{Chunk}
use qscat.AgentSearch.Source.{Owner, option_eq, owner_eq}
use qscat.AgentSearch.Index.{
  IndexError, wrong_refresh_owner, Result, ok, err, ◌>>=◌, ◌>>◌, raise_if, Json, Recipe, Manifest,
  Generation, Snapshot, check_owner, open_published,
}
use qscat.AgentSearch.Index.Reconcile.{
  Store, Refresh, RefreshState, checking, indexing, failed, Report, reused, reconcile,
}

pub data Integrity : Type 0 where
  absent incomplete complete : Integrity

pub data Currency : Type 0 where
  unknown behind current : Currency

-- `state`: the integrity of a generation that is not complete, else whether it is the upstream's.
pub data State : Type 0 where
  broken : Integrity → State
  stale up_to_date : State

pub record Status : Type 0 where
  pub state : State
  pub integrity : Integrity
  pub currency : Currency
  pub refresh : Option Refresh
  pub source_commit : Option String
  pub files : ℕ
  pub chunks : ℕ

abbrev pub is_complete : Integrity → Bool
is_complete complete = true
is_complete _ = false

abbrev pub opens {ℓ} : {A : Type ℓ} → Result A → Integrity
opens (ok g) = complete
opens (err e) = incomplete

-- `recent`
abbrev pub is_recent : ℕ → ℕ → Option ℕ → Bool
is_recent now interval none = false
is_recent now interval (some checked) = leb now (checked + interval)

abbrev pub currency_of : ℕ → ℕ → Option Manifest → Option Refresh → Currency
currency_of now interval none r = unknown
currency_of now interval (some m) none = unknown
currency_of now interval (some m) (some r) =
    if r.fetch_ok && is_recent now interval r.checked_at
    then (if option_eq (some m.source_commit) r.target_commit then current else behind)
    else unknown

abbrev pub state_of : Integrity → Currency → State
state_of complete current = up_to_date
state_of complete unknown = stale
state_of complete behind = stale
state_of absent c = broken absent
state_of incomplete c = broken incomplete

abbrev pub refresh_owned : Option Refresh → Owner → Bool
refresh_owned none o = true
refresh_owned (some r) o = owner_eq r.owner o

module _ {V : Type 0} where
  abbrev pub integrity_of : Dict (Generation V) → Option Manifest → Integrity
  integrity_of db none = absent
  integrity_of db (some m) = opens (open_published db m)

  abbrev pub status_of : ℕ → ℕ → Store V → Status
  status_of now interval s =
      let integrity = integrity_of s.generations s.manifest in
      let currency = currency_of now interval s.manifest s.refresh in
      record {
        state = state_of integrity currency;
        integrity = integrity;
        currency = currency;
        refresh = s.refresh;
        source_commit = elim s.manifest [ none ↦ none | some m ↦ some m.source_commit ];
        files = elim s.manifest [ none ↦ 0 | some m ↦ length m.files ];
        chunks = elim s.manifest [ none ↦ 0 | some m ↦ m.chunks ];
      }

  -- `describe`
  unfoldable pub describe : Owner → ℕ → ℕ → Store V → Result Status
  describe o now interval s =
      check_owner s.manifest o
      >> raise_if (not (refresh_owned s.refresh o)) wrong_refresh_owner
      >> ok (status_of now interval s)

-- `state in {"complete", "failed"}`
abbrev pub is_over : RefreshState → Bool
is_over RefreshState.complete = true
is_over failed = true
is_over _ = false

-- The last attempt is recent and over.
abbrev pub attempted_lately : ℕ → ℕ → Option Refresh → Bool
attempted_lately now interval none = false
attempted_lately now interval (some r) = ltb now (r.attempted_at + interval) && is_over r.state

abbrev pub may_reuse : Bool → Bool → ℕ → ℕ → Status → Bool
may_reuse force plan now interval st =
    not force && not plan && attempted_lately now interval st.refresh && is_complete st.integrity

-- The times that a run reads.
pub record Clock : Type 0 where
  pub attempt : ℕ
  pub fetched : ℕ
  pub completed : ℕ

module _ {V : Type 0} where
  -- `if not plan: write_json(refresh_path, refresh)`
  abbrev pub write_refresh : Bool → Refresh → Store V → Store V
  write_refresh plan r s = if plan then s else record s { refresh = some r }

  -- What follows `reconcile`.
  abbrev pub conclude : Bool → ℕ → Refresh → Store V × Result Report → Store V × Result Report
  conclude plan completed r (s, ok rep) = (
    write_refresh plan (record r { state = RefreshState.complete; completed_at = some completed })
        s,
    ok rep,
  )
  conclude plan completed r (s, err e) =
      (write_refresh plan (record r { state = failed; error = some e }) s, err e)

abbrev pub first_refresh : Owner → ℕ → Refresh
first_refresh o attempt = record {
  owner = o;
  state = checking;
  attempted_at = attempt;
  fetch_ok = false;
  checked_at = none;
  target_commit = none;
  completed_at = none;
  error = none;
}

abbrev pub fetched_refresh : Clock → Snapshot → Refresh
fetched_refresh clock snap = record (first_refresh snap.owner clock.attempt) {
  state = indexing;
  fetch_ok = true;
  checked_at = some clock.fetched;
  target_commit = some snap.commit;
}

module _ {V : Type 0} (fingerprint : List Json → String) (digest : String → String)
    (split : Recipe → String → String → Option (Text × List Chunk))
    (embedding : String → Option String) (encode : String → List Text → Result (List (Option V)))
    (legacy : Dict V) (table : String) where
  -- The body of the `try`, with its handler.
  abbrev pub refresh_main :
      String → ℕ → Bool → Clock → Owner → Result Snapshot → Store V → Store V × Result Report
  refresh_main name version plan clock o (err e) s =
      conclude plan clock.completed (first_refresh o clock.attempt) (s, err e)
  refresh_main name version plan clock o (ok fetched) s =
      let snap = record fetched { owner = o } in
      let r = fetched_refresh clock snap in
      conclude plan clock.completed r (
        reconcile fingerprint digest split embedding encode legacy table name version plan snap
          (write_refresh plan r s))

  abbrev pub reuse_or_refresh :
      String
      → ℕ
      → Bool
      → Bool
      → ℕ
      → Clock
      → Owner
      → Result Snapshot
      → Store V
      → Result Status
      → Store V × Result Report
  reuse_or_refresh name version force plan interval clock o fetch s (err e) = (s, err e)
  reuse_or_refresh name version force plan interval clock o fetch s (ok st) =
      if may_reuse force plan clock.attempt interval st
      then (
        s,
        ok (record {
          mode = reused;
          source_commit = st.source_commit;
          files = st.files;
          chunks = st.chunks;
        }),
      )
      else refresh_main name version plan clock o fetch
          (write_refresh plan (first_refresh o clock.attempt) s)

  -- `ensure_main`
  unfoldable pub ensure_main :
      String
      → ℕ
      → Bool
      → Bool
      → ℕ
      → Clock
      → Owner
      → Result Snapshot
      → Store V
      → Store V × Result Report
  ensure_main name version force plan interval clock o fetch s =
      reuse_or_refresh name version force plan interval clock o fetch s
        (describe o clock.attempt interval s)
