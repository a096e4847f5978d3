-- ===== src/AgentSearch/Service.antt =====
-- The state of `SearchService` in tools/agent_search/service.py and what changes it. An operation is
-- the code between two awaits. Times are clock ticks, and a corpus's asyncio task is the point where
-- its `maintain` stands.
pub mod Steps
pub mod Leases
use qscat.Prelude.{
  ℕ, zero, suc, ◌+◌, ◌-◌, String, Bool, true, false, not, ◌&&◌, ◌||◌, Option, none, some, List, [],
  ◌∷◌, is_nil, leb, ltb, ◌==◌, str_eq, if◌then◌else◌,
}
use qscat.Prelude.Dict.{Dict, lookup, has_key, insert}
use qscat.AgentSearch.Source.{MainSource, Owner, owner, owner_eq}

pub record Mount : Type 0 where
  pub source : MainSource
  pub table : String
  pub interval : ℕ
  pub proxy_pid : ℕ
  pub expires : ℕ

-- `Corpus.task` and where the task is: at the head of the loop, in the indexer's thread, waiting for
-- `wake` or the interval, or finished.
pub data Task : Type 0 where
  no_task at_head indexing waiting finished : Task

pub record Corpus : Type 0 where
  pub table : String
  pub owner : Owner
  pub mounts : Dict Mount
  pub first_attempt : Bool
  pub wake : Bool
  pub task : Task
  pub error : Option String

pub record Service : Type 0 where
  pub idle_timeout : ℕ
  pub corpora : Dict Corpus
  pub active_requests : ℕ
  pub last_used : ℕ
  pub stop : Bool

-- `SearchService(...)`
abbrev pub new_service : ℕ → ℕ → Service
new_service idle_timeout now = record {
  idle_timeout = idle_timeout;
  corpora = [];
  active_requests = 0;
  last_used = now;
  stop = false;
}

-- `LEASE`
abbrev pub lease : ℕ
lease = 120

-- `Corpus(table, owner)`
abbrev pub new_corpus : String → Owner → Corpus
new_corpus table owner = record {
  table = table;
  owner = owner;
  mounts = [];
  first_attempt = false;
  wake = false;
  task = no_task;
  error = none;
}

abbrev pub has_stopped : Task → Bool
has_stopped no_task = true
has_stopped finished = true
has_stopped _ = false

abbrev pub or_new : String → Owner → Option Corpus → Corpus
or_new table o none = new_corpus table o
or_new table o (some c) = c

-- `register` on the corpus: the mount is written, and the maintainer is started or woken.
unfoldable pub add_mount : ℕ → String → Mount → Corpus → Corpus
add_mount now client m c =
    let new = not (has_key client c.mounts) in
    let mounts = insert client (record m { expires = now + lease }) c.mounts in
    if has_stopped c.task
    then record c { mounts = mounts; first_attempt = false; task = at_head }
    else record c { mounts = mounts; wake = c.wake || new }

-- `register` behind `resolve`. `none`: the corpus belongs to another owner.
unfoldable pub register : ℕ → String → Mount → Service → Option Service
unfolding add_mount owner
register now client m s =
    let c = or_new m.table (owner m.source) (lookup m.table s.corpora) in
    if owner_eq c.owner (owner m.source)
    then some (record s { corpora = insert m.table (add_mount now client m c) s.corpora })
    else none

-- `corpus.mounts.pop(client, None)`
unfoldable pub drop_mount : String → Dict Mount → Dict Mount
drop_mount client [] = []
drop_mount client ((k, m) ∷ d) =
    let rest = drop_mount client d in if str_eq k client then rest else (k, m) ∷ rest

abbrev pub unmount_corpus : String → Corpus → Corpus
unmount_corpus client c = record c {
  mounts = drop_mount client c.mounts;
  wake = c.wake || has_key client c.mounts;
}

abbrev pub each : (Corpus → Corpus) → Dict Corpus → Dict Corpus
each f [] = []
each f ((k, c) ∷ d) = (k, f c) ∷ each f d

-- `unmount`
unfoldable pub unmount : String → Service → Service
unfolding drop_mount
unmount client s = record s { corpora = each (unmount_corpus client) s.corpora }

-- The mounts whose lease has not run out.
unfoldable pub unexpired : ℕ → Dict Mount → Dict Mount
unexpired now [] = []
unexpired now ((k, m) ∷ d) =
    let rest = unexpired now d in if leb m.expires now then rest else (k, m) ∷ rest

abbrev pub any_expired : ℕ → Dict Mount → Bool
any_expired now [] = false
any_expired now ((k, m) ∷ d) = leb m.expires now || any_expired now d

abbrev pub expire : ℕ → Corpus → Corpus
expire now c = record c {
  mounts = unexpired now c.mounts;
  wake = c.wake || any_expired now c.mounts;
}

abbrev pub is_finished : Task → Bool
is_finished finished = true
is_finished _ = false

-- The loop of `reap` over the corpora. A corpus without a task would raise at `task.done()`.
unfoldable pub reap_corpora : ℕ → Dict Corpus → Dict Corpus
unfolding unexpired
reap_corpora now [] = []
reap_corpora now ((k, c) ∷ d) =
    let rest = reap_corpora now d in
    if is_nil (unexpired now c.mounts) && is_finished c.task then rest else (k, expire now c) ∷ rest

-- One turn of `reap`.
unfoldable pub reap : ℕ → Service → Service
unfolding reap_corpora
reap now s =
    let corpora = reap_corpora now s.corpora in
    if not (is_nil corpora) || not (s.active_requests == 0)
    then record s { corpora = corpora; last_used = now }
    else record s { corpora = corpora; stop = s.stop || leb s.idle_timeout (now - s.last_used) }

-- `maintain` from the head of its loop to the indexer's thread, or to its end.
unfoldable pub loop_head : Corpus → Corpus
loop_head c =
    if is_nil c.mounts
    then record c { task = finished }
    else record c { task = indexing; wake = false }

-- `maintain` when the attempts are over, with the last error if all of them failed.
unfoldable pub end_attempts : Option String → Corpus → Corpus
end_attempts error c = record c {
  error = error;
  first_attempt = true;
  task = if is_nil c.mounts then finished else waiting;
}

-- `handle` when a request comes in, and when its answer is written.
abbrev pub begin_request : Service → Service
begin_request s = record s { active_requests = s.active_requests + 1 }

abbrev pub end_request : ℕ → Service → Service
end_request now s = record s { active_requests = s.active_requests - 1; last_used = now }
