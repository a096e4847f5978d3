-- ===== src/Tests/Index.antt =====
-- The index of a small repository: built, changed and refreshed.
use qscat.Prelude.{
  ℕ, String, ◌≡◌, refl, true, false, none, some, Option, List, [], ◌∷◌, map, length, arith,
}
use qscat.Prelude.Text.{◌<>◌}
use qscat.Prelude.Dict.{Dict}
use qscat.ArtifactStore.Names.{Text, codes}
use qscat.AgentSearch.Chunks.{Chunk}
use qscat.AgentSearch.Source.{Owner}
use qscat.AgentSearch.Index.{
  cannot_fetch, Result, ok, err, Json, Recipe, Snapshot, check_owner, open_published, collect,
  make_row, parsed_file, file_records, make_records,
}
use qscat.AgentSearch.Index.Reconcile.{
  Store, Report, synced, stored_of, cached_of, needed, store_batch, attach, cache_of,
  matching_manifest, publish, embed_rounds, prepare_records, rows_with_vectors, build, reconcile,
}
use qscat.AgentSearch.Index.Reconcile.Built.{IsBuilt, prepare_records-fresh}
use qscat.AgentSearch.Index.Reconcile.Kept.{Synced}
use qscat.AgentSearch.Index.Reconcile.Invariant.{reconcile-IsBuilt}
use qscat.AgentSearch.Index.Ensure.{State, Status, Clock, describe, ensure_main}
use qscat.AgentSearch.Index.Ensure.Planned.{ensure_main_planned}
use qscat.AgentSearch.Index.Ensure.Ends.{ensure_main-up_to_date}

abbrev show_json : Json → String
show_json (Json.string s) = s
show_json (Json.text t) = ""
show_json (Json.number n) = ""

abbrev joined : List Json → String
joined [] = ""
joined (j ∷ js) = show_json j <> joined js

abbrev digest : String → String
digest oid = "digest of " <> oid

abbrev one_chunk : Chunk
one_chunk = record {
  anchor = codes "module";
  kind = codes "section";
  declaration = 0;
  start_line = 1;
  end_line = 2;
  content = codes "text";
  text = codes "payload";
  content_sha256 = codes "c";
  payload_sha256 = codes "p";
  duplicate = 0;
  tokens = 4;
}

abbrev split : Recipe → String → String → Option (Text × List Chunk)
split recipe path oid = some (codes "markdown", one_chunk ∷ [])

abbrev embedding : String → Option String
embedding profile = some "model"

abbrev encode : String → List Text → Result (List (Option ℕ))
encode profile texts = ok (map (λ (t : Text). some (length t)) texts)

abbrev no_vectors : Dict ℕ
no_vectors = []

abbrev repo_owner : Owner
repo_owner = record { repo_id = "host/repo"; profile_path = "profile.json"; corpus = none }

abbrev first_snapshot : Snapshot
first_snapshot = record {
  owner = repo_owner;
  commit = "c1";
  selected = ("a.md", "o1") ∷ ("b.md", "o2") ∷ [];
  profile_sha256 = "profile";
}

-- One file stays, one changes, one is new.
abbrev second_snapshot : Snapshot
second_snapshot = record first_snapshot {
  commit = "c2";
  selected = ("a.md", "o1") ∷ ("b.md", "o3") ∷ ("c.md", "o4") ∷ [];
}

abbrev empty_store : Store ℕ
empty_store = record { manifest = none; refresh = none; generations = [] }

abbrev first_store : Store ℕ
first_store =
    (reconcile joined digest split embedding encode no_vectors "table" "g1" 1 false first_snapshot
      empty_store).0

empty_store-IsBuilt : IsBuilt joined digest split empty_store
unfolding IsBuilt
empty_store-IsBuilt = λ m g h opened. cc

first_store-IsBuilt : IsBuilt joined digest split first_store
first_store-IsBuilt =
    reconcile-IsBuilt joined digest split embedding encode no_vectors "table" "g1" 1 false
      first_snapshot empty_store (refl, (refl, tt)) empty_store-IsBuilt

reconcile-IsBuilt_example :
    IsBuilt joined digest split
      (reconcile joined digest split embedding encode no_vectors "table" "g2" 2 false
        second_snapshot first_store).0
reconcile-IsBuilt_example =
    reconcile-IsBuilt joined digest split embedding encode no_vectors "table" "g2" 2 false
      second_snapshot first_store (refl, (refl, (refl, tt))) first_store-IsBuilt

first_store-owner : check_owner first_store.manifest repo_owner ≡ ok tt
unfolding check_owner reconcile matching_manifest stored_of prepare_records make_records collect
    file_records parsed_file cached_of make_row build rows_with_vectors cache_of needed embed_rounds
    store_batch attach publish open_published
first_store-owner = refl

prepare_records-fresh_example :
    prepare_records joined digest split embedding encode no_vectors "table" second_snapshot
      first_store
    ≡ prepare_records joined digest split embedding encode no_vectors "table" second_snapshot
        (record first_store { generations = [] })
prepare_records-fresh_example =
    prepare_records-fresh joined digest split embedding encode no_vectors "table" second_snapshot
      first_store first_store-IsBuilt first_store-owner

abbrev clock : Clock
clock = record { attempt = 1000; fetched = 1001; completed = 1002 }

abbrev unreachable : Result Snapshot
unreachable = err cannot_fetch

abbrev first_report : Report
first_report = record { mode = synced; source_commit = some "c1"; files = 2; chunks = 2 }

first_run :
    (ensure_main joined digest split embedding encode no_vectors "table" "g1" 1 false false 300
      clock repo_owner
      (ok first_snapshot)
      empty_store).1
    ≡ ok first_report
unfolding ensure_main describe check_owner reconcile matching_manifest stored_of prepare_records
    make_records collect file_records parsed_file cached_of make_row build rows_with_vectors
    cache_of needed embed_rounds store_batch attach publish open_published
first_run = refl

ensure_main-up_to_date_example :
    (fetched : Snapshot) × (ok first_snapshot ≡ ok fetched)
    × Synced
        (record fetched { owner = repo_owner })
        (ensure_main joined digest split embedding encode no_vectors "table" "g1" 1 false false 300
          clock repo_owner
          (ok first_snapshot)
          empty_store).0
    × ((st : Status) × (describe repo_owner 1200 300
            (ensure_main joined digest split embedding encode no_vectors "table" "g1" 1 false false
              300 clock repo_owner
              (ok first_snapshot)
              empty_store).0
          ≡ ok st)
        × (st.state ≡ State.up_to_date))
ensure_main-up_to_date_example =
    ensure_main-up_to_date joined digest split embedding encode no_vectors "table" "g1" 1 false 300
      clock repo_owner (ok first_snapshot) empty_store first_report 1200 first_run refl
      (omega arith)

ensure_main_planned_example :
    (ensure_main joined digest split embedding encode no_vectors "table" "g1" 1 true true 300 clock
      repo_owner
      (ok first_snapshot)
      empty_store).0
    ≡ empty_store
ensure_main_planned_example =
    ensure_main_planned joined digest split embedding encode no_vectors "table" "g1" 1 true 300
      clock repo_owner (ok first_snapshot) empty_store
