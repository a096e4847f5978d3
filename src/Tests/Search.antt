-- ===== src/Tests/Search.antt =====
-- The search service with two clients, and the splitting of a short text.
use qscat.Prelude.{
  Option, All, if◌then◌else◌, ℕ, suc, ◌≡◌, refl, true, false, none, some, List, [], ◌∷◌, inl, arith,
  any, length,
}
use qscat.ArtifactStore.Names.{Text, codes, text_eq}
use qscat.AgentSearch.Source.{MainSource, owner}
use qscat.AgentSearch.Service.{
  Mount, Task, Corpus, Service, new_service, register, unmount, reap, loop_head, add_mount,
}
use qscat.AgentSearch.Service.Steps.{
  registered, unmounted, reaped, looped, here, next, IsSound, Reach, Reach-IsSound, maintained,
}
use qscat.AgentSearch.Service.Leases.{Mounted, Step-Mounted, reap_keeps_running}
use qscat.AgentSearch.Objects.{is_space, read_blobs}
use qscat.AgentSearch.Objects.Printed.{Object, IsPrinted, printed, read_blobs-printed}
use qscat.AgentSearch.Chunks.{
  SourceUnit, Settings, Tokenizer, Piece, Pieces, piece_at, pieces, unit_pieces, at_line, shrink,
  after_newline, bisect_left, split_units,
}
use qscat.AgentSearch.Chunks.Positions.{holds_start, unit_pieces-cover}
use qscat.AgentSearch.Chunks.Keys.{Distinct, OnOk, split_units-Distinct}
use qscat.AgentSearch.Chunks.Returns.{is_exhausted, split_units-returns}

abbrev checkout : MainSource
checkout = record {
  root = "/repo";
  remote = "origin";
  profile_path = "profile.json";
  repo_id = "host/repo";
  corpus = "repository";
}

abbrev mount : Mount
mount = record { source = checkout; table = "t"; interval = 300; proxy_pid = 7; expires = 0 }

abbrev leased : Mount
leased = record mount { expires = 220 }

abbrev started : Service
started = new_service 60 90

abbrev served : Corpus
served = record {
  table = "t";
  owner = record { repo_id = "host/repo"; profile_path = "profile.json"; corpus = none };
  mounts = ("a", leased) ∷ [];
  first_attempt = false;
  wake = false;
  task = Task.at_head;
  error = none;
}

abbrev serving : Service
serving = record started { corpora = ("t", served) ∷ [] }

registers : register 100 "a" mount started ≡ some serving
unfolding register add_mount owner
registers = refl

abbrev reaped_late : Service
reaped_late = reap 220 (maintained "t" (loop_head served) serving)

reached : Reach (new_service 60 90) reaped_late
reached =
    next
      (next (next here (registered 100 "a" mount started serving registers))
        (looped "t" served serving refl refl))
      (reaped 220 (maintained "t" (loop_head served) serving))

Reach-IsSound_example : IsSound reaped_late
Reach-IsSound_example = Reach-IsSound 60 90 reaped_late reached

-- Another client leaves.
Step-Mounted_example : Mounted "t" "a" leased (unmount "b" serving)
Step-Mounted_example = Step-Mounted "t" "a" leased (unmounted "b" serving) refl refl

reap_keeps_running_example : (reap 219 serving).stop ≡ false
reap_keeps_running_example =
    reap_keeps_running 219 serving refl (inl ("t", "a", leased, refl, refl))

abbrev counted : ℕ → List ℕ → List ℕ
counted i [] = []
counted i (x ∷ xs) = i ∷ counted (suc i) xs

-- Each character is a token.
abbrev by_character : Tokenizer
by_character = record { offsets = counted 0; tokens = length }

abbrev settings : Settings
settings = record { target = 4; maximum = 8; total = 40; overlap = 1 }

abbrev unit : SourceUnit
unit = record {
  anchor = codes "f";
  kind = codes "function";
  start_line = 1;
  content = codes "abcde\nfg";
}

abbrev unchanged : Text → Text
unchanged t = t

-- The pieces overlap by a token.
abbrev three_pieces : List Piece
three_pieces =
    record { first = 0; last = 4; lo = 0; hi = 4 }
    ∷ record { first = 3; last = 6; lo = 3; hi = 6 }
    ∷ record { first = 5; last = 8; lo = 5; hi = 8 }
    ∷ []

unit_cut :
    unit_pieces settings length unit.content (counted 0 unit.content) false ≡ Pieces.ok three_pieces
unfolding pieces piece_at at_line shrink after_newline bisect_left
unit_cut = refl

unit_pieces-cover_example : any (holds_start (counted 0 unit.content) 4) three_pieces ≡ true
unit_pieces-cover_example =
    unit_pieces-cover settings length unit.content (counted 0 unit.content) refl false three_pieces
      4 (omega arith) unit_cut (omega arith)

split_units-returns_example :
    is_exhausted (
      split_units settings by_character unchanged
        (codes "python")
        (codes "f.py")
        false
        (unit ∷ unit ∷ []))
    ≡ false
split_units-returns_example =
    split_units-returns settings by_character unchanged (codes "python") (codes "f.py") false
      (unit ∷ unit ∷ []) (omega arith)

-- The same definition twice.
split_units-Distinct_example : OnOk Distinct (
    split_units settings by_character unchanged
      (codes "python")
      (codes "f.py")
      false
      (unit ∷ unit ∷ []))
split_units-Distinct_example =
    split_units-Distinct settings by_character unchanged (codes "python") (codes "f.py")
      (unit ∷ unit ∷ [])

-- With a target of one token, which the budgets allow, the first piece is empty and the first token of
-- a text is in no piece.
abbrev single : Settings
single = record { target = 1; maximum = 1; total = 40; overlap = 0 }

empty_first_piece :
    unit_pieces single length (codes "ab") (counted 0 (codes "ab")) false
    ≡ Pieces.ok (
        record { first = 0; last = 0; lo = 0; hi = 0 }
        ∷ record { first = 1; last = 2; lo = 1; hi = 2 }
        ∷ [])
unfolding pieces piece_at at_line shrink after_newline bisect_left
empty_first_piece = refl

-- Two blobs, the second with a newline in it.
abbrev two_objects : List Object
two_objects =
    record { oid = codes "a1"; size = codes "3"; content = codes "abc" }
    ∷ record { oid = codes "b2"; size = codes "4"; content = codes "de\nf" }
    ∷ []

-- The numerals that the two have.
abbrev small_int : Text → Option ℕ
small_int s =
    if text_eq s (codes "3") then some 3 else if text_eq s (codes "4") then some 4 else none

two_objects-IsPrinted : All (IsPrinted small_int) two_objects
unfolding is_space
two_objects-IsPrinted = (
  ((refl, (refl, (refl, tt))), (refl, (refl, tt)), refl),
  (((refl, (refl, (refl, tt))), (refl, (refl, tt)), refl), tt),
)

read_blobs-printed_example :
    read_blobs small_int (codes "a1" ∷ codes "b2" ∷ []) (printed two_objects)
    ≡ some ((codes "a1", codes "abc") ∷ (codes "b2", codes "de\nf") ∷ [])
read_blobs-printed_example = read_blobs-printed small_int two_objects two_objects-IsPrinted
