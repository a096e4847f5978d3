-- ===== src/ArtifactStore/Fetch.antt =====
-- `_contained_target` and `fetch`. The network, the digest and the file system are parameters: an
-- opener, `hashlib.sha256(...).hexdigest()`, the resolution of a path, and what a write does.
pub mod Prepare
pub mod Deliver
pub mod Complete
pub mod Twice
pub mod Verified
use qscat.Prelude.{
  ℕ, String, Bool, true, false, not, ◌&&◌, ◌||◌, Option, none, some, List, [], ◌∷◌, ◌++◌, leb,
  if◌then◌else◌, ◌==◌,
}
use qscat.Prelude.Dict.{Dict, lookup, insert, keys}
use qscat.Python.{Value}
use qscat.ArtifactStore.Names.{
  StoreError, not_listed, outside, checksum_mismatch, write_failed, Outcome, ok, err, ◌>>=◌, ◌>>◌,
  Text, codes, text_eq, split,
}
use qscat.ArtifactStore.Urls.{SplitResult, url_for}
use qscat.ArtifactStore.Pointer.{ArtifactEntry, ArtifactPointer, load_pointer}

-- A resolved path: its components below the root.
abbrev pub FilePath : Type 0
FilePath = List Text

abbrev pub path_eq : FilePath → FilePath → Bool
path_eq [] [] = true
path_eq [] (b ∷ t) = false
path_eq (a ∷ s) [] = false
path_eq (a ∷ s) (b ∷ t) = text_eq a b && path_eq s t

-- `target.is_relative_to(base)`: the base's components come first.
abbrev pub is_relative_to : FilePath → FilePath → Bool
is_relative_to target [] = true
is_relative_to [] (b ∷ base) = false
is_relative_to (a ∷ target) (b ∷ base) = text_eq a b && is_relative_to target base

-- The files of the file system.
abbrev pub Disk : Type 0 → Type 0
Disk B = FilePath → Option B

abbrev pub write : {B : Type 0} → Disk B → FilePath → B → Disk B
write disk path content q = if path_eq path q then some content else disk q

-- What a failed write leaves at its target.
abbrev pub leave : {B : Type 0} → Disk B → FilePath → Option B → Disk B
leave disk path left q = if path_eq path q then left else disk q

-- `sorted` on texts: by code points.
abbrev pub text_le : Text → Text → Bool
text_le [] t = true
text_le (a ∷ s) [] = false
text_le (a ∷ s) (b ∷ t) = if a == b then text_le s t else leb a b

abbrev pub insert_sorted : String → List String → List String
insert_sorted s [] = s ∷ []
insert_sorted s (t ∷ ts) =
    if text_le (codes s) (codes t) then s ∷ t ∷ ts else t ∷ insert_sorted s ts

abbrev pub sorted : List String → List String
sorted [] = []
sorted (s ∷ ts) = insert_sorted s (sorted ts)

-- `target == base or not target.is_relative_to(base)`, negated
abbrev pub is_inside : FilePath → FilePath → Bool
is_inside base target = not (path_eq target base || not (is_relative_to target base))

-- What `fetch` has before its first download: the pointer, the names and their targets.
pub record Job : Type 0 where
  pub pointer : ArtifactPointer
  pub wanted : List String
  pub targets : Dict FilePath

abbrev pub wanted_names : Option (List String) → ArtifactPointer → List String
wanted_names none p = sorted (keys p.artifacts)
wanted_names (some names) p = names

module _ (resolve : FilePath → FilePath) where
  -- `pointer_path(directory)`, as it is opened
  abbrev pub pointer_file : FilePath → FilePath
  pointer_file directory = resolve (directory ++ (codes "artifacts.json" ∷ []))

  abbrev pub target_of : FilePath → String → FilePath
  target_of base name = resolve (base ++ split b'/' (codes name))

  -- `_contained_target`
  unfoldable pub contained_target : FilePath → String → Outcome FilePath
  contained_target base name =
      if is_inside base (target_of base name) then ok (target_of base name) else err outside

  -- One turn of the first loop of `fetch`.
  abbrev pub prove_target : FilePath → Dict ArtifactEntry → String → Outcome FilePath
  prove_target base artifacts name = elim (lookup name artifacts) [
    | none ↦ err not_listed
    | some e ↦ contained_target base name
  ]

  -- The first loop.
  unfoldable pub prove_targets :
      FilePath → Dict ArtifactEntry → Dict FilePath → List String → Outcome (Dict FilePath)
  prove_targets base artifacts targets [] = ok targets
  prove_targets base artifacts targets (name ∷ names) = do
    target ← prove_target base artifacts name
    prove_targets base artifacts (insert name target targets) names

  -- `fetch` before its second loop.
  unfoldable pub prepare :
      {F : Type 0} (urlsplit : Text → SplitResult) (lower : Text → Text)
      → FilePath
      → Option (Option (Value F))
      → Option (List String)
      → Outcome Job
  unfolding prove_targets
  prepare urlsplit lower directory stored names = do
    pointer ← load_pointer urlsplit lower stored
    let wanted = wanted_names names pointer
    targets ← prove_targets (resolve directory) pointer.artifacts [] wanted
    ok (record { pointer = pointer; wanted = wanted; targets = targets })

abbrev pub noted : List FilePath → FilePath → Bool → List FilePath
noted written target true = written ++ (target ∷ [])
noted written target false = written

abbrev pub go_on :
    {B : Type 0}
    → Outcome Bool × Disk B
    → (Bool → Disk B → Outcome (List FilePath) × Disk B)
    → Outcome (List FilePath) × Disk B
go_on (ok written, disk) k = k written disk
go_on (err e, disk) k = (err e, disk)

-- `target.is_file() and _digest(target.read_bytes()) == entry.sha256`
abbrev pub holds : {B : Type 0} → (B → Text) → Option B → Text → Bool
holds digest none sha256 = false
holds digest (some content) sha256 = text_eq (digest content) sha256

module _ {B : Type 0} (digest : B → Text) (opener : Text → Outcome B)
    (writes : Disk B → FilePath → B → Option (Option B)) where
  -- `target.parent.mkdir(...)` and `target.write_bytes(data)`. A write that fails raises an `OSError`
  -- and leaves what `writes` tells: the old file, none, or a part of the content.
  abbrev pub put : Disk B → FilePath → B → Outcome Bool × Disk B
  put disk target content = elim (writes disk target content) [
    | none ↦ (ok true, write disk target content)
    | some left ↦ (err write_failed, leave disk target left)
  ]

  abbrev pub check_and_put : ArtifactEntry → FilePath → Disk B → Outcome B → Outcome Bool × Disk B
  check_and_put entry target disk (err e) = (err e, disk)
  check_and_put entry target disk (ok content) =
      if text_eq (digest content) entry.sha256
      then put disk target content
      else (err checksum_mismatch, disk)

  -- One turn of the second loop of `fetch`; it tells whether the target was written.
  unfoldable pub deliver :
      ArtifactPointer → String → ArtifactEntry → FilePath → Disk B → Outcome Bool × Disk B
  deliver pointer name entry target disk =
      if holds digest (disk target) entry.sha256
      then (ok false, disk)
      else check_and_put entry target disk
          (opener (url_for pointer.url_prefix (codes name) entry.sha256))

  -- The body of the second loop, on what its two dictionaries hold.
  abbrev pub turn :
      ArtifactPointer
      → String
      → Option ArtifactEntry
      → Option FilePath
      → Disk B
      → (FilePath → Bool → Disk B → Outcome (List FilePath) × Disk B)
      → Outcome (List FilePath) × Disk B
  turn pointer name (some entry) (some target) disk k =
      go_on (deliver pointer name entry target disk) (k target)
  turn pointer name none target disk k = (err not_listed, disk)
  turn pointer name (some entry) none disk k = (err not_listed, disk)

  -- The second loop.
  unfoldable pub download_all :
      ArtifactPointer
      → Dict FilePath
      → List FilePath
      → List String
      → Disk B
      → Outcome (List FilePath) × Disk B
  download_all pointer targets written [] disk = (ok written, disk)
  download_all pointer targets written (name ∷ names) disk =
      turn pointer name (lookup name pointer.artifacts) (lookup name targets) disk
        (λ target new d. download_all pointer targets (noted written target new) names d)

  abbrev pub run_job : Outcome Job → Disk B → Outcome (List FilePath) × Disk B
  run_job (err e) disk = (err e, disk)
  run_job (ok job) disk = download_all job.pointer job.targets [] job.wanted disk

  -- `fetch`: its result and the disk it leaves. `read` tells what the text of the pointer file is as
  -- JSON, where there is a file and it is JSON.
  unfoldable pub fetch :
      {F : Type 0} (resolve : FilePath → FilePath) (urlsplit : Text → SplitResult)
      (lower : Text → Text)
      → FilePath
      → (Option B → Option (Option (Value F)))
      → Option (List String)
      → Disk B
      → Outcome (List FilePath) × Disk B
  unfolding prepare download_all
  fetch resolve urlsplit lower directory read names disk =
      run_job
        (prepare resolve urlsplit lower directory (read (disk (pointer_file resolve directory)))
          names)
        disk
