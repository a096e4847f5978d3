-- ===== src/ArtifactStore/Fetch/Complete.antt =====
-- A `fetch` that returns has every wanted artifact in place, and a second one downloads nothing.
use qscat.Prelude.{
  String, ◌≡◌, refl, Bool, true, false, Option, none, some, List, [], ◌∷◌, inl, inr, All,
  Bool-cases,
}
use qscat.Prelude.Dict.{Dict, lookup}
use qscat.ArtifactStore.Names.{Outcome, ok, err, Text, text_eq}
use qscat.ArtifactStore.Pointer.{ArtifactEntry, ArtifactPointer}
use qscat.ArtifactStore.Fetch.{
  FilePath, Disk, path_eq, write, holds, deliver, go_on, turn, noted, download_all,
}
use qscat.ArtifactStore.Fetch.Deliver.{
  deliver-Unfailed, deliver-holds, download_all-Unfailed, is_write_failure, path_eq_sound,
}

-- Names with one target have one digest.
abbrev pub Agree : ArtifactPointer → Dict FilePath → Type 0
Agree pointer targets =
    (n m : String) (e f : ArtifactEntry) (t : FilePath)
    → lookup n pointer.artifacts ≡ some e
    → lookup m pointer.artifacts ≡ some f
    → lookup n targets ≡ some t
    → lookup m targets ≡ some t
    → e.sha256 ≡ f.sha256

module _ {B : Type 0} (digest : B → Text) where
  -- The wanted artifact is at its target, with the digest of its entry.
  pub record IsDelivered (pointer : ArtifactPointer) (targets : Dict FilePath) (disk : Disk B)
      (name : String) : Type 0 where
    pub entry : ArtifactEntry
    pub target : FilePath
    pub listed : lookup name pointer.artifacts ≡ some entry
    pub placed : lookup name targets ≡ some target
    pub verified : holds digest (disk target) entry.sha256 ≡ true

  write-holds :
      (disk : Disk B) (target q : FilePath) (content : B) (sha : Text)
      → (target ≡ q → text_eq (digest content) sha ≡ true)
      → holds digest (disk q) sha ≡ true
      → holds digest (write disk target content q) sha ≡ true
  write-holds disk target q content sha same h = elim (Bool-cases (path_eq target q)) [
    | inl here ↦ rw here (same (path_eq_sound target q here))
    | inr there ↦ rw there h
  ]

module _ {B : Type 0} (digest : B → Text) (opener : Text → Outcome B)
    (writes : Disk B → FilePath → B → Option (Option B)) where
  -- What is delivered stays delivered while the loop goes on.
  download_all-IsDelivered :
      (pointer : ArtifactPointer) (targets : Dict FilePath)
      → Agree pointer targets
      → (name : String) (written : List FilePath) (names : List String) (disk : Disk B)
      → IsDelivered digest pointer targets disk name
      → is_write_failure (download_all digest opener writes pointer targets written names disk).0
        ≡ false
      → IsDelivered digest pointer targets
          (download_all digest opener writes pointer targets written names disk).1
          name
  download_all-IsDelivered pointer targets agree name written names disk d fine = record {
    entry = d.entry;
    target = d.target;
    listed = d.listed;
    placed = d.placed;
    verified =
        download_all-Unfailed digest opener writes
          (λ now. holds digest (now d.target) d.entry.sha256 ≡ true) pointer targets
          (λ m f t now l g h.
            deliver-Unfailed digest opener writes
              (λ then_. holds digest (then_ d.target) d.entry.sha256 ≡ true) pointer m f t now h
              (λ content same.
                write-holds digest now t d.target content d.entry.sha256
                  (λ q. rw (agree name m d.entry f d.target d.listed l d.placed (rw q at g)) same)
                  h))
          written names disk d.verified fine;
  }

  turn-IsDelivered :
      (pointer : ArtifactPointer) (targets : Dict FilePath) (name : String)
      (entry : Option ArtifactEntry) (target : Option FilePath) (disk : Disk B)
      (k : FilePath → Bool → Disk B → Outcome (List FilePath) × Disk B) (ws : List FilePath)
      (R : Disk B → Type 0)
      → lookup name pointer.artifacts ≡ entry
      → lookup name targets ≡ target
      → (turn digest opener writes pointer name entry target disk k).0 ≡ ok ws
      → ((t : FilePath) (new : Bool) (d : Disk B)
          → IsDelivered digest pointer targets d name
          → (k t new d).0 ≡ ok ws
          → R (k t new d).1)
      → R (turn digest opener writes pointer name entry target disk k).1
  turn-IsDelivered pointer targets name none target disk k ws R e t h rest = cc
  turn-IsDelivered pointer targets name (some entry) none disk k ws R e t h rest = cc
  turn-IsDelivered pointer targets name (some entry) (some target) disk k ws R e t h rest =
      by_step (deliver digest opener writes pointer name entry target disk)
        (deliver-holds digest opener writes pointer name entry target disk) h
    where
      by_step :
          (step : Outcome Bool × Disk B)
          → ((new : Bool) → step.0 ≡ ok new → holds digest (step.1 target) entry.sha256 ≡ true)
          → (go_on step (k target)).0 ≡ ok ws
          → R (go_on step (k target)).1
      by_step (ok new, d) v h =
          rest target new d
            (record {
              entry = entry;
              target = target;
              listed = e;
              placed = t;
              verified = v new refl;
            })
            h
      by_step (err x, d) v h = cc

  -- A loop that returns has delivered every name.
  pub download_all-All :
      (pointer : ArtifactPointer) (targets : Dict FilePath)
      → Agree pointer targets
      → (written : List FilePath) (names : List String) (disk : Disk B) (ws : List FilePath)
      → (download_all digest opener writes pointer targets written names disk).0 ≡ ok ws
      → All
          (IsDelivered digest pointer targets
            (download_all digest opener writes pointer targets written names disk).1)
          names
  unfolding download_all
  download_all-All pointer targets agree written [] disk ws h = tt
  download_all-All pointer targets agree written (name ∷ names) disk ws h =
      turn-IsDelivered pointer targets name (lookup name pointer.artifacts) (lookup name targets)
        disk _ ws
        (λ now.
          IsDelivered digest pointer targets now name
          × All (IsDelivered digest pointer targets now) names)
        refl refl h
        (λ t new d v g. (
          download_all-IsDelivered pointer targets agree name (noted written t new) names d v
              (rw g refl),
          download_all-All pointer targets agree (noted written t new) names d ws g,
        ))

  -- With every name delivered the loop changes nothing and notes nothing.
  pub download_all_again :
      (pointer : ArtifactPointer) (targets : Dict FilePath) (written : List FilePath)
      (names : List String) (disk : Disk B)
      → All (IsDelivered digest pointer targets disk) names
      → download_all digest opener writes pointer targets written names disk ≡ (ok written, disk)
  unfolding download_all deliver
  download_all_again pointer targets written [] disk ds = refl
  download_all_again pointer targets written (name ∷ names) disk (d, ds) =
      rw (d.listed, d.placed, d.verified) (download_all_again pointer targets written names disk ds)
