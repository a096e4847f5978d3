-- ===== src/ArtifactStore/Fetch/Verified.antt =====
-- What `fetch` leaves on the disk, whether it returns or raises.
use qscat.Prelude.{
  String, ◌≡◌, refl, sym, ◌∙◌, Bool, true, false, Option, some, List, [], ◌⊎◌, inl, inr, Bool-cases,
}
use qscat.Prelude.Dict.{Dict, lookup}
use qscat.Python.{Value}
use qscat.ArtifactStore.Names.{Outcome, ok, ok-injective, Text, text_eq}
use qscat.ArtifactStore.Urls.{SplitResult}
use qscat.ArtifactStore.Pointer.{ArtifactEntry, ArtifactPointer, load_pointer}
use qscat.ArtifactStore.Fetch.{
  FilePath, Disk, Job, pointer_file, leave, path_eq, write, prepare, fetch, wanted_names, run_job,
  download_all,
}
use qscat.ArtifactStore.Fetch.Prepare.{
  IsPlaced, ArePlaced, lookup-ArePlaced, prepare-ArePlaced, Outcome-cases,
}
use qscat.ArtifactStore.Fetch.Deliver.{
  deliver-keeps, download_all-keeps, deliver-Unfailed, download_all-Unfailed, is_write_failure,
  path_eq_sound,
}

module _ {B : Type 0} (digest : B → Text) (opener : Text → Outcome B)
    (writes : Disk B → FilePath → B → Option (Option B)) where
  -- A file is the one that was there, or the target of a listed name: it was written with content that
  -- has the digest of the entry, or a write failed.
  abbrev pub IsAccounted :
      (FilePath → FilePath)
      → FilePath
      → Dict ArtifactEntry
      → Disk B
      → Bool
      → Disk B
      → FilePath
      → Type 0
  IsAccounted resolve base artifacts before failed disk q =
      (disk q ≡ before q)
      ⊎ ((name : String) × (entry : ArtifactEntry) × (lookup name artifacts ≡ some entry)
          × IsPlaced resolve base name q
          × (((content : B) × (disk q ≡ some content)
                × (text_eq (digest content) entry.sha256 ≡ true))
              ⊎ (failed ≡ true)))

  write-IsAccounted :
      (resolve : FilePath → FilePath) (base : FilePath) (artifacts : Dict ArtifactEntry)
      (before disk : Disk B) (failed : Bool) (name : String) (entry : ArtifactEntry)
      (target : FilePath) (content : B) (q : FilePath)
      → lookup name artifacts ≡ some entry
      → IsPlaced resolve base name target
      → text_eq (digest content) entry.sha256 ≡ true
      → IsAccounted resolve base artifacts before failed disk q
      → IsAccounted resolve base artifacts before failed (write disk target content) q
  write-IsAccounted resolve base artifacts before disk failed name entry target content q e p same
        h =
      elim (Bool-cases (path_eq target q)) [
        | inl here ↦
            rw here (
              inr (name, entry, e, rw (← path_eq_sound target q here) p, inl (content, refl, same)))
        | inr there ↦ rw there h
      ]

  leave-IsAccounted :
      (resolve : FilePath → FilePath) (base : FilePath) (artifacts : Dict ArtifactEntry)
      (before disk : Disk B) (name : String) (entry : ArtifactEntry) (target : FilePath)
      (left : Option B) (q : FilePath)
      → lookup name artifacts ≡ some entry
      → IsPlaced resolve base name target
      → IsAccounted resolve base artifacts before true disk q
      → IsAccounted resolve base artifacts before true (leave disk target left) q
  leave-IsAccounted resolve base artifacts before disk name entry target left q e p h =
      elim (Bool-cases (path_eq target q)) [
        | inl here ↦ rw here (inr (name, entry, e, rw (← path_eq_sound target q here) p, inr refl))
        | inr there ↦ rw there h
      ]

  abbrev Loop : Job → Disk B → Outcome (List FilePath) × Disk B
  Loop job before = download_all digest opener writes job.pointer job.targets [] job.wanted before

  run_job-IsAccounted :
      (resolve : FilePath → FilePath) (base : FilePath) (job : Job) (before : Disk B)
      → ArePlaced resolve base job.targets
      → (q : FilePath)
      → IsAccounted resolve base job.pointer.artifacts before
          (is_write_failure (Loop job before).0)
          (Loop job before).1
          q
  run_job-IsAccounted resolve base job before placed q =
      elim (Bool-cases (is_write_failure (Loop job before).0)) [
        | inl failed ↦ rw failed (
            download_all-keeps digest opener writes (Kept true) job.pointer job.targets
              (λ name entry target disk e t h.
                deliver-keeps digest opener writes (Kept true) job.pointer name entry target disk h
                  (written true name entry target disk e t h)
                  (λ left.
                    leave-IsAccounted resolve base job.pointer.artifacts before disk name entry
                      target left q e
                      (lookup-ArePlaced resolve base job.targets name target placed t) h))
              [] job.wanted before (inl refl))
        | inr fine ↦ rw fine (
            download_all-Unfailed digest opener writes (Kept false) job.pointer job.targets
              (λ name entry target disk e t h.
                deliver-Unfailed digest opener writes (Kept false) job.pointer name entry target
                  disk h (written false name entry target disk e t h))
              [] job.wanted before (inl refl) fine)
      ]
    where
      Kept : Bool → Disk B → Type 0
      Kept failed d = IsAccounted resolve base job.pointer.artifacts before failed d q

      written :
          (failed : Bool) (name : String) (entry : ArtifactEntry) (target : FilePath)
          (disk : Disk B)
          → lookup name job.pointer.artifacts ≡ some entry
          → lookup name job.targets ≡ some target
          → Kept failed disk
          → (content : B) → text_eq (digest content) entry.sha256 ≡ true
          → Kept failed (write disk target content)
      written failed name entry target disk e t h content same =
          write-IsAccounted resolve base job.pointer.artifacts before disk failed name entry target
            content q e (lookup-ArePlaced resolve base job.targets name target placed t) same h

  -- Of a pointer that loads: whatever `fetch` does, also when it raises half way, each path holds
  -- what it held, or is the target of a listed name, strictly below the resolved directory. Such a
  -- target holds content with the digest of its entry, unless `fetch` ends with a failed write.
  pub fetch-IsAccounted :
      {F : Type 0} (resolve : FilePath → FilePath) (urlsplit : Text → SplitResult)
      (lower : Text → Text) (directory : FilePath) (read : Option B → Option (Option (Value F)))
      (names : Option (List String)) (disk : Disk B) (p : ArtifactPointer)
      → load_pointer urlsplit lower (read (disk (pointer_file resolve directory))) ≡ ok p
      → (q : FilePath)
      → IsAccounted resolve
          (resolve directory)
          p.artifacts
          disk
          (is_write_failure
            (fetch digest opener writes resolve urlsplit lower directory read names disk).0)
          (fetch digest opener writes resolve urlsplit lower directory read names disk).1
          q
  unfolding fetch
  fetch-IsAccounted resolve urlsplit lower directory read names disk p h q =
      elim (Outcome-cases (
        prepare resolve urlsplit lower directory (read (disk (pointer_file resolve directory)))
          names)) [
            | inl (e, failed) ↦ rw failed (inl refl)
            | inr (job, ready) ↦ rw ready (
                given job (
                  prepare-ArePlaced resolve urlsplit lower directory
                    (read (disk (pointer_file resolve directory))) names job ready))
          ]
    where
      given :
          (job : Job)
          → (load_pointer urlsplit lower (read (disk (pointer_file resolve directory)))
              ≡ ok job.pointer)
            × (wanted_names names job.pointer ≡ job.wanted)
            × ArePlaced resolve (resolve directory) job.targets
          → IsAccounted resolve
              (resolve directory)
              p.artifacts
              disk
              (is_write_failure (run_job digest opener writes (ok job) disk).0)
              (run_job digest opener writes (ok job) disk).1
              q
      given job (loaded, _, placed) =
          rw (ok-injective (sym h ∙ loaded))
            (run_job-IsAccounted resolve (resolve directory) job disk placed q)
