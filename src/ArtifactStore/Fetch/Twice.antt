-- ===== src/ArtifactStore/Fetch/Twice.antt =====
-- A `fetch` that returns has every wanted artifact in place, and a second one downloads nothing.
use qscat.Prelude.{
  String, ◌≡◌, refl, sym, ◌∙◌, true, false, Option, some, List, [], ◌∷◌, inl, inr, All,
}
use qscat.Prelude.Dict.{Dict, lookup}
use qscat.Python.{Value}
use qscat.ArtifactStore.Names.{Outcome, ok, ok-injective, Text}
use qscat.ArtifactStore.Urls.{SplitResult}
use qscat.ArtifactStore.Pointer.{ArtifactEntry, ArtifactPointer, load_pointer}
use qscat.ArtifactStore.Fetch.{
  FilePath, Disk, Job, pointer_file, path_eq, target_of, prepare, fetch, wanted_names, run_job,
  holds,
}
use qscat.ArtifactStore.Fetch.Prepare.{
  ArePlaced, lookup-ArePlaced, prepare-ArePlaced, Outcome-cases,
}
use qscat.ArtifactStore.Fetch.Deliver.{deliver-keeps, download_all-keeps}
use qscat.ArtifactStore.Fetch.Complete.{Agree, IsDelivered, download_all-All, download_all_again}

-- Listed names that resolve to one place have one digest.
abbrev pub Separate : (FilePath → FilePath) → FilePath → Dict ArtifactEntry → Type 0
Separate resolve base artifacts =
    (n m : String) (e f : ArtifactEntry)
    → lookup n artifacts ≡ some e
    → lookup m artifacts ≡ some f
    → target_of resolve base n ≡ target_of resolve base m
    → e.sha256 ≡ f.sha256

-- No listed name resolves to the pointer file.
abbrev pub IsApart : (FilePath → FilePath) → FilePath → Dict ArtifactEntry → Type 0
IsApart resolve directory artifacts =
    (n : String) (e : ArtifactEntry)
    → lookup n artifacts ≡ some e
    → path_eq (target_of resolve (resolve directory) n) (pointer_file resolve directory) ≡ false

Separate-Agree :
    (resolve : FilePath → FilePath) (base : FilePath) (p : ArtifactPointer)
    (targets : Dict FilePath)
    → Separate resolve base p.artifacts
    → ArePlaced resolve base targets
    → Agree p targets
Separate-Agree resolve base p targets s placed n m e f t l k g h = s n m e f l k (
    sym (lookup-ArePlaced resolve base targets n t placed g).0
    ∙ (lookup-ArePlaced resolve base targets m t placed h).0)

-- The file at the target of a name has the digest of the name's entry.
abbrev pub IsFetched :
    {B : Type 0}
    → (B → Text)
    → (FilePath → FilePath)
    → FilePath
    → Dict ArtifactEntry
    → Disk B
    → String
    → Type 0
IsFetched digest resolve base artifacts disk name =
    (entry : ArtifactEntry) × (lookup name artifacts ≡ some entry)
    × (holds digest (disk (target_of resolve base name)) entry.sha256 ≡ true)

IsDelivered-IsFetched :
    {B : Type 0} (digest : B → Text) (resolve : FilePath → FilePath) (base : FilePath)
    (p : ArtifactPointer) (targets : Dict FilePath) (disk : Disk B)
    → ArePlaced resolve base targets
    → (names : List String) → All (IsDelivered digest p targets disk) names
    → All (IsFetched digest resolve base p.artifacts disk) names
IsDelivered-IsFetched digest resolve base p targets disk placed [] ds = tt
IsDelivered-IsFetched digest resolve base p targets disk placed (name ∷ names) (d, ds) = (
  (
    d.entry,
    d.listed,
    rw (← (lookup-ArePlaced resolve base targets name d.target placed d.placed).0) d.verified,
  ),
  IsDelivered-IsFetched digest resolve base p targets disk placed names ds,
)

module _ {B F : Type 0} (digest : B → Text) (opener : Text → Outcome B)
    (writes : Disk B → FilePath → B → Option (Option B)) (resolve : FilePath → FilePath)
    (urlsplit : Text → SplitResult) (lower : Text → Text) (directory : FilePath)
    (read : Option B → Option (Option (Value F))) (names : Option (List String)) (disk : Disk B)
    (p : ArtifactPointer) (ws : List FilePath) where
  abbrev Ready : Job → Type 0
  Ready job =
      (load_pointer urlsplit lower (read (disk (pointer_file resolve directory))) ≡ ok job.pointer)
      × (wanted_names names job.pointer ≡ job.wanted)
      × ArePlaced resolve (resolve directory) job.targets

  -- The names of a job whose loop has returned.
  job-All :
      (job : Job)
      → Ready job
      → load_pointer urlsplit lower (read (disk (pointer_file resolve directory))) ≡ ok p
      → Separate resolve (resolve directory) p.artifacts
      → (run_job digest opener writes (ok job) disk).0 ≡ ok ws
      → All
          (IsDelivered digest job.pointer job.targets
            (run_job digest opener writes (ok job) disk).1)
          job.wanted
  job-All job (loaded, _, placed) h s r =
      download_all-All digest opener writes job.pointer job.targets
        (Separate-Agree resolve (resolve directory) job.pointer job.targets
          (rw (← ok-injective (sym h ∙ loaded)) s) placed)
        [] job.wanted disk ws r

  -- Where a pointer loads, names that resolve to one place have one digest, and `fetch` returns:
  -- then every wanted name is listed, and the file at its target has the digest of its entry.
  pub fetch-IsFetched :
      load_pointer urlsplit lower (read (disk (pointer_file resolve directory))) ≡ ok p
      → Separate resolve (resolve directory) p.artifacts
      → (fetch digest opener writes resolve urlsplit lower directory read names disk).0 ≡ ok ws
      → All
          (IsFetched digest resolve
            (resolve directory)
            p.artifacts
            (fetch digest opener writes resolve urlsplit lower directory read names disk).1)
          (wanted_names names p)
  unfolding fetch
  fetch-IsFetched h s r =
      elim (Outcome-cases (
        prepare resolve urlsplit lower directory (read (disk (pointer_file resolve directory)))
          names)) [
            | inl (e, failed) ↦ cc
            | inr (job, ready) ↦ rw ready (
                given job
                  (prepare-ArePlaced resolve urlsplit lower directory
                    (read (disk (pointer_file resolve directory))) names job ready)
                  (rw ready at r))
          ]
    where
      given :
          (job : Job)
          → Ready job
          → (run_job digest opener writes (ok job) disk).0 ≡ ok ws
          → All
              (IsFetched digest resolve
                (resolve directory)
                p.artifacts
                (run_job digest opener writes (ok job) disk).1)
              (wanted_names names p)
      given job ready r =
          rw (ok-injective (sym h ∙ ready.0), ready.1)
            (IsDelivered-IsFetched digest resolve (resolve directory) job.pointer job.targets
              (run_job digest opener writes (ok job) disk).1 ready.2 job.wanted
              (job-All job ready h s r))

  -- What leaves the pointer file alone leaves the pointer alone.
  job_keeps_pointer :
      (job : Job)
      → Ready job
      → load_pointer urlsplit lower (read (disk (pointer_file resolve directory))) ≡ ok p
      → IsApart resolve directory p.artifacts
      → (run_job digest opener writes (ok job) disk).1 (pointer_file resolve directory)
        ≡ disk (pointer_file resolve directory)
  job_keeps_pointer job (loaded, _, placed) h apart =
      download_all-keeps digest opener writes
        (λ d. d (pointer_file resolve directory) ≡ disk (pointer_file resolve directory))
        job.pointer job.targets
        (λ name entry target now e t kept.
          let elsewhere : path_eq target (pointer_file resolve directory) ≡ false =
            rw ((lookup-ArePlaced resolve (resolve directory) job.targets name target placed t).0)
              (apart name entry (rw (ok-injective (sym h ∙ loaded)) e)) in
          deliver-keeps digest opener writes
            (λ d. d (pointer_file resolve directory) ≡ disk (pointer_file resolve directory))
            job.pointer name entry target now kept (λ content same. rw elsewhere kept)
            (λ left. rw elsewhere kept))
        [] job.wanted disk refl

  -- Where a pointer loads, names that resolve to one place have one digest, no listed name resolves to
  -- the pointer file, and a first `fetch` returns: a second `fetch`, which reads the pointer again,
  -- returns the empty list and leaves the disk as it is, whatever opener and writes it is given.
  pub fetch_twice :
      load_pointer urlsplit lower (read (disk (pointer_file resolve directory))) ≡ ok p
      → Separate resolve (resolve directory) p.artifacts
      → IsApart resolve directory p.artifacts
      → (fetch digest opener writes resolve urlsplit lower directory read names disk).0 ≡ ok ws
      → (opener' : Text → Outcome B) (writes' : Disk B → FilePath → B → Option (Option B))
      → fetch digest opener' writes' resolve urlsplit lower directory read names
          (fetch digest opener writes resolve urlsplit lower directory read names disk).1
        ≡ (ok [], (fetch digest opener writes resolve urlsplit lower directory read names disk).1)
  unfolding fetch
  fetch_twice h s apart r opener' writes' = elim (Outcome-cases prepared) [
    | inl (e, failed) ↦ cc
    | inr (job, ready) ↦
        let placed =
          prepare-ArePlaced resolve urlsplit lower directory
            (read (disk (pointer_file resolve directory))) names job ready in
        rw (ready, job_keeps_pointer job placed h apart, ready)
          (download_all_again digest opener' writes' job.pointer job.targets [] job.wanted
            (run_job digest opener writes (ok job) disk).1 (job-All job placed h s (rw ready at r)))
  ]
    where
      prepared : Outcome Job
      prepared =
          prepare resolve urlsplit lower directory (read (disk (pointer_file resolve directory)))
            names
