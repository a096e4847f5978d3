-- ===== src/ArtifactStore/Fetch/Prepare.antt =====
-- The first loop of `fetch`: every target is proved before anything is downloaded.
use text.Mathlib.TextEquality.{eq_iff}
use qscat.Prelude.{
  String, ◌≡◌, refl, Bool, true, false, not, ◌||◌, Option, none, some, List, [], ◌∷◌, ◌⊎◌, any, All,
  arith, str_eq, Option-cases, inl, inr, Bool-cases,
}
use qscat.Prelude.Dict.{Dict, lookup, insert}
use qscat.Python.{Value}
use qscat.ArtifactStore.Names.{
  StoreError, outside, Outcome, ok, err, bind_inv, ok-injective, ◌>>=◌, Text,
}
use qscat.ArtifactStore.Urls.{SplitResult}
use qscat.ArtifactStore.Pointer.{ArtifactEntry, ArtifactPointer, load_pointer}
use qscat.ArtifactStore.Fetch.{
  FilePath, Disk, pointer_file, Job, is_inside, target_of, contained_target, prove_target,
  prove_targets, prepare, fetch, wanted_names, run_job,
}

abbrev pub fails {ℓ} : {A : Type ℓ} → Outcome A → Bool
fails (ok a) = false
fails (err e) = true

pub Outcome-cases {ℓ} :
    {A : Type ℓ} (m : Outcome A) → ((e : StoreError) × (m ≡ err e)) ⊎ ((a : A) × (m ≡ ok a))
Outcome-cases (ok a) = inr (a, refl)
Outcome-cases (err e) = inl (e, refl)

fails->>= {ℓ κ} :
    {A : Type ℓ} {B : Type κ} (m : Outcome A) (f : A → Outcome B)
    → fails m ≡ true
    → fails (m >>= f) ≡ true
fails->>= (ok a) f h = cc
fails->>= (err e) f h = refl

or_right : (a b : Bool) → a ≡ false → (a || b) ≡ true → b ≡ true
or_right a b h k = ground arith

run_job-fails :
    {B : Type 0} (digest : B → Text) (opener : Text → Outcome B)
    (writes : Disk B → FilePath → B → Option (Option B)) (m : Outcome Job) (disk : Disk B)
    → fails m ≡ true
    → (fails (run_job digest opener writes m disk).0 ≡ true)
      × ((run_job digest opener writes m disk).1 ≡ disk)
run_job-fails digest opener writes (ok job) disk h = cc
run_job-fails digest opener writes (err e) disk h = (refl, refl)

module _ (resolve : FilePath → FilePath) where
  -- Where a name goes, and that it is below the base.
  abbrev pub IsPlaced : FilePath → String → FilePath → Type 0
  IsPlaced base name t = (t ≡ target_of resolve base name) × (is_inside base t ≡ true)

  abbrev pub ArePlaced : FilePath → Dict FilePath → Type 0
  ArePlaced base = All (λ (e : String × FilePath). IsPlaced base e.0 e.1)

  contained_target-IsPlaced :
      (base : FilePath) (name : String) (t : FilePath)
      → contained_target resolve base name ≡ ok t
      → IsPlaced base name t
  unfolding contained_target
  contained_target-IsPlaced base name t h =
      elim (Bool-cases (is_inside base (target_of resolve base name))) [
        | inl inside ↦ rw (← ok-injective (rw inside at h)) (refl, inside)
        | inr beside ↦ absurd (rw beside at h)
      ]
    where
      absurd : err outside ≡ ok t → IsPlaced base name t
      absurd q = cc

  prove_target-IsPlaced :
      (base : FilePath) (artifacts : Dict ArtifactEntry) (name : String) (t : FilePath)
      → prove_target resolve base artifacts name ≡ ok t
      → IsPlaced base name t
  prove_target-IsPlaced base artifacts name t h = elim (Option-cases (lookup name artifacts)) [
    | inl gone ↦ ground arith
    | inr (e, found) ↦ contained_target-IsPlaced base name t (rw (prove_target, found) at h)
  ]

  ArePlaced-insert :
      (base : FilePath) (name : String) (t : FilePath) (d : Dict FilePath)
      → IsPlaced base name t
      → ArePlaced base d
      → ArePlaced base (insert name t d)
  ArePlaced-insert base name t [] h hs = (h, tt)
  ArePlaced-insert base name t ((j, u) ∷ d) h (g, hs) =
      ground (arith, ArePlaced-insert base name t d h hs)

  prove_targets-ArePlaced :
      (base : FilePath) (artifacts : Dict ArtifactEntry) (done : Dict FilePath)
      (names : List String) (d : Dict FilePath)
      → prove_targets resolve base artifacts done names ≡ ok d
      → ArePlaced base done
      → ArePlaced base d
  unfolding prove_targets
  prove_targets-ArePlaced base artifacts done [] d h hs = rw (← ok-injective h) hs
  prove_targets-ArePlaced base artifacts done (name ∷ names) d h hs =
      bind_inv (prove_target resolve base artifacts name) _ h λ t p h.
        prove_targets-ArePlaced base artifacts (insert name t done) names d h
          (ArePlaced-insert base name t done (prove_target-IsPlaced base artifacts name t p) hs)

  pub lookup-ArePlaced :
      (base : FilePath) (d : Dict FilePath) (name : String) (t : FilePath)
      → ArePlaced base d
      → lookup name d ≡ some t
      → IsPlaced base name t
  lookup-ArePlaced base [] name t hs h = cc
  lookup-ArePlaced base ((j, u) ∷ d) name t (g, hs) h = elim (Bool-cases (str_eq j name)) [
    | inl same ↦ ground (arith, eq_iff j name)
    | inr other ↦ lookup-ArePlaced base d name t hs (rw other at h)
  ]

  -- A name that `fetch` refuses: not listed, or with a target that is not below the base.
  abbrev pub is_refused : FilePath → Dict ArtifactEntry → String → Bool
  is_refused base artifacts name = elim (lookup name artifacts) [
    | none ↦ true
    | some e ↦ not (is_inside base (target_of resolve base name))
  ]

  prove_target-is_refused :
      (base : FilePath) (artifacts : Dict ArtifactEntry) (name : String) (t : FilePath)
      → prove_target resolve base artifacts name ≡ ok t
      → is_refused base artifacts name ≡ false
  unfolding contained_target
  prove_target-is_refused base artifacts name t h = ground arith

  prove_targets_refused :
      (base : FilePath) (artifacts : Dict ArtifactEntry) (done : Dict FilePath)
      (names : List String)
      → any (is_refused base artifacts) names ≡ true
      → fails (prove_targets resolve base artifacts done names) ≡ true
  unfolding prove_targets contained_target
  prove_targets_refused base artifacts done [] h = cc
  prove_targets_refused base artifacts done (name ∷ names) h =
      elim (Outcome-cases (prove_target resolve base artifacts name)) [
        | inl (e, p) ↦ rw p refl
        | inr (t, p) ↦ rw p (
            prove_targets_refused base artifacts (insert name t done) names (
              or_right (is_refused base artifacts name) _
                (prove_target-is_refused base artifacts name t p) h))
      ]

  prepare_refused :
      {F : Type 0} (urlsplit : Text → SplitResult) (lower : Text → Text) (directory : FilePath)
      (stored : Option (Option (Value F))) (names : Option (List String)) (p : ArtifactPointer)
      → load_pointer urlsplit lower stored ≡ ok p
      → any (is_refused (resolve directory) p.artifacts) (wanted_names names p) ≡ true
      → fails (prepare resolve urlsplit lower directory stored names) ≡ true
  unfolding prepare
  prepare_refused urlsplit lower directory stored names p h r = rw h (
      fails->>= _ _
        (prove_targets_refused (resolve directory) p.artifacts [] (wanted_names names p) r))

  -- If one wanted name is not in the pointer, or resolves to a place that is not strictly below the
  -- directory, `fetch` raises and leaves the disk as it was: nothing was downloaded before.
  pub fetch_refused :
      {B F : Type 0} (digest : B → Text) (opener : Text → Outcome B)
      (writes : Disk B → FilePath → B → Option (Option B)) (urlsplit : Text → SplitResult)
      (lower : Text → Text) (directory : FilePath) (read : Option B → Option (Option (Value F)))
      (names : Option (List String)) (disk : Disk B) (p : ArtifactPointer)
      → load_pointer urlsplit lower (read (disk (pointer_file resolve directory))) ≡ ok p
      → any (is_refused (resolve directory) p.artifacts) (wanted_names names p) ≡ true
      → (fails (fetch digest opener writes resolve urlsplit lower directory read names disk).0
          ≡ true)
        × ((fetch digest opener writes resolve urlsplit lower directory read names disk).1 ≡ disk)
  unfolding fetch
  fetch_refused digest opener writes urlsplit lower directory read names disk p h r =
      run_job-fails digest opener writes
        (prepare resolve urlsplit lower directory (read (disk (pointer_file resolve directory)))
          names)
        disk
        (prepare_refused urlsplit lower directory (read (disk (pointer_file resolve directory)))
          names p h r)

  pub prepare-ArePlaced :
      {F : Type 0} (urlsplit : Text → SplitResult) (lower : Text → Text) (directory : FilePath)
      (stored : Option (Option (Value F))) (names : Option (List String)) (job : Job)
      → prepare resolve urlsplit lower directory stored names ≡ ok job
      → (load_pointer urlsplit lower stored ≡ ok job.pointer)
        × (wanted_names names job.pointer ≡ job.wanted)
        × ArePlaced (resolve directory) job.targets
  unfolding prepare
  prepare-ArePlaced urlsplit lower directory stored names job h =
      bind_inv (load_pointer urlsplit lower stored) _ h λ p e1 h.
        bind_inv (prove_targets resolve (resolve directory) p.artifacts [] (wanted_names names p)) _
          h
          λ d e2 h. rw (← ok-injective h) (
            e1,
            refl,
            prove_targets-ArePlaced (resolve directory) p.artifacts [] (wanted_names names p) d e2
                tt,
          )
