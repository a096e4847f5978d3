-- ===== src/ArtifactStore/Fetch/Deliver.antt =====
-- The second loop of `fetch`: what it leaves on the disk.
use qscat.Prelude.{
  String, ◌≡◌, refl, Bool, true, false, Option, none, some, List, [], ◌∷◌, if◌then◌else◌, arith,
}
use qscat.Prelude.Dict.{Dict, lookup}
use qscat.ArtifactStore.Names.{Outcome, ok, err, StoreError, write_failed, codes, Text, text_eq}
use qscat.ArtifactStore.Urls.{url_for}
use qscat.ArtifactStore.Pointer.{ArtifactEntry, ArtifactPointer}
use qscat.ArtifactStore.Fetch.{
  FilePath, Disk, path_eq, write, leave, put, holds, check_and_put, deliver, go_on, turn, noted,
  download_all,
}

pub text_eq_sound : (s t : Text) → text_eq s t ≡ true → s ≡ t
text_eq_sound [] [] h = refl
text_eq_sound [] (b ∷ t) h = cc
text_eq_sound (a ∷ s) [] h = cc
text_eq_sound (a ∷ s) (b ∷ t) h = ground (arith, text_eq_sound s t)

pub text_eq_refl : (s : Text) → text_eq s s ≡ true
text_eq_refl [] = refl
text_eq_refl (a ∷ s) = ground (arith, text_eq_refl s)

pub path_eq_sound : (s t : FilePath) → path_eq s t ≡ true → s ≡ t
path_eq_sound [] [] h = refl
path_eq_sound [] (b ∷ t) h = cc
path_eq_sound (a ∷ s) [] h = cc
path_eq_sound (a ∷ s) (b ∷ t) h = ground (arith, text_eq_sound a b, path_eq_sound s t)

path_eq_refl : (s : FilePath) → path_eq s s ≡ true
path_eq_refl [] = refl
path_eq_refl (a ∷ s) = ground (arith, text_eq_refl a, path_eq_refl s)

if-keeps {ℓ κ} :
    {A : Type ℓ} (P : A → Type κ) (b : Bool) (x y : A)
    → (b ≡ true → P x)
    → (b ≡ false → P y)
    → P (if b then x else y)
if-keeps P true x y p q = p refl
if-keeps P false x y p q = q refl

go_on-keeps :
    {B : Type 0} (P : Disk B → Type 0) (step : Outcome Bool × Disk B)
    (k : Bool → Disk B → Outcome (List FilePath) × Disk B)
    → P step.1
    → ((new : Bool) (d : Disk B) → P d → P (k new d).1)
    → P (go_on step k).1
go_on-keeps P (ok new, d) k p rest = rest new d p
go_on-keeps P (err e, d) k p rest = p

module _ {B : Type 0} (digest : B → Text) (opener : Text → Outcome B)
    (writes : Disk B → FilePath → B → Option (Option B)) where
  put-keeps :
      (P : Disk B → Type 0) (target : FilePath) (content : B) (disk : Disk B)
      → P (write disk target content)
      → ((left : Option B) → P (leave disk target left))
      → P (put digest opener writes disk target content).1
  put-keeps P target content disk done broken = by_write (writes disk target content)
    where
      by_write :
          (w : Option (Option B))
          → P
              (elim w as (λ (x : Option (Option B)). Outcome Bool × Disk B) [
                | none ↦ (ok true, write disk target content)
                | some left ↦ (err write_failed, leave disk target left)
              ]).1
      by_write none = done
      by_write (some left) = broken left

  check_and_put-keeps :
      (P : Disk B → Type 0) (entry : ArtifactEntry) (target : FilePath) (disk : Disk B)
      (m : Outcome B)
      → P disk
      → ((content : B)
          → text_eq (digest content) entry.sha256 ≡ true
          → P (write disk target content))
      → ((left : Option B) → P (leave disk target left))
      → P (check_and_put digest opener writes entry target disk m).1
  check_and_put-keeps P entry target disk (err e) p k broken = p
  check_and_put-keeps P entry target disk (ok content) p k broken =
      if-keeps (λ (step : Outcome Bool × Disk B). P step.1) (text_eq (digest content) entry.sha256)
        _ _ (λ same. put-keeps P target content disk (k content same) broken) (λ _. p)

  -- A delivery leaves the disk as it is, or writes content with the digest of the entry.
  pub deliver-keeps :
      (P : Disk B → Type 0) (pointer : ArtifactPointer) (name : String) (entry : ArtifactEntry)
      (target : FilePath) (disk : Disk B)
      → P disk
      → ((content : B)
          → text_eq (digest content) entry.sha256 ≡ true
          → P (write disk target content))
      → ((left : Option B) → P (leave disk target left))
      → P (deliver digest opener writes pointer name entry target disk).1
  unfolding deliver
  deliver-keeps P pointer name entry target disk p k broken =
      if-keeps (λ (step : Outcome Bool × Disk B). P step.1)
        (holds digest (disk target) entry.sha256) _ _ (λ _. p)
        (λ _. check_and_put-keeps P entry target disk _ p k broken)

  check_and_put-holds :
      (entry : ArtifactEntry) (target : FilePath) (disk : Disk B) (m : Outcome B) (new : Bool)
      → (check_and_put digest opener writes entry target disk m).0 ≡ ok new
      → holds digest
          ((check_and_put digest opener writes entry target disk m).1 target)
          entry.sha256
        ≡ true
  check_and_put-holds entry target disk (err e) new h = cc
  check_and_put-holds entry target disk (ok content) new h = ground (arith, path_eq_refl target)

  pub deliver-holds :
      (pointer : ArtifactPointer) (name : String) (entry : ArtifactEntry) (target : FilePath)
      (disk : Disk B) (new : Bool)
      → (deliver digest opener writes pointer name entry target disk).0 ≡ ok new
      → holds digest
          ((deliver digest opener writes pointer name entry target disk).1 target)
          entry.sha256
        ≡ true
  unfolding deliver
  deliver-holds pointer name entry target disk new h = ground (
    arith,
    check_and_put-holds entry target disk
        (opener (url_for pointer.url_prefix (codes name) entry.sha256)) new,
  )

  pub turn-keeps :
      (P : Disk B → Type 0) (pointer : ArtifactPointer) (name : String)
      (entry : Option ArtifactEntry) (target : Option FilePath) (disk : Disk B)
      (k : FilePath → Bool → Disk B → Outcome (List FilePath) × Disk B)
      → P disk
      → ((e : ArtifactEntry) (t : FilePath)
          → entry ≡ some e
          → target ≡ some t
          → P (deliver digest opener writes pointer name e t disk).1)
      → ((t : FilePath) (new : Bool) (d : Disk B) → P d → P (k t new d).1)
      → P (turn digest opener writes pointer name entry target disk k).1
  turn-keeps P pointer name none target disk k p one rest = p
  turn-keeps P pointer name (some e) none disk k p one rest = p
  turn-keeps P pointer name (some e) (some t) disk k p one rest =
      go_on-keeps P (deliver digest opener writes pointer name e t disk) (k t) (one e t refl refl)
        (rest t)

  -- What every delivery keeps, the whole loop keeps.
  pub download_all-keeps :
      (P : Disk B → Type 0) (pointer : ArtifactPointer) (targets : Dict FilePath)
      → ((name : String) (entry : ArtifactEntry) (target : FilePath) (disk : Disk B)
          → lookup name pointer.artifacts ≡ some entry
          → lookup name targets ≡ some target
          → P disk
          → P (deliver digest opener writes pointer name entry target disk).1)
      → (written : List FilePath) (names : List String) (disk : Disk B) → P disk
      → P (download_all digest opener writes pointer targets written names disk).1
  unfolding download_all
  download_all-keeps P pointer targets one written [] disk p = p
  download_all-keeps P pointer targets one written (name ∷ names) disk p =
      turn-keeps P pointer name (lookup name pointer.artifacts) (lookup name targets) disk _ p
        (λ e t h g. one name e t disk h g p)
        (λ t new d q. download_all-keeps P pointer targets one (noted written t new) names d q)

-- The exception that a failed write raises.
abbrev pub is_write_failure {ℓ} : {A : Type ℓ} → Outcome A → Bool
is_write_failure (err write_failed) = true
is_write_failure _ = false

module _ {B : Type 0} (digest : B → Text) (opener : Text → Outcome B)
    (writes : Disk B → FilePath → B → Option (Option B)) where
  -- Where no write fails, a delivery leaves the disk as it is or writes verified content.
  abbrev Unfailed : (Disk B → Type 0) → Outcome Bool × Disk B → Type 0
  Unfailed P step = is_write_failure step.0 ≡ false → P step.1

  put-Unfailed :
      (P : Disk B → Type 0) (target : FilePath) (content : B) (disk : Disk B)
      → P (write disk target content)
      → Unfailed P (put digest opener writes disk target content)
  put-Unfailed P target content disk done = by_write (writes disk target content)
    where
      by_write :
          (w : Option (Option B))
          → Unfailed P (elim w as (λ (x : Option (Option B)). Outcome Bool × Disk B) [
            | none ↦ (ok true, write disk target content)
            | some left ↦ (err write_failed, leave disk target left)
          ])
      by_write none h = done
      by_write (some left) h = cc

  check_and_put-Unfailed :
      (P : Disk B → Type 0) (entry : ArtifactEntry) (target : FilePath) (disk : Disk B)
      (m : Outcome B)
      → P disk
      → ((content : B)
          → text_eq (digest content) entry.sha256 ≡ true
          → P (write disk target content))
      → Unfailed P (check_and_put digest opener writes entry target disk m)
  check_and_put-Unfailed P entry target disk (err e) p k = λ h. p
  check_and_put-Unfailed P entry target disk (ok content) p k =
      if-keeps (Unfailed P) (text_eq (digest content) entry.sha256) _ _
        (λ same. put-Unfailed P target content disk (k content same)) (λ _ h. p)

  pub deliver-Unfailed :
      (P : Disk B → Type 0) (pointer : ArtifactPointer) (name : String) (entry : ArtifactEntry)
      (target : FilePath) (disk : Disk B)
      → P disk
      → ((content : B)
          → text_eq (digest content) entry.sha256 ≡ true
          → P (write disk target content))
      → is_write_failure (deliver digest opener writes pointer name entry target disk).0 ≡ false
      → P (deliver digest opener writes pointer name entry target disk).1
  unfolding deliver
  deliver-Unfailed P pointer name entry target disk p k =
      if-keeps (Unfailed P) (holds digest (disk target) entry.sha256) _ _ (λ _ h. p)
        (λ _. check_and_put-Unfailed P entry target disk _ p k)

  go_on-Unfailed :
      (P : Disk B → Type 0) (step : Outcome Bool × Disk B)
      (k : Bool → Disk B → Outcome (List FilePath) × Disk B)
      → Unfailed P step
      → ((new : Bool) (d : Disk B) → P d → is_write_failure (k new d).0 ≡ false → P (k new d).1)
      → is_write_failure (go_on step k).0 ≡ false
      → P (go_on step k).1
  go_on-Unfailed P (ok new, d) k p rest h = rest new d (p refl) h
  go_on-Unfailed P (err write_failed, d) k p rest h = cc
  go_on-Unfailed P (err e, d) k p rest h = p (same_failure e h)
    where
      same_failure :
          (e : StoreError)
          → is_write_failure {A = List FilePath} (err e) ≡ false
          → is_write_failure {A = Bool} (err e) ≡ false
      same_failure e h = ground (arith, h)

  turn-Unfailed :
      (P : Disk B → Type 0) (pointer : ArtifactPointer) (name : String)
      (entry : Option ArtifactEntry) (target : Option FilePath) (disk : Disk B)
      (k : FilePath → Bool → Disk B → Outcome (List FilePath) × Disk B)
      → P disk
      → ((e : ArtifactEntry) (t : FilePath)
          → entry ≡ some e
          → target ≡ some t
          → Unfailed P (deliver digest opener writes pointer name e t disk))
      → ((t : FilePath) (new : Bool) (d : Disk B)
          → P d
          → is_write_failure (k t new d).0 ≡ false
          → P (k t new d).1)
      → is_write_failure (turn digest opener writes pointer name entry target disk k).0 ≡ false
      → P (turn digest opener writes pointer name entry target disk k).1
  turn-Unfailed P pointer name none target disk k p one rest h = p
  turn-Unfailed P pointer name (some e) none disk k p one rest h = p
  turn-Unfailed P pointer name (some e) (some t) disk k p one rest h =
      go_on-Unfailed P (deliver digest opener writes pointer name e t disk) (k t)
        (one e t refl refl) (rest t) h

  -- What every delivery without a failed write keeps, a loop without one keeps.
  pub download_all-Unfailed :
      (P : Disk B → Type 0) (pointer : ArtifactPointer) (targets : Dict FilePath)
      → ((name : String) (entry : ArtifactEntry) (target : FilePath) (disk : Disk B)
          → lookup name pointer.artifacts ≡ some entry
          → lookup name targets ≡ some target
          → P disk
          → is_write_failure (deliver digest opener writes pointer name entry target disk).0 ≡ false
          → P (deliver digest opener writes pointer name entry target disk).1)
      → (written : List FilePath) (names : List String) (disk : Disk B) → P disk
      → is_write_failure (download_all digest opener writes pointer targets written names disk).0
        ≡ false
      → P (download_all digest opener writes pointer targets written names disk).1
  unfolding download_all
  download_all-Unfailed P pointer targets one written [] disk p h = p
  download_all-Unfailed P pointer targets one written (name ∷ names) disk p h =
      turn-Unfailed P pointer name (lookup name pointer.artifacts) (lookup name targets) disk _ p
        (λ e t l g. one name e t disk l g p)
        (λ t new d q. download_all-Unfailed P pointer targets one (noted written t new) names d q) h
