-- ===== src/ArtifactStore/Names/Safe.antt =====
-- An accepted artifact name stays below the run directory, and needs no escaping in a URL.
use qscat.Prelude.{
  ℕ, zero, suc, ◌+◌, ◌≡◌, refl, Bool, true, ◌&&◌, ◌||◌, List, [], ◌∷◌, arith, all, length, Option,
  none, some, if◌then◌else◌, ◌==◌, ◌∙◌, ap,
}
use qscat.ArtifactStore.Names.{
  ok, Text, text_eq, push_code, split, is_component, check_components, check_name, is_name_code,
}

-- How a file system takes one component of a relative path: the depth below the directory where it
-- started, or `none` where `..` leaves that directory. An empty component and `.` stay.
abbrev pub step : ℕ → Text → Option ℕ
step depth c =
    if text_eq c [] || text_eq c (b'.' ∷ [])
    then some depth
    else if text_eq c (b'.' ∷ b'.' ∷ [])
    then elim depth [ zero ↦ none | suc d ↦ some d ]
    else some (suc depth)

abbrev pub then_walk : Option ℕ → (ℕ → Option ℕ) → Option ℕ
then_walk none f = none
then_walk (some d) f = f d

unfoldable pub walk : ℕ → List Text → Option ℕ
walk depth [] = some depth
walk depth (c ∷ cs) = then_walk (step depth c) (λ d. walk d cs)

step-is_component : (d : ℕ) (c : Text) → is_component c ≡ true → step d c ≡ some (suc d)
unfolding is_component
step-is_component d [] h = cc
step-is_component d (c ∷ s) h = ground arith

walk-check_components :
    (d : ℕ) (cs : List Text) → check_components cs ≡ ok tt → walk d cs ≡ some (d + length cs)
unfolding walk check_components
walk-check_components d [] h = ground arith
walk-check_components d (c ∷ cs) h =
    ground (arith, step-is_component d c, walk-check_components (suc d) cs)

-- Each component of an accepted name goes one level down, so the walk never leaves the directory
-- and ends strictly below it.
pub walk-check_name :
    (name : Text)
    → check_name name ≡ ok tt
    → walk 0 (split b'/' name) ≡ some (length (split b'/' name))
unfolding check_name
walk-check_name name h =
    walk-check_components 0 (split b'/' name) (ground arith) ∙ ap some (omega arith)

-- Components whose codes need no escaping.
abbrev plain : List Text → Bool
plain [] = true
plain (c ∷ cs) = all is_name_code c && plain cs

plain-check_components : (cs : List Text) → check_components cs ≡ ok tt → plain cs ≡ true
unfolding check_components is_component
plain-check_components [] h = refl
plain-check_components ([] ∷ cs) h = cc
plain-check_components ((c ∷ s) ∷ cs) h = ground (arith, plain-check_components cs)

plain-push_code : (c : ℕ) (cs : List Text) → plain (push_code c cs) ≡ (is_name_code c && plain cs)
plain-push_code c [] = ground arith
plain-push_code c (piece ∷ cs) = ground arith

all-split :
    (name : Text)
    → plain (split b'/' name) ≡ true
    → all (λ c. c == b'/' || is_name_code c) name ≡ true
unfolding split
all-split [] h = refl
all-split (c ∷ name) h = ground (arith, plain-push_code c (split b'/' name), all-split name)

-- Every code of an accepted name is a slash or one that stands unescaped in a path and in a URL.
check_name_codes :
    (name : Text) → check_name name ≡ ok tt → all (λ c. c == b'/' || is_name_code c) name ≡ true
unfolding check_name
check_name_codes name h = all-split name (plain-check_components (split b'/' name) (ground arith))
