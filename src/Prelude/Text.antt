-- ===== src/Prelude/Text.antt =====
-- Texts: the characters of a text, substrings, joining and decimal numerals.
use Prim.Native.Nat.{ℕ, zero, suc, ◌/◌, ◌%◌}
use Prim.Native.String.{String}
use Prim.Native.String.{◌++◌ as ◌<>◌}
use mathlib.Core.Bool.{Bool, false, ◌||◌}
use mathlib.Core.List.{List, [], ◌∷◌}
use text.Mathlib.Text.{starts_with, ◌==◌ as str_eq}
use qscat.Prelude.Tests.{◌==◌, if◌then◌else◌}
pub use Prim.Native.String.{◌++◌ as ◌<>◌}

-- `for ch in text`
unfoldable pub characters : String → List String
characters String.[] = []
characters (String.◌∷◌ c s) = String.◌∷◌ c String.[] ∷ characters s

-- `part in text`
unfoldable pub has_part : String → String → Bool
has_part part String.[] = str_eq part ""
has_part part (String.◌∷◌ c s) = starts_with (String.◌∷◌ c s) part || has_part part s

abbrev pub contains : String → List String → Bool
contains k [] = false
contains k (x ∷ xs) = str_eq k x || contains k xs

digit : ℕ → String
digit d =
    if d == 0
    then "0"
    else if d == 1
    then "1"
    else if d == 2
    then "2"
    else if d == 3
    then "3"
    else if d == 4
    then "4"
    else if d == 5
    then "5"
    else if d == 6
    then "6"
    else if d == 7
    then "7"
    else if d == 8
    then "8"
    else "9"

show_loop : ℕ → ℕ → String → String
show_loop zero n acc = acc
show_loop (suc fuel) n acc =
    let shorter = show_loop fuel (n / 10) (digit (n % 10) <> acc) in
    if n / 10 == 0 then digit (n % 10) <> acc else shorter

-- The decimal numeral of a number: `n + 1` rounds are more than its digits.
unfoldable pub show_ℕ : ℕ → String
unfolding show_loop digit
show_ℕ n = show_loop (suc n) n ""
