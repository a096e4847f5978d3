-- ===== src/Python/Integers.antt =====
-- Python's `int` as signed numbers, as far as the sources compare, count and print them.
use qscat.Prelude.{ℕ, zero, suc, ◌+◌, Bool, List, [], ◌∷◌, String, ltb, if◌then◌else◌}
use qscat.Prelude.Text.{◌<>◌, show_ℕ}

-- `negsuc n` is -(n + 1).
pub data ℤ : Type 0 where
  pos : ℕ → ℤ
  negsuc : ℕ → ℤ

abbrev pub pos_part : ℤ → ℕ
pos_part (pos n) = n
pos_part (negsuc n) = 0

abbrev pub neg_part : ℤ → ℕ
neg_part (pos n) = 0
neg_part (negsuc n) = suc n

abbrev pub ltb_ℤ : ℤ → ℤ → Bool
ltb_ℤ a b = ltb (pos_part a + neg_part b) (pos_part b + neg_part a)

abbrev pub max_ℤ : ℤ → ℤ → ℤ
max_ℤ a b = if ltb_ℤ a b then b else a

abbrev pub min_ℤ : ℤ → ℤ → ℤ
min_ℤ a b = if ltb_ℤ b a then b else a

abbrev pub add_one : ℤ → ℤ
add_one (pos n) = pos (suc n)
add_one (negsuc zero) = pos zero
add_one (negsuc (suc n)) = negsuc n

-- `i, i + 1, ...`, n entries.
abbrev pub count_up : ℕ → ℕ → List ℤ
count_up i zero = []
count_up i (suc n) = pos i ∷ count_up (suc i) n

-- `list(range(stop))`: empty for a negative stop.
abbrev pub range : ℤ → List ℤ
range (pos n) = count_up 0 n
range (negsuc n) = []

-- `str(i)`
unfoldable pub show_ℤ : ℤ → String
unfolding show_ℕ
show_ℤ (pos n) = show_ℕ n
show_ℤ (negsuc n) = "-" <> show_ℕ (suc n)
