-- ===== src/Dvr/Maps.antt =====
-- The element maps of libs/qscat/qscat/dvr/grid.py stay within the basis and cover it.
use qscat.Prelude.{
  ℕ, zero, suc, ◌+◌, ◌-◌, ◌*◌, ◌/◌, ◌%◌, ◌≤◌, ◌<◌, ◌≡◌, ◌≢◌, ◌⊎◌, ◌==◌, refl, inl, inr, Bool, true,
  false, not, ◌||◌, ◌&&◌, List, [], ◌∷◌, leb, ltb, arith,
}
use package.native.Mathlib.Decide.{ℕ_discrete}
use qscat.Dvr.{basis_size, span_start, arange_from, without, local_nodes, global_node, element_map}

abbrev pub has_node : ℕ → List ℕ → Bool
has_node j [] = false
has_node j (k ∷ ks) = (k == j) || has_node j ks

has_node-arange_from : (j k n : ℕ) → has_node j (arange_from k n) ≡ (leb k j && ltb j (k + n))
has_node-arange_from j k zero = ground arith
has_node-arange_from j k (suc n) = ground (arith, has_node-arange_from j (suc k) n)

has_node-without :
    (j i : ℕ) (ks : List ℕ) → has_node j (without i ks) ≡ (not (j == i) && has_node j ks)
has_node-without j i [] = ground arith
has_node-without j i (k ∷ ks) = ground (arith, has_node-without j i ks)

-- The retained nodes of an element: all but the two ends of the grid.
pub has_node-local_nodes :
    (tnel nq i j : ℕ)
    → has_node j (local_nodes tnel nq i)
      ≡ (ltb j nq && (not ((i == 0) && (j == 0)) && not (((i + 1) == tnel) && (j == (nq - 1)))))
unfolding local_nodes
has_node-local_nodes tnel nq i j = ground (
  arith,
  has_node-without j 0 (arange_from 0 nq),
  has_node-without j (nq - 1) (arange_from 0 nq),
  has_node-without j (nq - 1) (without 0 (arange_from 0 nq)),
  has_node-arange_from j 0 nq,
)

-- `(i + 1) q` for a later element.
mul_later : (i d q : ℕ) → (i + suc d) * q ≡ i * q + (q + d * q)
mul_later zero d q = ground arith
mul_later (suc i) d q = let ih = mul_later i d q in omega arith

div_mod : (n q : ℕ) → 1 ≤ q → (n ≡ (n / q) * q + n % q) × (n % q < q)
div_mod n q h = (grind arith, grind arith)

mul_le_cancel : (i t q : ℕ) → 1 ≤ q → i * q < t * q → i < t
mul_le_cancel i t q h k = grind arith

span_below : (i t q : ℕ) → i < t → i * q + q ≤ t * q
span_below i t q h = grind arith

abbrev Kept : ℕ → ℕ → ℕ → ℕ → Type 0
Kept tnel nq i j = (j < nq) × ((i ≡ 0 → j ≢ 0) × (i + 1 ≡ tnel → j ≢ nq - 1))

Kept-of_has_node : (tnel nq i j : ℕ) → has_node j (local_nodes tnel nq i) ≡ true → Kept tnel nq i j
Kept-of_has_node tnel nq i j h =
    let kept = has_node-local_nodes tnel nq i j in
    (ground arith, ((λ a b. ground arith), (λ a b. ground arith)))

has_node_of_Kept : (tnel nq i j : ℕ) → Kept tnel nq i j → has_node j (local_nodes tnel nq i) ≡ true
has_node_of_Kept tnel nq i j (small, (first, last)) =
    rw (has_node-local_nodes tnel nq i j) (ground arith)

-- The retained nodes of an element lie between the ends of the grid.
node_low : (tnel nq i j : ℕ) → 2 ≤ nq → Kept tnel nq i j → 1 ≤ span_start nq i + j
node_low tnel nq zero j h (small, (first, last)) = let some_node = first refl in omega arith
node_low tnel nq (suc i) j h kept = omega (arith, mul_later 0 i (nq - 1))

node_high :
    (tnel nq i j : ℕ) → 2 ≤ nq → i < tnel → Kept tnel nq i j → span_start nq i + j < tnel * (nq - 1)
node_high tnel nq i j h below (small, (first, last)) = elim (ℕ_discrete j (nq - 1)) [
  | yes top ↦
      let before : i + 1 < tnel = ground arith in
      omega (arith, span_below (i + 1) tnel (nq - 1) before, mul_later i 0 (nq - 1))
  | no inner ↦ omega (arith, span_below i tnel (nq - 1) below)
]

-- With a quadrature of at least two, every retained node of every element is a function of the basis,
-- and its index is one less than its place among all points.
pub element_map_within :
    (tnel nq i j : ℕ)
    → 2 ≤ nq
    → i < tnel
    → has_node j (element_map tnel nq i).0 ≡ true
    → (global_node nq i j < basis_size tnel nq) × (global_node nq i j + 1 ≡ span_start nq i + j)
unfolding element_map
element_map_within tnel nq i j h below held =
    let kept = Kept-of_has_node tnel nq i j held in
    let low = node_low tnel nq i j h kept in
    let high = node_high tnel nq i j h below kept in (omega arith, omega arith)

covers_first :
    (g q : ℕ) → g + 1 ≡ ((g + 1) / q) * q + (g + 1) % q → (g + 1) / q ≡ 0 → (g + 1) % q ≢ 0
covers_first g q split a b =
    let none_left : ((g + 1) / q) * q ≡ 0 = rw a (omega arith) in omega arith

-- Every function of the basis is a node of some element.
pub element_map_covers :
    (tnel nq g : ℕ)
    → 2 ≤ nq
    → g < basis_size tnel nq
    → (i j : ℕ) × (i < tnel)
      × (has_node j (element_map tnel nq i).0 ≡ true)
      × (global_node nq i j ≡ g)
unfolding element_map
element_map_covers tnel nq g h below =
    let (split, small) = div_mod (g + 1) (nq - 1) (omega arith) in
    let i_below : (g + 1) / (nq - 1) < tnel =
      mul_le_cancel ((g + 1) / (nq - 1)) tnel (nq - 1) (omega arith) (omega arith) in
    (
      (g + 1) / (nq - 1),
      (g + 1) % (nq - 1),
      i_below,
      has_node_of_Kept tnel nq ((g + 1) / (nq - 1)) ((g + 1) % (nq - 1))
          (omega arith, ((λ a b. covers_first g (nq - 1) split a b), (λ a b. omega arith))),
      omega arith,
    )

shared_nodes :
    (i d j k q : ℕ)
    → 1 ≤ q
    → j ≤ q
    → i * q + j ≡ (i + suc d) * q + k
    → (d ≡ 0) × ((j ≡ q) × (k ≡ 0))
shared_nodes i zero j k q h small same =
    let apart = mul_later i 0 q in (refl, (omega arith, omega arith))
shared_nodes i (suc d) j k q h small same =
    let apart = mul_later i (suc d) q in
    let more = mul_later 0 d q in (omega arith, (omega arith, omega arith))

-- Two elements share a function of the basis only if they are next to each other, and then it is the
-- last node of the one and the first of the other; within an element no two nodes share one.
pub element_map_shares :
    (tnel nq i d j k : ℕ)
    → 2 ≤ nq
    → i + d < tnel
    → has_node j (element_map tnel nq i).0 ≡ true
    → has_node k (element_map tnel nq (i + d)).0 ≡ true
    → global_node nq i j ≡ global_node nq (i + d) k
    → ((d ≡ 0) × (j ≡ k)) ⊎ ((d ≡ 1) × ((j ≡ nq - 1) × (k ≡ 0)))
unfolding element_map
element_map_shares tnel nq i d j k h below held held_later same =
    let kept = Kept-of_has_node tnel nq i j held in
    let kept_later = Kept-of_has_node tnel nq (i + d) k held_later in
    let low = node_low tnel nq i j h kept in
    let low_later = node_low tnel nq (i + d) k h kept_later in by_distance d (omega arith)
  where
    small_of : Kept tnel nq i j → j ≤ nq - 1
    small_of kept = omega (arith, kept.0)

    by_distance :
        (d : ℕ)
        → i * (nq - 1) + j ≡ (i + d) * (nq - 1) + k
        → ((d ≡ 0) × (j ≡ k)) ⊎ ((d ≡ 1) × ((j ≡ nq - 1) × (k ≡ 0)))
    by_distance zero e = inl (refl, omega arith)
    by_distance (suc d) e =
        let (near, (top, bottom)) =
          shared_nodes i d j k (nq - 1) (omega arith) (small_of (Kept-of_has_node tnel nq i j held))
            e in
        inr (omega arith, (top, bottom))
