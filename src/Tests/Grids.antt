-- ===== src/Tests/Grids.antt =====
-- The element maps of a grid of two elements with three nodes each.
use qscat.Prelude.{ℕ, ◌+◌, ◌-◌, ◌<◌, ◌≡◌, ◌⊎◌, refl, true, [], ◌∷◌, arith}
use qscat.Dvr.{basis_size, span_start, global_node, element_map}
use qscat.Dvr.Maps.{has_node, element_map_within, element_map_covers, element_map_shares}

worked :
    (element_map 2 3 0 ≡ (1 ∷ 2 ∷ [], 0 ∷ 1 ∷ [])) × (element_map 2 3 1 ≡ (0 ∷ 1 ∷ [], 1 ∷ 2 ∷ []))
unfolding element_map
worked = (refl, refl)

element_map_within_example :
    (global_node 3 1 1 < basis_size 2 3) × (global_node 3 1 1 + 1 ≡ span_start 3 1 + 1)
unfolding element_map
element_map_within_example = element_map_within 2 3 1 1 (omega arith) (omega arith) refl

element_map_covers_example :
    (i j : ℕ) × (i < 2) × (has_node j (element_map 2 3 i).0 ≡ true) × (global_node 3 i j ≡ 2)
element_map_covers_example = element_map_covers 2 3 2 (omega arith) (omega arith)

element_map_shares_example :
    ((◌≡◌ {A = ℕ} 1 0) × (◌≡◌ {A = ℕ} 2 0))
    ⊎ ((◌≡◌ {A = ℕ} 1 1) × ((◌≡◌ {A = ℕ} 2 (3 - 1)) × (◌≡◌ {A = ℕ} 0 0)))
unfolding element_map
element_map_shares_example =
    element_map_shares 2 3 0 1 2 0 (omega arith) (omega arith) refl refl refl
