-- ===== src/Dvr.antt =====
-- The index bookkeeping of libs/qscat/qscat/dvr/grid.py: how the nodes of the elements become the
-- functions of the basis. The points and the weights are complex numbers and are left out.
pub mod Maps
use qscat.Prelude.{
  ℕ, zero, suc, ◌+◌, ◌-◌, ◌*◌, Bool, true, false, not, ◌&&◌, ◌==◌, List, [], ◌∷◌, map,
  if◌then◌else◌,
}

-- `nall`
abbrev pub all_points : ℕ → ℕ → ℕ
all_points tnel nq = tnel * (nq - 1) + 1

-- `nb`
abbrev pub basis_size : ℕ → ℕ → ℕ
basis_size tnel nq = all_points tnel nq - 2

-- `element_span_all`: the first point of an element
abbrev pub span_start : ℕ → ℕ → ℕ
span_start nq i = i * (nq - 1)

-- `np.arange(n)`, from `k`
abbrev pub arange_from : ℕ → ℕ → List ℕ
arange_from k zero = []
arange_from k (suc n) = k ∷ arange_from (suc k) n

-- `local[local != j]`
abbrev pub without : ℕ → List ℕ → List ℕ
without j [] = []
without j (k ∷ ks) = let rest = without j ks in if k == j then rest else k ∷ rest

-- `local`: the first element loses its first node, the last element its last.
unfoldable pub local_nodes : ℕ → ℕ → ℕ → List ℕ
local_nodes tnel nq i =
    let first = (if i == 0 then without 0 (arange_from 0 nq) else arange_from 0 nq) in
    if (i + 1) == tnel then without (nq - 1) first else first

-- `(s + local) - 1` of one node
abbrev pub global_node : ℕ → ℕ → ℕ → ℕ
global_node nq i j = (span_start nq i + j) - 1

-- One entry of `element_maps`.
unfoldable pub element_map : ℕ → ℕ → ℕ → List ℕ × List ℕ
unfolding local_nodes
element_map tnel nq i = (local_nodes tnel nq i, map (global_node nq i) (local_nodes tnel nq i))
