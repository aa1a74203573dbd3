-- ===== src/Mmr/Index/LeafHeights.antt =====
-- What `CalculateHeight` finds at the leaves and between them.
use libmw_core.Common.{ℕ, suc, ◌+◌, ◌^◌, ◌<◌, ◌≡◌, arith, ◌∙◌, u64_mod}
use libmw_core.Mmr.Index.{calculate_height}
use libmw_core.Mmr.Index.Height.{calculate_height-tree_height}
use libmw_core.Mmr.Index.Leaves.{leaf_pos, leaf_pos_upper, leaf_pos-suc_le}
use libmw_core.Mmr.Index.Leaves.{half, lower, upper, tree_height-leaf_pos, parents_between}

-- A leaf below position 2^64 - 1 has a number below 2^63.
pub leaf_small : (n : ℕ) → n < u64_mod → leaf_pos n + 1 < u64_mod → n < 2 ^ 63
leaf_small n small fits = elim (half 63 n small) [
  | lower l ↦ l
  | upper m l e ↦ absurd (omega (arith, leaf_pos_upper 63 m n (omega arith) l e))
]

pub calculate_height-leaf_pos :
    (n : ℕ) → n < 2 ^ 63 → leaf_pos n + 1 < u64_mod → calculate_height (leaf_pos n) ≡ 0
calculate_height-leaf_pos n small fits =
    calculate_height-tree_height 64 (leaf_pos n) fits (omega arith)
    ∙ tree_height-leaf_pos 63 n (omega arith) small

-- Behind leaf `n`, up to the next leaf, the code finds parents.
pub calculate_height_between :
    (n i : ℕ) → n < 2 ^ 63 → leaf_pos n < i → i < leaf_pos (suc n) → 0 < calculate_height i
calculate_height_between n i small after before =
    let last = leaf_pos-suc_le 63 n (omega arith) small in
    rw (calculate_height-tree_height 64 i (omega arith) (omega arith))
      (parents_between 63 n i (omega arith) small after before)
