-- ===== src/Mmr/Index/LeafIndices.antt =====
-- `Index::CalculateLeafIndex` inverts `LeafIndex::At`.
use libmw_core.Common.{ℕ, zero, suc, ◌+◌, ◌-◌, ◌/◌, ◌^◌, ◌≤◌, ◌<◌, ◌≡◌, refl, arith, powers}
use libmw_core.Common.{pow_pos, pow_suc, u64_mod, add64, le→leb, lt→leb}
use libmw_core.Common.{◌∙◌}
use libmw_core.Util.BitUtil.FillOnes.{fill_ones-pow, digit_count}
use libmw_core.Mmr.Index.{leaf_index_loop, calculate_leaf_index, at, is_leaf, get_leaf_index}
use libmw_core.Mmr.Index.{leaf_at, leaf_position}
use libmw_core.Mmr.Index.LeafHeights.{calculate_height-leaf_pos}
use libmw_core.Common.{◌*◌, true}
use libmw_core.Mmr.Index.Tree.{tree_size}
use libmw_core.Mmr.Index.Leaves.{leaf_pos, leaf_pos-ge, leaf_pos-lt, leaf_pos_upper}
use libmw_core.Mmr.Index.Leaves.{half, lower, upper, leaf_position-leaf_pos, leaf_pos-le}

half_size : (k : ℕ) → tree_size (suc k) / 2 ≡ tree_size k
half_size k = omega powers

leaf_index_loop-end : (fuel left acc : ℕ) → leaf_index_loop fuel 0 left acc ≡ acc
unfolding leaf_index_loop
leaf_index_loop-end zero left acc = refl
leaf_index_loop-end (suc fuel) left acc = refl

-- One round, as the peak fits into what is left or not.
leaf_index_loop-skip :
    (fuel k left acc : ℕ)
    → left < tree_size (suc k)
    → leaf_index_loop (suc fuel) (tree_size (suc k)) left acc
      ≡ leaf_index_loop fuel (tree_size k) left acc
unfolding leaf_index_loop
leaf_index_loop-skip fuel k left acc h =
    rw (half_size k, lt→leb (tree_size (suc k)) left h) (ground (arith, pow_pos k, pow_suc k))

leaf_index_loop-take :
    (fuel k left acc : ℕ)
    → 2 ^ suc k < u64_mod
    → acc + 2 ^ k < u64_mod
    → leaf_index_loop (suc fuel) (tree_size (suc k)) (tree_size (suc k) + left) acc
      ≡ leaf_index_loop fuel (tree_size k) left (acc + 2 ^ k)
unfolding leaf_index_loop
leaf_index_loop-take fuel k left acc h fits =
    let peak = tree_size (suc k) in
    let rest : peak + left - peak ≡ left = omega arith in
    let leaves : add64 acc (add64 peak 1 / 2) ≡ acc + 2 ^ k = omega powers in
    rw (half_size k, le→leb peak (peak + left) (omega arith), rest, leaves)
      (ground (arith, pow_pos k, pow_suc k))

leaf_index_loop-leaf_pos :
    (fuel k n acc : ℕ)
    → k ≤ fuel
    → k ≤ 64
    → n < 2 ^ k
    → acc + n < u64_mod
    → leaf_pos n + 1 < u64_mod
    → leaf_index_loop fuel (tree_size k) (leaf_pos n) acc ≡ acc + n
leaf_index_loop-leaf_pos fuel zero n acc h hk lt fits room =
    let e : acc ≡ acc + n = omega arith in leaf_index_loop-end fuel (leaf_pos n) acc ∙ e
leaf_index_loop-leaf_pos zero (suc k) n acc h hk lt fits room = elim h [ ]
leaf_index_loop-leaf_pos (suc fuel) (suc k) n acc h hk lt fits room = elim (half k n lt) [
  | lower l ↦
      leaf_index_loop-skip fuel k (leaf_pos n) acc (leaf_pos-lt k n (omega arith) l)
      ∙ leaf_index_loop-leaf_pos fuel k n acc (omega arith) (omega arith) l fits room
  | upper m l e ↦
      let shift = leaf_pos_upper k m n (omega arith) l e in
      rw (shift, leaf_index_loop-take fuel k (leaf_pos m) acc (omega powers) (omega arith))
        (leaf_index_loop-leaf_pos fuel k m (acc + 2 ^ k) (omega arith) (omega arith) l (omega arith)
            (omega arith)
          ∙ omega arith)
]

pub calculate_leaf_index-leaf_pos :
    (n : ℕ) → leaf_pos n + 1 < u64_mod → calculate_leaf_index (leaf_pos n) ≡ n
unfolding calculate_leaf_index
calculate_leaf_index-leaf_pos n fits =
    let (j, fuel, lo, hi) = digit_count 64 (leaf_pos n) (omega arith) in
    let ge = leaf_pos-ge n in
    rw (fill_ones-pow j (leaf_pos n) (omega arith) lo hi)
      (leaf_index_loop-leaf_pos 64 j n 0 fuel fuel (omega arith) (omega arith) fits ∙ omega arith)

-- `LeafIndex::At` of leaf `n` names the node that `Index::At` finds at its position, a leaf, and
-- `GetLeafIndex` of that node is `n` again.
pub get_leaf_index-leaf_at :
    (n : ℕ)
    → 2 * n + 1 < u64_mod
    → let i = leaf_at n in
      (i.node_index ≡ at (leaf_position n))
      × (is_leaf (at (leaf_position n)) ≡ true)
      × (get_leaf_index (at (leaf_position n)) ≡ n)
unfolding leaf_at at get_leaf_index
get_leaf_index-leaf_at n fits =
    let le = leaf_pos-le n in
    let p = leaf_position-leaf_pos n (omega arith) in
    let flat = calculate_height-leaf_pos n (omega arith) (omega arith) in
    rw (p, flat) (refl, refl, calculate_leaf_index-leaf_pos n (omega arith))
