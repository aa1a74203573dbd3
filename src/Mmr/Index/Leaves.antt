-- ===== src/Mmr/Index/Leaves.antt =====
-- Where the leaves stand: `LeafIndex::At` and `Index::CalculateLeafIndex`.
use libmw_core.Common.{ℕ, zero, suc, ◌+◌, ◌-◌, ◌*◌, ◌^◌, ◌≤◌, ◌<◌, ◌≡◌, arith, powers}
use libmw_core.Common.{◌∙◌, lt-or-le, inl, inr, ◌⊎◌, pow_pos}
use libmw_core.Common.{u64_mod}
use libmw_core.Util.BitUtil.CountBits.{digit_sum, digit_sum-zero, digit_sum_word}
use libmw_core.Util.BitUtil.CountBits.{
  digit_sum-top_one, digit_sum-le_self, digit_sum-suc_le, digit_sum-le, count_bits_set-digit_sum,
}
use libmw_core.Mmr.Index.{leaf_position}
use libmw_core.Mmr.Index.Tree.{tree_size, tree_height, in_left, in_right, at_root, place}
use libmw_core.Mmr.Index.Tree.{tree_height-left, height_in_right, height_at_root}
use libmw_core.Mmr.Index.Tree.{tree_height-zero}

-- Leaf `n` has n leaves before it, and every parent whose subtree ends there: 2 n minus the number
-- of subtrees that are left open.
pub leaf_pos : ℕ → ℕ
leaf_pos n = 2 * n - digit_sum 64 n

pub leaf_position-leaf_pos : (n : ℕ) → 2 * n < u64_mod → leaf_position n ≡ leaf_pos n
unfolding leaf_position leaf_pos
leaf_position-leaf_pos n h =
    rw (count_bits_set-digit_sum n (omega arith)) (omega (arith, digit_sum-le_self 64 n))

pub leaf_pos-zero : leaf_pos 0 ≡ 0
unfolding leaf_pos
leaf_pos-zero = omega (arith, digit_sum-zero 64)

pub leaf_pos-ge : (n : ℕ) → n ≤ leaf_pos n
unfolding leaf_pos
leaf_pos-ge n = omega (arith, digit_sum-le_self 64 n)

pub leaf_pos-le : (n : ℕ) → leaf_pos n ≤ 2 * n
unfolding leaf_pos
leaf_pos-le n = omega arith

-- The leaves of the right half of a tree stand as those of the left half do, one subtree later.
pub leaf_pos-top :
    (k m : ℕ) → k < 64 → m < 2 ^ k → leaf_pos (2 ^ k + m) ≡ tree_size (suc k) + leaf_pos m
unfolding leaf_pos
leaf_pos-top k m h lt = omega (
  powers,
  digit_sum_word (suc k) (2 ^ k + m) (omega arith) (omega powers),
  digit_sum_word k m (omega arith) lt,
  digit_sum-top_one k m lt,
  digit_sum-le_self k m,
)

-- A leaf number below 2^(k+1): in the left half, or 2^k and a number of the left half.
pub data Half (k n : ℕ) : Type 0 where
  lower : n < 2 ^ k → Half k n
  upper : (m : ℕ) → m < 2 ^ k → n ≡ 2 ^ k + m → Half k n

pub half : (k n : ℕ) → n < 2 ^ suc k → Half k n
half k n h = elim (lt-or-le n (2 ^ k)) [
  | inl l ↦ lower l
  | inr above ↦ upper (n - 2 ^ k) (omega powers) (omega arith)
]

pub leaf_pos_upper :
    (k m n : ℕ) → k < 64 → m < 2 ^ k → n ≡ 2 ^ k + m → leaf_pos n ≡ tree_size (suc k) + leaf_pos m
leaf_pos_upper k m n h lt e = rw e (leaf_pos-top k m h lt)

pub leaf_pos-lt : (k n : ℕ) → k ≤ 64 → n < 2 ^ k → leaf_pos n < tree_size (suc k)
leaf_pos-lt zero n h lt = let e : n ≡ 0 = omega arith in rw (e, leaf_pos-zero) (omega arith)
leaf_pos-lt (suc k) n h lt = elim (half k n lt) [
  | lower l ↦ omega (powers, leaf_pos-lt k n (omega arith) l)
  | upper m l e ↦ omega (powers, leaf_pos_upper k m n h l e, leaf_pos-lt k m (omega arith) l)
]

-- A leaf has height 0.
pub tree_height-leaf_pos : (k n : ℕ) → k ≤ 64 → n < 2 ^ k → tree_height (suc k) (leaf_pos n) ≡ 0
tree_height-leaf_pos zero n h lt =
    let e : n ≡ 0 = omega arith in rw (e, leaf_pos-zero) (tree_height-zero 1)
tree_height-leaf_pos (suc k) n h lt = elim (half k n lt) [
  | lower l ↦
      tree_height-left (suc k) (leaf_pos n) (leaf_pos-lt k n (omega arith) l)
      ∙ tree_height-leaf_pos k n (omega arith) l
  | upper m l e ↦
      height_in_right (suc k) (leaf_pos m) (leaf_pos n) (leaf_pos-lt k m (omega arith) l)
        (leaf_pos_upper k m n h l e)
      ∙ tree_height-leaf_pos k m (omega arith) l
]

-- The next leaf stands in the same tree, or just behind it.
pub leaf_pos-suc_le : (k n : ℕ) → k < 64 → n < 2 ^ k → leaf_pos (suc n) ≤ tree_size (suc k)
leaf_pos-suc_le k n h lt = elim (lt-or-le (suc n) (2 ^ k)) [
  | inl l ↦ omega (arith, leaf_pos-lt k (suc n) (omega arith) l)
  | inr over ↦ omega (powers, leaf_pos-zero, leaf_pos_upper k 0 (suc n) h (pow_pos k) (omega arith))
]

-- The next leaf of the right half, seen from the left half.
leaf_pos-suc_upper :
    (k m n : ℕ)
    → suc k < 64
    → m < 2 ^ k
    → n ≡ 2 ^ k + m
    → (leaf_pos (suc n) ≡ tree_size (suc k) + leaf_pos (suc m))
      ⊎ (leaf_pos (suc m) ≡ tree_size (suc k))
leaf_pos-suc_upper k m n h lt e = elim (lt-or-le (suc m) (2 ^ k)) [
  | inl l ↦ inl (leaf_pos_upper k (suc m) (suc n) (omega arith) l (omega arith))
  | inr over ↦ inr (
      omega
        (powers, leaf_pos-zero, leaf_pos_upper k 0 (suc m) (omega arith) (pow_pos k) (omega arith)))
]

-- Between one leaf and the next stand parents only.
pub parents_between :
    (k n i : ℕ)
    → k < 64
    → n < 2 ^ k
    → leaf_pos n < i
    → i < leaf_pos (suc n)
    → 0 < tree_height (suc k) i
parents_between zero n i h lt after before =
    absurd (omega (arith, leaf_pos-ge n, leaf_pos-suc_le 0 n h lt))
parents_between (suc k) n i h lt after before = elim (half k n lt) [
  | lower l ↦
      let last = leaf_pos-suc_le k n (omega arith) l in
      rw (tree_height-left (suc k) i (omega arith))
        (parents_between k n i (omega arith) l after before)
  | upper m l e ↦
      let shift = leaf_pos_upper k m n (omega arith) l e in
      let last = leaf_pos-suc_le (suc k) n h lt in
      elim (place (suc k) i (omega arith)) [
        | in_left below ↦ absurd (omega arith)
        | in_right j inner at ↦ rw (height_in_right (suc k) j i inner at) (
            parents_between k m j (omega arith) l (omega arith)
              (omega (arith, leaf_pos-suc_upper k m n h l e)))
        | at_root at ↦ rw (height_at_root (suc k) i at) (omega arith)
      ]
]

-- Each leaf stands behind the one before it, at most 66 nodes further on.
pub leaf_pos-lt_suc : (n : ℕ) → leaf_pos n < leaf_pos (suc n)
unfolding leaf_pos
leaf_pos-lt_suc n =
    omega (arith, digit_sum-suc_le 64 n, digit_sum-le_self 64 n, digit_sum-le_self 64 (suc n))

pub leaf_pos-suc_near : (n : ℕ) → leaf_pos (suc n) ≤ leaf_pos n + 66
unfolding leaf_pos
leaf_pos-suc_near n = omega (arith, digit_sum-le 64 n)

pub leaf_pos_mono : (m n : ℕ) → m < n → leaf_pos m < leaf_pos n
leaf_pos_mono m zero h = elim h [ ]
leaf_pos_mono m (suc n) h = elim (lt-or-le m n) [
  | inl inner ↦ let before = leaf_pos_mono m n inner in let after = leaf_pos-lt_suc n in omega arith
  | inr over ↦ let e : m ≡ n = omega arith in rw e (leaf_pos-lt_suc n)
]
