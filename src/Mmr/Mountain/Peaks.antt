-- ===== src/Mmr/Mountain/Peaks.antt =====
-- The peaks that `MMR::Root` finds: the binary digits of the number of leaves.
use libmw_core.Common.{ℕ, zero, suc, ◌+◌, ◌-◌, ◌/◌, ◌^◌, ◌≤◌, ◌<◌, ◌≡◌, refl, sym, ap, ◌∙◌, arith}
use libmw_core.Common.{
  powers, pow_pos, pow_suc, pow_mono, u64_mod, add64, sub64, leb, le→leb, lt→leb,
}
use libmw_core.Common.{if◌then◌else◌, List, [], ◌∷◌, ◌++◌, append_assoc, append-nil, All}
use libmw_core.Util.BitUtil.FillOnes.{fill_ones-pow, digit_count}
use libmw_core.Mmr.Index.Tree.{tree_size}
use libmw_core.Mmr.Index.Leaves.{leaf_pos, leaf_pos-zero, leaf_pos-ge, leaf_pos-lt, leaf_pos_upper}
use libmw_core.Mmr.Index.Leaves.{half, lower, upper}
use libmw_core.Mmr.Mountain.{peak_loop, peak_indices}

-- The peaks over `leaves` leaves, fewer than 2^k, from position `start` on: the largest perfect
-- tree that they fill has its root at its end, and the peaks of the other leaves are behind it.
unfoldable pub peaks_of : ℕ → ℕ → ℕ → List ℕ
peaks_of zero leaves start = []
peaks_of (suc k) leaves start =
    let size = tree_size (suc k) in
    let behind = peaks_of k (leaves - 2 ^ k) (start + size) in
    let smaller = peaks_of k leaves start in
    if leb (2 ^ k) leaves then (start + size - 1) ∷ behind else smaller

peaks_of-lower : (k n start : ℕ) → n < 2 ^ k → peaks_of (suc k) n start ≡ peaks_of k n start
unfolding peaks_of
peaks_of-lower k n start h = rw (lt→leb (2 ^ k) n h) refl

peaks_of-upper :
    (k m n start : ℕ)
    → n ≡ 2 ^ k + m
    → peaks_of (suc k) n start
      ≡ (start + tree_size (suc k) - 1) ∷ peaks_of k m (start + tree_size (suc k))
unfolding peaks_of
peaks_of-upper k m n start e =
    let rest : n - 2 ^ k ≡ m = omega arith in rw (le→leb (2 ^ k) n (omega arith), rest) refl

-- More digits than there are change nothing.
peaks_of-digits : (d k n start : ℕ) → n < 2 ^ k → peaks_of (d + k) n start ≡ peaks_of k n start
peaks_of-digits zero k n start h = ap (λ j. peaks_of j n start) (omega arith)
peaks_of-digits (suc d) k n start h =
    ap (λ j. peaks_of j n start) (omega arith)
    ∙ peaks_of-lower (d + k) n start (omega (arith, pow_mono d k))
    ∙ peaks_of-digits d k n start h

peaks_of-inside :
    (k n start : ℕ) → k ≤ 64 → n < 2 ^ k → All (λ i. i < start + leaf_pos n) (peaks_of k n start)
unfolding peaks_of
peaks_of-inside zero n start hk h = tt
peaks_of-inside (suc k) n start hk h = elim (half k n h) [
  | lower l ↦ rw (peaks_of-lower k n start l) (peaks_of-inside k n start (omega arith) l)
  | upper m l e ↦
      let shift = leaf_pos_upper k m n (omega arith) l e in
      let sum : start + tree_size (suc k) + leaf_pos m ≡ start + leaf_pos n = omega arith in
      rw (peaks_of-upper k m n start e)
        (omega powers, rw sum at (peaks_of-inside k m (start + tree_size (suc k)) (omega arith) l))
]

half_size : (k : ℕ) → tree_size (suc k) / 2 ≡ tree_size k
half_size k = omega powers

peak_loop-end : (fuel left sum : ℕ) (acc : List ℕ) → peak_loop fuel 0 left sum acc ≡ (acc, left)
unfolding peak_loop
peak_loop-end zero left sum acc = refl
peak_loop-end (suc fuel) left sum acc = refl

-- One round, as the peak fits into what is left or not.
peak_loop-skip :
    (fuel k left sum : ℕ) (acc : List ℕ)
    → left < tree_size (suc k)
    → peak_loop (suc fuel) (tree_size (suc k)) left sum acc
      ≡ peak_loop fuel (tree_size k) left sum acc
unfolding peak_loop
peak_loop-skip fuel k left sum acc h =
    rw (half_size k, lt→leb (tree_size (suc k)) left h) (ground (arith, pow_pos k, pow_suc k))

peak_loop-take :
    (fuel k left sum : ℕ) (acc : List ℕ)
    → sum + tree_size (suc k) < u64_mod
    → peak_loop (suc fuel) (tree_size (suc k)) (tree_size (suc k) + left) sum acc
      ≡ peak_loop fuel
          (tree_size k)
          left
          (sum + tree_size (suc k))
          (acc ++ (sum + tree_size (suc k) - 1) ∷ [])
unfolding peak_loop
peak_loop-take fuel k left sum acc fits =
    let peak = tree_size (suc k) in
    let rest : peak + left - peak ≡ left = omega arith in
    let total : add64 sum peak ≡ sum + peak = omega arith in
    let root : sub64 (sum + peak) 1 ≡ sum + peak - 1 = omega (arith, pow_pos k, pow_suc k) in
    rw (half_size k, le→leb peak (peak + left) (omega arith), rest, total, root)
      (ground (arith, pow_pos k, pow_suc k))

peak_loop-peaks_of :
    (fuel k n sum : ℕ) (acc : List ℕ)
    → k ≤ fuel
    → k ≤ 64
    → n < 2 ^ k
    → sum + leaf_pos n < u64_mod
    → peak_loop fuel (tree_size k) (leaf_pos n) sum acc ≡ (acc ++ peaks_of k n sum, 0)
unfolding peaks_of
peak_loop-peaks_of fuel zero n sum acc h hk lt fits =
    let none_left : leaf_pos n ≡ 0 = ap leaf_pos (omega arith) ∙ leaf_pos-zero in
    peak_loop-end fuel (leaf_pos n) sum acc
    ∙ ap (λ l. (acc, l)) none_left
    ∙ ap (λ t. (t, 0)) (sym (append-nil acc))
peak_loop-peaks_of zero (suc k) n sum acc h hk lt fits = elim h [ ]
peak_loop-peaks_of (suc fuel) (suc k) n sum acc h hk lt fits = elim (half k n lt) [
  | lower l ↦
      peak_loop-skip fuel k (leaf_pos n) sum acc (leaf_pos-lt k n (omega arith) l)
      ∙ peak_loop-peaks_of fuel k n sum acc (omega arith) (omega arith) l fits
      ∙ ap (λ t. (acc ++ t, 0)) (sym (peaks_of-lower k n sum l))
  | upper m l e ↦
      let shift = leaf_pos_upper k m n (omega arith) l e in
      let size = tree_size (suc k) in
      ap (λ t. peak_loop (suc fuel) size t sum acc) shift
      ∙ peak_loop-take fuel k (leaf_pos m) sum acc (omega arith)
      ∙ peak_loop-peaks_of fuel k m (sum + size) (acc ++ (sum + size - 1) ∷ []) (omega arith)
          (omega arith) l (omega arith)
      ∙ ap (λ t. (t, 0))
          (append_assoc acc _ _ ∙ ap (λ t. acc ++ t) (sym (peaks_of-upper k m n sum e)))
]

-- Every node of a whole number of leaves is below one of the peaks: nothing is left over.
pub peak_indices-leaf_pos :
    (n : ℕ)
    → leaf_pos n + 1 < u64_mod
    → (peak_indices (leaf_pos n) ≡ (peaks_of 64 n 0, 0))
      × All (λ i. i < leaf_pos n) (peaks_of 64 n 0)
unfolding peak_indices
peak_indices-leaf_pos n fits =
    let (j, fuel, lo, hi) = digit_count 64 (leaf_pos n) (omega arith) in
    let ge = leaf_pos-ge n in
    let split : 64 - j + j ≡ 64 = omega arith in
    let from_zero : 0 + leaf_pos n ≡ leaf_pos n = omega arith in
    (
      rw (fill_ones-pow j (leaf_pos n) (omega arith) lo hi) (
          peak_loop-peaks_of 64 j n 0 [] fuel fuel (omega arith) (omega arith)
          ∙ ap (λ t. (t, 0))
              (sym (peaks_of-digits (64 - j) j n 0 (omega arith))
                ∙ ap (λ i. peaks_of i n 0) split)),
      rw from_zero at (peaks_of-inside 64 n 0 (omega arith) (omega arith)),
    )
