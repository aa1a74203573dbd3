-- ===== src/Mmr/Index/Height.antt =====
-- `Index::CalculateHeight` computes the height of a node in postorder.
use libmw_core.Common.{ℕ, zero, suc, ◌+◌, ◌-◌, ◌*◌, ◌/◌, ◌≤◌, ◌<◌, ◌≡◌, refl, arith, powers}
use libmw_core.Common.{◌∙◌, sym, leb, if◌then◌else◌, pow_pos, pow_suc}
use libmw_core.Common.{u64_mod, add64, le→leb, lt→leb, true}
use libmw_core.Util.BitUtil.FillOnes.{fill_ones-pow, digit_count}
use libmw_core.Mmr.Index.{height_loop, calculate_height}
use libmw_core.Mmr.Index.Tree.{tree_size, tree_height, in_left, in_right, at_root, place}
use libmw_core.Mmr.Index.Tree.{tree_height-left, height_in_right, height_at_root}
use libmw_core.Mmr.Index.Tree.{tree_height-zero, tree_height_agree}

half_size : (k : ℕ) → tree_size (suc k) / 2 ≡ tree_size k
half_size k = omega powers

-- One round of the loop.
height_loop-round :
    (fuel k h : ℕ)
    → height_loop (suc fuel) (tree_size (suc k)) h
      ≡ height_loop fuel
          (tree_size k)
          (if leb (tree_size (suc k)) h then h - tree_size (suc k) else h)
unfolding height_loop
height_loop-round fuel k h = rw (half_size k) (ground (arith, pow_pos k, pow_suc k))

height_loop-end : (fuel h : ℕ) → height_loop fuel 0 h ≡ h
unfolding height_loop
height_loop-end zero h = refl
height_loop-end (suc fuel) h = refl

-- From two trees on, the subtractions leave the height of the root and what lies beyond it.
height_loop-root :
    (fuel k i : ℕ) → k ≤ fuel → height_loop fuel (tree_size k) (2 * tree_size k + i) ≡ k + i
height_loop-root fuel zero i h = height_loop-end fuel (2 * tree_size 0 + i)
height_loop-root zero (suc k) i h = elim h [ ]
height_loop-root (suc fuel) (suc k) i h =
    let peak = tree_size (suc k) in
    let above : leb peak (2 * peak + i) ≡ true = le→leb peak (2 * peak + i) (omega arith) in
    let left : 2 * peak + i - peak ≡ 2 * tree_size k + suc i = omega powers in
    height_loop-round fuel k (2 * peak + i)
    ∙ rw (above, left) (height_loop-root fuel k (suc i) (omega arith) ∙ omega arith)

height_loop-tree_height :
    (fuel k p : ℕ)
    → k ≤ fuel
    → p < tree_size (suc k)
    → height_loop fuel (tree_size k) p ≡ tree_height (suc k) p
height_loop-tree_height fuel zero p h lt =
    let e : p ≡ 0 = omega arith in rw (e, height_loop-end) (sym (tree_height-zero 1))
height_loop-tree_height zero (suc k) p h lt = elim h [ ]
height_loop-tree_height (suc fuel) (suc k) p h lt =
    let peak = tree_size (suc k) in
    let round = height_loop-round fuel k p in
    elim (place (suc k) p lt) [
      | in_left l ↦
          rw (round, lt→leb peak p l)
            (height_loop-tree_height fuel k p (omega arith) l ∙ sym (tree_height-left (suc k) p l))
      | in_right q r at ↦
          let rest : p - peak ≡ q = omega arith in
          rw (round, le→leb peak p (omega arith), rest)
            (height_loop-tree_height fuel k q (omega arith) r
              ∙ sym (height_in_right (suc k) q p r at))
      | at_root at ↦
          let whole : p ≡ 2 * peak + 0 = omega arith in
          rw (height_at_root (suc k) p at, whole)
            (height_loop-root (suc fuel) (suc k) 0 h ∙ omega arith)
    ]

-- The code's height is the height in every perfect tree that has the node.
pub calculate_height-tree_height :
    (k p : ℕ) → p + 1 < u64_mod → p < tree_size k → calculate_height p ≡ tree_height k p
unfolding calculate_height
calculate_height-tree_height k p fits lt =
    let (j, fuel, lo, hi) = digit_count 64 (p + 1) fits in
    let here : p < tree_size j = omega arith in
    let wraps : add64 p 1 ≡ p + 1 = omega arith in
    rw (wraps, fill_ones-pow j (p + 1) fits lo hi)
      (height_loop-tree_height 64 j p fuel (omega powers)
        ∙ tree_height-left j p here
        ∙ tree_height_agree j k p here lt)
