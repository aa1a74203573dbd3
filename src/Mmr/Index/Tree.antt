-- ===== src/Mmr/Index/Tree.antt =====
-- Perfect binary trees in postorder: the specification of the heights.
use native.Mathlib.Nat.{add_comm}
use libmw_core.Common.{ℕ, zero, suc, ◌+◌, ◌-◌, ◌*◌, ◌^◌, ◌<◌, ◌≡◌, refl, arith, powers}
use libmw_core.Common.{◌==◌, leb, if◌then◌else◌, lt-or-le, inl, inr, pow_mono, sym, ap, ◌∙◌}

-- The number of nodes of the perfect tree of `k` levels.
abbrev pub tree_size : ℕ → ℕ
tree_size k = 2 ^ k - 1

-- The height of the node at position `p` of the perfect tree of `k` levels: first the left
-- subtree, then the right subtree, then the root.
pub tree_height : ℕ → ℕ → ℕ
tree_height zero p = 0
tree_height (suc k) p =
    let right = tree_height k (p - tree_size k) in
    let left = tree_height k p in
    if p == 2 * tree_size k then k else if leb (tree_size k) p then right else left

pub tree_height-root : (k : ℕ) → tree_height (suc k) (2 * tree_size k) ≡ k
unfolding tree_height
tree_height-root k = ground arith

pub tree_height-left : (k p : ℕ) → p < tree_size k → tree_height (suc k) p ≡ tree_height k p
unfolding tree_height
tree_height-left k p h = ground arith

pub tree_height-right :
    (k p : ℕ) → p < tree_size k → tree_height (suc k) (tree_size k + p) ≡ tree_height k p
unfolding tree_height
tree_height-right k p h = ground arith

pub tree_height-zero : (k : ℕ) → tree_height k 0 ≡ 0
tree_height-zero zero = unfold tree_height in refl
tree_height-zero (suc zero) = tree_height-root 0
tree_height-zero (suc (suc k)) =
    omega (powers, tree_height-left (suc k) 0 (omega powers), tree_height-zero (suc k))

-- Where a position of a tree of `k` + 1 levels stands.
pub data Place (k p : ℕ) : Type 0 where
  in_left : p < tree_size k → Place k p
  in_right : (q : ℕ) → q < tree_size k → p ≡ tree_size k + q → Place k p
  at_root : p ≡ 2 * tree_size k → Place k p

pub place : (k p : ℕ) → p < tree_size (suc k) → Place k p
place k p h = elim (lt-or-le p (tree_size k)) [
  | inl lower ↦ in_left lower
  | inr above ↦ elim (lt-or-le p (2 * tree_size k)) [
    | inl inner ↦ in_right (p - tree_size k) (omega arith) (omega arith)
    | inr top ↦ at_root (omega powers)
  ]
]

-- A taller tree has the same nodes at its start.
pub tree_height-grow : (d k p : ℕ) → p < tree_size k → tree_height (d + k) p ≡ tree_height k p
tree_height-grow zero k p h = ground arith
tree_height-grow (suc d) k p h =
    ground
      (arith, tree_height-left (d + k) p (omega (arith, pow_mono d k)), tree_height-grow d k p h)

pub tree_height-lt : (k p : ℕ) → p < tree_size k → tree_height k p < k
tree_height-lt zero p h = elim h [ ]
tree_height-lt (suc k) p h = elim (place k p h) [
  | in_left l ↦ omega (arith, tree_height-left k p l, tree_height-lt k p l)
  | in_right q r e ↦ rw (e, tree_height-right k q r) (omega (arith, tree_height-lt k q r))
  | at_root e ↦ rw (e, tree_height-root k) (omega arith)
]

-- The same laws at a position that is known by an equation.
pub height_in_right :
    (k q p : ℕ) → q < tree_size k → p ≡ tree_size k + q → tree_height (suc k) p ≡ tree_height k q
height_in_right k q p h e = rw e (tree_height-right k q h)

pub height_at_root : (k p : ℕ) → p ≡ 2 * tree_size k → tree_height (suc k) p ≡ k
height_at_root k p e = rw e (tree_height-root k)

-- The height of a node does not depend on the tree that is looked at.
pub tree_height_agree :
    (j k p : ℕ) → p < tree_size j → p < tree_size k → tree_height j p ≡ tree_height k p
tree_height_agree j k p hj hk =
    sym (tree_height-grow k j p hj)
    ∙ ap (λ n. tree_height n p) (add_comm k j)
    ∙ tree_height-grow j k p hk
