-- ===== src/Mmr/Index/Family.antt =====
-- Children, siblings and parents in a perfect tree, by their positions.
use libmw_core.Common.{ℕ, zero, suc, ◌+◌, ◌-◌, ◌*◌, ◌^◌, ◌≤◌, ◌<◌, ◌≡◌, inl, inr, arith}
use libmw_core.Common.{powers, sym, ◌∙◌, lt-or-le}
use libmw_core.Mmr.Index.Tree.{tree_size, tree_height, in_left, in_right, at_root, place}
use libmw_core.Mmr.Index.Tree.{tree_height-left, height_in_right, height_at_root}
use libmw_core.Mmr.Index.Tree.{tree_height-zero}

-- A node of height h + 1 at `p`: its right child stands just before it, its left child 2^(h+1)
-- before it, and the node after the left child is a leaf.
pub record Children (k h p : ℕ) : Type 0 where
  pub room : 2 ^ suc h ≤ p
  pub left : tree_height k (p - 2 ^ suc h) ≡ h
  pub right : tree_height k (p - 1) ≡ h
  pub after_left : tree_height k (p + 1 - 2 ^ suc h) ≡ 0

root-Children : (h : ℕ) → Children (suc (suc h)) h (2 * tree_size (suc h))
root-Children h =
    let p = 2 * tree_size (suc h) in
    let s = suc h in
    let l = p - 2 ^ suc h in
    record {
      room = omega powers;
      left = tree_height-left s l (omega powers) ∙ height_at_root h l (omega powers);
      right =
          height_in_right s (2 * tree_size h) (p - 1) (omega powers) (omega powers)
          ∙ height_at_root h (2 * tree_size h) (omega arith);
      after_left =
          height_in_right s 0 (p + 1 - 2 ^ suc h) (omega powers) (omega powers)
          ∙ tree_height-zero s;
    }

pub children : (k h p : ℕ) → p < tree_size k → tree_height k p ≡ suc h → Children k h p
children zero h p lt e = elim lt [ ]
children (suc k) h p lt e = elim (place k p lt) [
  | in_left l ↦
      let c = children k h p l (sym (tree_height-left k p l) ∙ e) in
      let room = c.room in
      record {
        room = room;
        left = tree_height-left k (p - 2 ^ suc h) (omega powers) ∙ c.left;
        right = tree_height-left k (p - 1) (omega powers) ∙ c.right;
        after_left = tree_height-left k (p + 1 - 2 ^ suc h) (omega powers) ∙ c.after_left;
      }
  | in_right q r at ↦
      let c = children k h q r (sym (height_in_right k q p r at) ∙ e) in
      let room = c.room in
      record {
        room = omega arith;
        left =
            height_in_right k (q - 2 ^ suc h) (p - 2 ^ suc h) (omega powers) (omega powers)
            ∙ c.left;
        right = height_in_right k (q - 1) (p - 1) (omega powers) (omega powers) ∙ c.right;
        after_left =
            height_in_right k (q + 1 - 2 ^ suc h) (p + 1 - 2 ^ suc h) (omega powers) (omega powers)
            ∙ c.after_left;
      }
  | at_root at ↦ rw (at, sym (height_at_root k p at) ∙ e) (root-Children h)
]

-- A node of height h that is not the root has its parent just behind it, or 2^(h+1) behind it and
-- a leaf just behind it.
pub data Parent (k h p : ℕ) : Type 0 where
  as_right : tree_height k (p + 1) ≡ suc h → Parent k h p
  as_left :
      p + 2 ^ suc h < tree_size k
      → tree_height k (p + 1) ≡ 0
      → tree_height k (p + 2 ^ suc h) ≡ suc h
      → Parent k h p

Parent-left : (k h p : ℕ) → p + 1 < tree_size k → Parent k h p → Parent (suc k) h p
Parent-left k h p room (as_right e) = as_right (tree_height-left k (p + 1) room ∙ e)
Parent-left k h p room (as_left fits after up) =
    as_left (omega powers) (tree_height-left k (p + 1) room ∙ after)
      (tree_height-left k (p + 2 ^ suc h) fits ∙ up)

Parent-right :
    (k h q p : ℕ) → q + 1 < tree_size k → p ≡ tree_size k + q → Parent k h q → Parent (suc k) h p
Parent-right k h q p room at (as_right e) =
    as_right (height_in_right k (q + 1) (p + 1) room (omega arith) ∙ e)
Parent-right k h q p room at (as_left fits after up) =
    as_left (omega powers) (height_in_right k (q + 1) (p + 1) room (omega arith) ∙ after)
      (height_in_right k (q + 2 ^ suc h) (p + 2 ^ suc h) fits (omega arith) ∙ up)

-- The roots of the two subtrees have the root of the tree for their parent.
left_root-Parent : (k : ℕ) → Parent (suc (suc k)) k (2 * tree_size k)
left_root-Parent k =
    let p = 2 * tree_size k in
    as_left (omega powers)
      (height_in_right (suc k) 0 (p + 1) (omega powers) (omega powers) ∙ tree_height-zero (suc k))
      (height_at_root (suc k) (p + 2 ^ suc k) (omega powers))

right_root-Parent : (k p : ℕ) → p ≡ tree_size (suc k) + 2 * tree_size k → Parent (suc (suc k)) k p
right_root-Parent k p at = as_right (height_at_root (suc k) (p + 1) (omega powers))

pub parent : (k h p : ℕ) → p < 2 * tree_size k → tree_height (suc k) p ≡ h → Parent (suc k) h p
parent zero h p lt e = absurd (omega arith)
parent (suc k) h p lt e = elim (place (suc k) p (omega powers)) [
  | in_left l ↦
      let below = sym (tree_height-left (suc k) p l) ∙ e in
      elim (lt-or-le p (2 * tree_size k)) [
        | inl inner ↦ Parent-left (suc k) h p (omega powers) (parent k h p inner below)
        | inr over ↦
            let top : p ≡ 2 * tree_size k = omega powers in
            rw (sym below ∙ height_at_root k p top, top) (left_root-Parent k)
      ]
  | in_right q r at ↦
      let below = sym (height_in_right (suc k) q p r at) ∙ e in
      elim (lt-or-le q (2 * tree_size k)) [
        | inl inner ↦ Parent-right (suc k) h q p (omega powers) at (parent k h q inner below)
        | inr over ↦
            let top : q ≡ 2 * tree_size k = omega powers in
            rw (sym below ∙ height_at_root k q top) (right_root-Parent k p (omega arith))
      ]
  | at_root at ↦ absurd (omega arith)
]
