-- ===== src/Mmr/Index/Relatives.antt =====
-- The navigation of `Index`: children, siblings and parents agree with `Index::At`.
use libmw_core.Common.{ℕ, suc, ◌+◌, ◌-◌, ◌^◌, ◌<◌, ◌≡◌, refl, arith, powers}
use libmw_core.Common.{◌∙◌, sym, ap, true, false, ◌⊎◌, inl, inr}
use libmw_core.Common.{u64_mod, add64}
use libmw_core.Mmr.Index.{calculate_height, at, is_right_sibling, get_parent, get_sibling}
use libmw_core.Mmr.Index.{get_left_child, get_right_child, is_leaf, get_next}
use libmw_core.Common.{◌==◌}
use libmw_core.Mmr.Index.Tree.{tree_height, tree_height-lt}
use libmw_core.Mmr.Index.Family.{Children, children, as_left, as_right, parent}
use libmw_core.Mmr.Index.Steps.{
  node, height, at-node, is_right_sibling-true, is_right_sibling-false, get_left_child-node,
  get_right_child-node, get_parent_right, get_parent_left, get_sibling_right, get_sibling_left,
}

-- What holds of a node of height h + 1 and its two children.
pub record IsFamily (p h : ℕ) : Type 0 where
  pub left : get_left_child (at p) ≡ at (p - 2 ^ suc h)
  pub right : get_right_child (at p) ≡ at (p - 1)
  pub left_parent : get_parent (get_left_child (at p)) ≡ at p
  pub right_parent : get_parent (get_right_child (at p)) ≡ at p
  pub left_sibling : get_sibling (get_left_child (at p)) ≡ get_right_child (at p)
  pub right_sibling : get_sibling (get_right_child (at p)) ≡ get_left_child (at p)

-- The same, on nodes that are written out.
module _ (p h : ℕ) (fits : p + 1 < u64_mod) (e : tree_height 64 p ≡ suc h) where
  family : Children 64 h p
  family = children 64 h p (omega arith) e

  small : h < 63
  small = omega (arith, tree_height-lt 64 p (omega arith))

  left_node : get_left_child (at p) ≡ node (p - 2 ^ suc h) h
  left_node =
      rw (at-node p (suc h) fits e) (get_left_child-node p h small (omega arith) family.room)

  right_node : get_right_child (at p) ≡ node (p - 1) h
  right_node =
      let room = family.room in
      rw (at-node p (suc h) fits e) (get_right_child-node p h small (omega arith) (omega powers))

  left_test : is_right_sibling (node (p - 2 ^ suc h) h) ≡ false
  left_test =
      let room = family.room in
      let next : p - 2 ^ suc h + 1 ≡ p + 1 - 2 ^ suc h = omega arith in
      is_right_sibling-false (p - 2 ^ suc h) h (omega powers) (omega (arith, small))
        (ap (tree_height 64) next ∙ family.after_left)

  right_test : is_right_sibling (node (p - 1) h) ≡ true
  right_test =
      let room = family.room in
      let next : p - 1 + 1 ≡ p = omega powers in
      is_right_sibling-true (p - 1) h (omega powers) (omega (arith, small))
        (ap (tree_height 64) next ∙ e)

  node-IsFamily : IsFamily p h
  node-IsFamily =
      let room = family.room in
      let up : p - 2 ^ suc h + 2 ^ suc h ≡ p = omega arith in
      let next : p - 1 + 1 ≡ p = omega powers in
      let whole = at-node p (suc h) fits e in
      record {
        left = left_node ∙ sym (at-node (p - 2 ^ suc h) h (omega powers) family.left);
        right = right_node ∙ sym (at-node (p - 1) h (omega arith) family.right);
        left_parent =
            rw
              (
                left_node,
                get_parent_left (p - 2 ^ suc h) h (omega (arith, small)) left_test (omega arith),
                up,
              )
              (sym whole);
        right_parent =
            rw
              (
                right_node,
                get_parent_right (p - 1) h (omega (arith, small)) right_test (omega powers),
                next,
              )
              (sym whole);
        left_sibling = rw (
          left_node,
          right_node,
          get_sibling_left (p - 2 ^ suc h) h (omega (arith, small)) left_test (omega arith),
          up,
        );
        right_sibling = rw (
          left_node,
          right_node,
          get_sibling_right (p - 1) h (omega (arith, small)) right_test (omega powers)
              (omega arith),
          next,
        );
      }

-- A node of height h + 1 and its children: each child's parent is the node, each child's sibling
-- is the other child, and the heights are those of `Index::At`.
pub at-IsFamily : (p h : ℕ) → p + 1 < u64_mod → (at p).height ≡ suc h → IsFamily p h
at-IsFamily p h fits e = node-IsFamily p h fits (sym (height p fits) ∙ unfold at in e)

-- `q` is the parent of `p`, from either side.
abbrev IsChild : ℕ → ℕ → Type 0
IsChild p q = (get_left_child (at q) ≡ at p) ⊎ (get_right_child (at q) ≡ at p)

get_parent-child : (p q h : ℕ) → IsFamily q h → IsChild p q → get_parent (at p) ≡ at q
get_parent-child p q h f (inl e) = ap get_parent (sym e) ∙ f.left_parent
get_parent-child p q h f (inr e) = ap get_parent (sym e) ∙ f.right_parent

parent_exists : (p : ℕ) → p + 2 < u64_mod → (q : ℕ) × (h : ℕ) × IsFamily q h × IsChild p q
parent_exists p fits =
    let h = tree_height 64 p in
    elim (parent 63 h p (omega arith) refl) [
      | as_right e ↦
          let f = node-IsFamily (p + 1) h (omega arith) e in
          let back : p + 1 - 1 ≡ p = omega arith in (p + 1, h, f, inr (f.right ∙ ap at back))
      | as_left room after e ↦
          let f = node-IsFamily (p + 2 ^ suc h) h (omega arith) e in
          let back : p + 2 ^ suc h - 2 ^ suc h ≡ p = omega arith in
          (p + 2 ^ suc h, h, f, inl (f.left ∙ ap at back))
    ]

-- Every node has a parent, with the height of `Index::At`, and is one of its two children.
pub get_parent-at :
    (p : ℕ)
    → p + 2 < u64_mod
    → (get_parent (at p) ≡ at (get_parent (at p)).position)
      × ((get_left_child (get_parent (at p)) ≡ at p) ⊎ (get_right_child (get_parent (at p)) ≡ at p))
get_parent-at p fits =
    let (q, h, f, c) = parent_exists p fits in
    rw (get_parent-child p q h f c) (unfold at in refl, c)

get_sibling_twice :
    (p q h : ℕ) → IsFamily q h → IsChild p q → get_sibling (get_sibling (at p)) ≡ at p
get_sibling_twice p q h f (inl e) =
    ap (λ i. get_sibling (get_sibling i)) (sym e)
    ∙ ap get_sibling f.left_sibling
    ∙ f.right_sibling
    ∙ e
get_sibling_twice p q h f (inr e) =
    ap (λ i. get_sibling (get_sibling i)) (sym e)
    ∙ ap get_sibling f.right_sibling
    ∙ f.left_sibling
    ∙ e

-- The sibling of a node's sibling is the node.
pub get_sibling-get_sibling : (p : ℕ) → p + 2 < u64_mod → get_sibling (get_sibling (at p)) ≡ at p
get_sibling-get_sibling p fits =
    let (q, h, f, c) = parent_exists p fits in get_sibling_twice p q h f c

pub position-at : (i : ℕ) → (at i).position ≡ i
unfolding at
position-at i = refl

pub height-at : (i : ℕ) → (at i).height ≡ calculate_height i
unfolding at
height-at i = refl

pub is_leaf-at : (i : ℕ) → is_leaf (at i) ≡ (calculate_height i == 0)
unfolding at
is_leaf-at i = refl

pub get_next-at : (i : ℕ) → i + 1 < u64_mod → get_next (at i) ≡ at (i + 1)
unfolding get_next at
get_next-at i fits = let e : add64 i 1 ≡ i + 1 = omega arith in rw e

pub get_left_child-at :
    (i h : ℕ)
    → i + 1 < u64_mod
    → calculate_height i ≡ suc h
    → get_left_child (at i) ≡ at (i - 2 ^ suc h)
get_left_child-at i h fits e = (node-IsFamily i h fits (sym (height i fits) ∙ e)).left
