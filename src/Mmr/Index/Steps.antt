-- ===== src/Mmr/Index/Steps.antt =====
-- One step of the navigation of `Index`, on nodes that are written out with their height.
use libmw_core.Common.{ℕ, suc, ◌+◌, ◌-◌, ◌^◌, ◌≤◌, ◌<◌, ◌≡◌, refl, arith, powers}
use mathlib.Core.Path.{ap₂}
use libmw_core.Common.{◌∙◌, ap, true, false}
use libmw_core.Common.{u64_mod, add64}
use libmw_core.Mmr.Index.{Index, calculate_height, at, is_right_sibling, get_parent, get_sibling}
use libmw_core.Mmr.Index.{get_left_child, get_right_child}
use libmw_core.Mmr.Index.Tree.{tree_height}
use libmw_core.Mmr.Index.Height.{calculate_height-tree_height}

abbrev pub node : ℕ → ℕ → Index
node p h = record { position = p; height = h }

pub height : (p : ℕ) → p + 1 < u64_mod → calculate_height p ≡ tree_height 64 p
height p fits = calculate_height-tree_height 64 p fits (omega arith)

pub at-node : (p h : ℕ) → p + 1 < u64_mod → tree_height 64 p ≡ h → at p ≡ node p h
unfolding at
at-node p h fits e = ap (node p) (height p fits ∙ e)

-- The code's test tells a right sibling, whose parent stands just behind it.
pub is_right_sibling-true :
    (p h : ℕ)
    → p + 2 < u64_mod
    → h < 64
    → tree_height 64 (p + 1) ≡ suc h
    → is_right_sibling (node p h) ≡ true
unfolding is_right_sibling
is_right_sibling-true p h fits small e =
    let next : add64 p 1 ≡ p + 1 = omega arith in
    rw (next, height (p + 1) (omega arith), e) (ground arith)

pub is_right_sibling-false :
    (p h : ℕ)
    → p + 2 < u64_mod
    → h < 64
    → tree_height 64 (p + 1) ≡ 0
    → is_right_sibling (node p h) ≡ false
unfolding is_right_sibling
is_right_sibling-false p h fits small e =
    let next : add64 p 1 ≡ p + 1 = omega arith in
    rw (next, height (p + 1) (omega arith), e) (ground arith)

-- What the navigation computes, once the test is known.
module _ (p h : ℕ) (small : h < 64) where
  pub get_parent_right :
      is_right_sibling (node p h) ≡ true
      → p + 2 < u64_mod
      → get_parent (node p h) ≡ node (p + 1) (suc h)
  unfolding get_parent
  get_parent_right e fits = rw e (ap₂ node (omega arith) (omega arith))

  pub get_parent_left :
      is_right_sibling (node p h) ≡ false
      → p + 2 ^ suc h < u64_mod
      → get_parent (node p h) ≡ node (p + 2 ^ suc h) (suc h)
  unfolding get_parent
  get_parent_left e fits =
      let level : add64 h 1 ≡ suc h = omega arith in rw (e, level) (ap₂ node (omega arith) refl)

  pub get_sibling_right :
      is_right_sibling (node p h) ≡ true
      → p + 2 < u64_mod
      → 2 ^ suc h ≤ p + 1
      → get_sibling (node p h) ≡ node (p + 1 - 2 ^ suc h) h
  unfolding get_sibling
  get_sibling_right e fits room =
      let level : add64 h 1 ≡ suc h = omega arith in rw (e, level) (ap₂ node (omega arith) refl)

  pub get_sibling_left :
      is_right_sibling (node p h) ≡ false
      → p + 2 ^ suc h < u64_mod
      → get_sibling (node p h) ≡ node (p + 2 ^ suc h - 1) h
  unfolding get_sibling
  get_sibling_left e fits =
      let level : add64 h 1 ≡ suc h = omega arith in rw (e, level) (ap₂ node (omega powers) refl)

pub get_left_child-node :
    (p h : ℕ)
    → h < 63
    → p < u64_mod
    → 2 ^ suc h ≤ p
    → get_left_child (node p (suc h)) ≡ node (p - 2 ^ suc h) h
unfolding get_left_child
get_left_child-node p h small fits room = ap₂ node (omega arith) (omega arith)

pub get_right_child-node :
    (p h : ℕ) → h < 63 → p < u64_mod → 1 ≤ p → get_right_child (node p (suc h)) ≡ node (p - 1) h
unfolding get_right_child
get_right_child-node p h small fits room = ap₂ node (omega arith) (omega arith)
