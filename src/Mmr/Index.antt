-- ===== src/Mmr/Index.antt =====
-- include/mw/core/mmr/Index.h, src/mmr/Index.cpp and include/mw/core/mmr/LeafIndex.h: the nodes of
-- a Merkle mountain range, numbered in postorder from 0.
pub mod Tree
pub mod Height
pub mod Family
pub mod Leaves
pub mod LeafIndices
pub mod LeafHeights
pub mod Steps
pub mod Relatives
use libmw_core.Common.{ℕ, zero, suc, ◌-◌, ◌/◌, Bool, ◌&&◌, ◌==◌, leb}
use libmw_core.Common.{if◌then◌else◌, add64, sub64, mul64, one_shl64}
use libmw_core.Util.BitUtil.{fill_ones_to_right, count_bits_set}

-- `class Index`: m_position and m_height.
pub record Index : Type 0 where
  pub position : ℕ
  pub height : ℕ

-- `operator==`
pub index_eq : Index → Index → Bool
index_eq a b = a.position == b.position && a.height == b.height

abbrev pub is_leaf : Index → Bool
is_leaf i = i.height == 0

-- The loop of `CalculateHeight`. `peak` is halved until it is 0, so 64 rounds are enough.
pub height_loop : ℕ → ℕ → ℕ → ℕ
height_loop zero peak height = height
height_loop (suc fuel) peak height =
    let rest = height_loop fuel (peak / 2) (if leb peak height then height - peak else height) in
    if peak == 0 then height else rest

pub calculate_height : ℕ → ℕ
calculate_height position = height_loop 64 (fill_ones_to_right (add64 position 1)) position

-- The loop of `CalculateLeafIndex`, on `peakSize`, `numLeft` and `leafIndex`.
pub leaf_index_loop : ℕ → ℕ → ℕ → ℕ → ℕ
leaf_index_loop zero peak num_left leaf_index = leaf_index
leaf_index_loop (suc fuel) peak num_left leaf_index =
    let fits = leb peak num_left in
    let rest =
      leaf_index_loop fuel (peak / 2) (if fits then num_left - peak else num_left)
        (if fits then add64 leaf_index (add64 peak 1 / 2) else leaf_index) in
    if peak == 0 then leaf_index else rest

pub calculate_leaf_index : ℕ → ℕ
calculate_leaf_index position = leaf_index_loop 64 (fill_ones_to_right position) position 0

-- `Index::At`
pub at : ℕ → Index
unfolding calculate_height
at position = record { position = position; height = calculate_height position }

pub get_leaf_index : Index → ℕ
unfolding calculate_leaf_index
get_leaf_index i = calculate_leaf_index i.position

pub get_next : Index → Index
unfolding at
get_next i = at (add64 i.position 1)

-- The test that both `GetParent` and `GetSibling` make: the next node stands one level up.
pub is_right_sibling : Index → Bool
unfolding calculate_height
is_right_sibling i = calculate_height (add64 i.position 1) == add64 i.height 1

pub get_parent : Index → Index
unfolding is_right_sibling
get_parent i =
    if is_right_sibling i
    then record { position = add64 i.position 1; height = add64 i.height 1 }
    else record {
      position = add64 i.position (one_shl64 (add64 i.height 1));
      height = add64 i.height 1;
    }

pub get_sibling : Index → Index
unfolding is_right_sibling
get_sibling i =
    if is_right_sibling i
    then record {
      position = sub64 (add64 i.position 1) (one_shl64 (add64 i.height 1));
      height = i.height;
    }
    else record {
      position = sub64 (add64 i.position (one_shl64 (add64 i.height 1))) 1;
      height = i.height;
    }

pub get_left_child : Index → Index
get_left_child i = record {
  position = sub64 i.position (one_shl64 i.height);
  height = sub64 i.height 1;
}

pub get_right_child : Index → Index
get_right_child i = record { position = sub64 i.position 1; height = sub64 i.height 1 }

-- `class LeafIndex`: m_leafIndex and m_nodeIndex.
pub record LeafIndex : Type 0 where
  pub leaf_index : ℕ
  pub node_index : Index

-- The constructor from a leaf index and a position: a leaf has height 0.
abbrev pub make_leaf_index : ℕ → ℕ → LeafIndex
make_leaf_index leaf position = record {
  leaf_index = leaf;
  node_index = record { position = position; height = 0 };
}

-- `LeafIndex::At`
pub leaf_position : ℕ → ℕ
unfolding count_bits_set
leaf_position leaf = sub64 (mul64 2 leaf) (count_bits_set leaf)

unfoldable pub leaf_at : ℕ → LeafIndex
unfolding leaf_position
leaf_at leaf = make_leaf_index leaf (leaf_position leaf)
