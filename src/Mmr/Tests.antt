-- ===== src/Mmr/Tests.antt =====
-- The theorems on the mountain range at concrete trees.
use libmw_core.Common.{ℕ, ◌≡◌, arith, ◌∙◌, List, [], ◌∷◌, true, ap, map, length, refl}
use libmw_core.Exceptions.{ok}
use libmw_core.Samples.{little_endian, plain_hashing}
use libmw_core.Mmr.Index.{at, calculate_height}
use libmw_core.Mmr.Index.{is_leaf, leaf_at, leaf_position, get_leaf_index}
use libmw_core.Mmr.Index.Tree.{tree_height, tree_height-root}
use libmw_core.Mmr.Index.Height.{calculate_height-tree_height}
use libmw_core.Mmr.Index.LeafIndices.{get_leaf_index-leaf_at}
use libmw_core.Mmr.Index.Relatives.{IsFamily, at-IsFamily, height-at}
use libmw_core.Mmr.VectorBackend.{VectorBackend, empty_backend, vector_backend}
use libmw_core.Mmr.VectorBackend.Valid.{IsValid, empty_backend-IsValid, hash_at}
use libmw_core.Mmr.Mountain.{add, num_nodes, rewind, peak_indices, root}
use libmw_core.Mmr.Mountain.Peaks.{peaks_of}
use libmw_core.Mmr.Mountain.Rooting.{bagged, root-bagged}
use libmw_core.Mmr.Mountain.Adding.{Extends, new_leaf, add-IsValid}
use libmw_core.Mmr.Mountain.Rewinding.{add_all, rewind-add_all}

calculate_height-tree_height_example : calculate_height 6 ≡ tree_height 3 6
calculate_height-tree_height_example = calculate_height-tree_height 3 6 (omega arith) (omega arith)

height_6 : (at 6).height ≡ 2
height_6 =
    height-at 6 ∙ calculate_height-tree_height 3 6 (omega arith) (omega arith) ∙ tree_height-root 2

at-IsFamily_example : IsFamily 6 1
at-IsFamily_example = at-IsFamily 6 1 (omega arith) height_6

get_leaf_index-leaf_at_example :
    ((leaf_at 5).node_index ≡ at (leaf_position 5))
    × (is_leaf (at (leaf_position 5)) ≡ true)
    × (get_leaf_index (at (leaf_position 5)) ≡ 5)
get_leaf_index-leaf_at_example = get_leaf_index-leaf_at 5 (omega arith)

add-IsValid_example :
    (s' : VectorBackend) × (add (vector_backend) (7 ∷ []) empty_backend ≡ ok s')
    × IsValid s'
    × (s'.leaves ≡ new_leaf empty_backend (7 ∷ []) ∷ [])
    × Extends empty_backend s'
add-IsValid_example = add-IsValid (7 ∷ []) empty_backend (omega arith) empty_backend-IsValid

abbrev three_items : List (List ℕ)
three_items = (7 ∷ []) ∷ (8 ∷ []) ∷ [] ∷ []

rewind-add_all_example :
    (s' : VectorBackend) × (add_all three_items empty_backend ≡ ok s')
    × IsValid s'
    × (rewind vector_backend (num_nodes vector_backend empty_backend) s' ≡ ok empty_backend)
rewind-add_all_example =
    rewind-add_all three_items empty_backend (omega arith) empty_backend-IsValid

-- The state with one leaf.
one_leaf :
    (s' : VectorBackend) × (add vector_backend (7 ∷ []) empty_backend ≡ ok s')
    × IsValid s'
    × (s'.leaves ≡ new_leaf empty_backend (7 ∷ []) ∷ [])
    × Extends empty_backend s'
one_leaf = add-IsValid (7 ∷ []) empty_backend (omega arith) empty_backend-IsValid

root-bagged_example :
    let s = one_leaf.0 in
    let peaks = peaks_of 64 (length s.leaves) 0 in
    (peak_indices (length s.nodes) ≡ (peaks, 0))
    × (root vector_backend s ≡ ok (bagged (length s.nodes) (map (hash_at s.nodes) peaks)))
root-bagged_example = root-bagged one_leaf.0 one_leaf.2 (omega (arith, ap length one_leaf.3))

peaks_of_eleven : peaks_of 4 11 0 ≡ 14 ∷ 17 ∷ 18 ∷ []
unfolding peaks_of
peaks_of_eleven = refl
