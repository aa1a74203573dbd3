-- ===== src/Mmr/VectorBackend.antt =====
-- include/mw/core/mmr/backends/VectorBackend.h
pub mod Valid
pub mod Parents
use libmw_core.Common.{resize}
use libmw_core.Common.{
  ℕ, ◌-◌, List, [], ◌∷◌, ◌++◌, ltb, if◌then◌else◌, length, get_or, take, replicate,
}
use libmw_core.Exceptions.{Result, ok, undefined, ◌>>=◌}
use libmw_core.Crypto.{Hashing}
use libmw_core.Util.EndianUtil.{Platform}
use libmw_core.Mmr.Index.{Index, LeafIndex, get_next}
use libmw_core.Mmr.Node.{Hash, zero_hash, Leaf, default_leaf}
use libmw_core.Mmr.Backend.{Backend, add_parents, parents_fuel}

-- `class VectorBackend`: m_leaves and m_nodes.
pub record VectorBackend : Type 0 where
  pub leaves : List Leaf
  pub nodes : List Hash

-- `VectorBackend()`
abbrev pub empty_backend : VectorBackend
empty_backend = record { leaves = []; nodes = [] }

unfoldable pub add_hash : Hash → VectorBackend → Result VectorBackend
add_hash hash s = ok (record s { nodes = s.nodes ++ hash ∷ [] })

-- `m_nodes[...]` and `m_leaves[...]` check no bound.
unfoldable pub get_hash : Index → VectorBackend → Result Hash
get_hash idx s =
    if ltb idx.position (length s.nodes)
    then ok (get_or s.nodes idx.position zero_hash)
    else undefined

unfoldable pub get_leaf : LeafIndex → VectorBackend → Result Leaf
get_leaf idx s =
    if ltb idx.leaf_index (length s.leaves)
    then ok (get_or s.leaves idx.leaf_index default_leaf)
    else undefined

module _ ⦃p : Platform⦄ ⦃c : Hashing⦄ where
  unfoldable pub add_leaf : Leaf → VectorBackend → Result VectorBackend
  unfolding add_hash get_hash
  add_leaf leaf s = do
    s' ← add_hash leaf.hash (record s { leaves = s.leaves ++ leaf ∷ [] })
    add_parents get_hash add_hash parents_fuel (get_next leaf.index.node_index) leaf.hash s'

unfoldable pub rewind : LeafIndex → VectorBackend → Result VectorBackend
rewind next s = ok (record {
  leaves = resize next.leaf_index default_leaf s.leaves;
  nodes = resize next.node_index.position zero_hash s.nodes;
})

unfoldable pub num_leaves : VectorBackend → ℕ
num_leaves s = length s.leaves

-- `Commit` and `Rollback` are empty.
unfoldable pub commit : VectorBackend → Result VectorBackend
commit s = ok s

unfoldable pub rollback : VectorBackend → VectorBackend
rollback s = s

module _ ⦃p : Platform⦄ ⦃c : Hashing⦄ where
  abbrev pub vector_backend : Backend VectorBackend
  vector_backend = record {
    add_leaf = add_leaf;
    add_hash = add_hash;
    rewind = rewind;
    num_leaves = num_leaves;
    get_hash = get_hash;
    get_leaf = get_leaf;
    commit = commit;
    rollback = rollback;
  }
