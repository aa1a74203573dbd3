-- ===== src/Mmr/Node.antt =====
-- include/mw/core/mmr/Leaf.h and include/mw/core/mmr/Node.h: the hashes of leaves and parents.
use libmw_core.Common.{[], replicate}
use libmw_core.Crypto.{Hashing}
use libmw_core.Util.EndianUtil.{Bytes, Platform}
use libmw_core.Serialization.{append_int, append_vector}
use libmw_core.Mmr.Index.{Index, LeafIndex, make_leaf_index}

-- `using Hash = BigInt<32>`, as its bytes, and the `ZERO_HASH` of include/mw/core/models/crypto/Hash.h.
abbrev pub Hash : Type 0
Hash = Bytes

abbrev pub zero_hash : Hash
zero_hash = replicate 32 0

-- `class Leaf`: m_index, m_hash and m_data.
pub record Leaf : Type 0 where
  pub index : LeafIndex
  pub hash : Hash
  pub vec : Bytes

-- A value-initialised leaf, with which `resize` fills up a vector.
abbrev pub default_leaf : Leaf
default_leaf = record { index = make_leaf_index 0 0; hash = zero_hash; vec = [] }

module _ ⦃p : Platform⦄ ⦃c : Hashing⦄ where
  -- `Leaf::Create`
  unfoldable pub create_leaf : LeafIndex → Bytes → Leaf
  create_leaf index vec = record {
    index = index;
    hash = c.blake2b (append_vector vec (append_int 8 index.node_index.position []));
    vec = vec;
  }

  -- The hash of `Node::CreateParent`.
  unfoldable pub create_parent : Index → Hash → Hash → Hash
  create_parent index left_hash right_hash =
      c.blake2b
        (append_vector right_hash (append_vector left_hash (append_int 8 index.position [])))
