-- ===== src/Mmr/Backend.antt =====
-- include/mw/core/mmr/Backend.h: what a backend does, and the loop that both backends run.
pub mod Simulation
use libmw_core.Common.{ℕ, zero, suc, if◌then◌else◌}
use libmw_core.Exceptions.{Result, ok, undefined, ◌>>=◌}
use libmw_core.Crypto.{Hashing}
use libmw_core.Util.EndianUtil.{Platform}
use libmw_core.Mmr.Index.{Index, LeafIndex, is_leaf, get_next, get_left_child}
use libmw_core.Mmr.Node.{Hash, Leaf, create_parent}

-- `class IBackend`, over the state of the class that implements it.
pub record Backend (S : Type 0) : Type 0 where
  pub add_leaf : Leaf → S → Result S
  pub add_hash : Hash → S → Result S
  pub rewind : LeafIndex → S → Result S
  pub num_leaves : S → ℕ
  pub get_hash : Index → S → Result Hash
  pub get_leaf : LeafIndex → S → Result Leaf
  pub commit : S → Result S
  pub rollback : S → S

module _ ⦃p : Platform⦄ ⦃c : Hashing⦄ {S : Type 0} (get_hash : Index → S → Result Hash)
    (add_hash : Hash → S → Result S) where
  -- The loop of `AddLeaf`, which stands in VectorBackend.h and FileBackend.h alike: `next_idx` and
  -- `right_hash` are its variables. Without fuel it counts as not returning.
  unfoldable pub add_parents : ℕ → Index → Hash → S → Result S
  add_parents zero next_idx right_hash s = undefined
  add_parents (suc fuel) next_idx right_hash s =
      let round = (do
        left_hash ← get_hash (get_left_child next_idx) s
        let node = create_parent next_idx left_hash right_hash
        s' ← add_hash node s
        add_parents fuel (get_next next_idx) node s') in
      if is_leaf next_idx then ok s else round

-- Behind a leaf stand at most 65 parents.
abbrev pub parents_fuel : ℕ
parents_fuel = 66
