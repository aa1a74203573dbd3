-- ===== src/Mmr/VectorBackend/Valid.antt =====
-- When the vectors of a `VectorBackend` hold a Merkle mountain range.
use libmw_core.Common.{ℕ, suc, ◌+◌, ◌-◌, ◌^◌, ◌≤◌, ◌<◌, ◌≡◌, sym, ap, ◌∙◌, arith, powers}
use libmw_core.Common.{List, [], ◌∷◌, ◌++◌, length, length-append, get_or, get_or-append_left}
use libmw_core.Common.{get_or-append_right, u64_mod, lt-or-le, inl, inr}
use libmw_core.Crypto.{Hashing}
use libmw_core.Util.EndianUtil.{Platform}
use libmw_core.Mmr.Index.{calculate_height, at, leaf_at}
use libmw_core.Mmr.Index.Height.{calculate_height-tree_height}
use libmw_core.Mmr.Index.Family.{children}
use libmw_core.Mmr.Index.Leaves.{leaf_pos, leaf_pos-zero}
use libmw_core.Mmr.Node.{Hash, zero_hash, Leaf, default_leaf, create_leaf, create_parent}
use libmw_core.Mmr.VectorBackend.{VectorBackend, empty_backend}

abbrev pub hash_at : List Hash → ℕ → Hash
hash_at nodes i = get_or nodes i zero_hash

abbrev pub leaf_at_index : List Leaf → ℕ → Leaf
leaf_at_index leaves n = get_or leaves n default_leaf

-- A node that is not a leaf has children before it.
pub parent_room : (i h : ℕ) → i + 1 < u64_mod → calculate_height i ≡ suc h → 2 ^ suc h ≤ i
parent_room i h fits e =
    let c =
      children 64 h i (omega arith)
        (sym (calculate_height-tree_height 64 i fits (omega arith)) ∙ e) in
    c.room

module _ ⦃p : Platform⦄ ⦃c : Hashing⦄ where
  -- Every parent is the hash of its position and its two children.
  abbrev pub ParentsHashed : List Hash → Type 0
  ParentsHashed nodes =
      (i h : ℕ)
      → i < length nodes
      → calculate_height i ≡ suc h
      → hash_at nodes i
        ≡ create_parent (at i) (hash_at nodes (i - 2 ^ suc h)) (hash_at nodes (i - 1))

  -- Every leaf is the one that `Leaf::Create` makes of its data, and its hash stands at its node.
  abbrev pub LeavesHashed : List Leaf → List Hash → Type 0
  LeavesHashed leaves nodes =
      (n : ℕ)
      → n < length leaves
      → (leaf_at_index leaves n ≡ create_leaf (leaf_at n) (leaf_at_index leaves n).vec)
        × (hash_at nodes (leaf_pos n) ≡ (leaf_at_index leaves n).hash)

  pub record IsValid (s : VectorBackend) : Type 0 where
    pub size : length s.nodes ≡ leaf_pos (length s.leaves)
    pub parents_hashed : ParentsHashed s.nodes
    pub leaves_hashed : LeavesHashed s.leaves s.nodes

  pub empty_backend-IsValid : IsValid empty_backend
  empty_backend-IsValid = record {
    size = sym leaf_pos-zero;
    parents_hashed = λ i h lt e. absurd (omega arith);
    leaves_hashed = λ n lt. absurd (omega arith);
  }

  pub hash_at-snoc_self :
      (nodes : List Hash) (x : Hash) → hash_at (nodes ++ x ∷ []) (length nodes) ≡ x
  hash_at-snoc_self nodes x =
      let e : length nodes ≡ length nodes + 0 = omega arith in
      ap (hash_at (nodes ++ x ∷ [])) e ∙ get_or-append_right nodes (x ∷ []) 0 zero_hash

  -- One more node keeps the parents hashed if it is hashed itself.
  pub ParentsHashed-snoc :
      (nodes : List Hash) (x : Hash)
      → length nodes + 1 < u64_mod
      → ParentsHashed nodes
      → ((h : ℕ)
          → calculate_height (length nodes) ≡ suc h
          → x
            ≡ create_parent
                (at (length nodes))
                (hash_at nodes (length nodes - 2 ^ suc h))
                (hash_at nodes (length nodes - 1)))
      → ParentsHashed (nodes ++ x ∷ [])
  ParentsHashed-snoc nodes x fits old new i h lt e =
      let room = parent_room i h (omega (arith, length-append nodes (x ∷ []))) e in
      let left =
        get_or-append_left nodes (x ∷ []) (i - 2 ^ suc h) zero_hash
          (omega (powers, length-append nodes (x ∷ []))) in
      let right =
        get_or-append_left nodes (x ∷ []) (i - 1) zero_hash
          (omega (powers, length-append nodes (x ∷ []))) in
      elim (lt-or-le i (length nodes)) [
        | inl inner ↦
            rw (get_or-append_left nodes (x ∷ []) i zero_hash inner, left, right) (old i h inner e)
        | inr last ↦
            let end : i ≡ length nodes = omega (arith, length-append nodes (x ∷ [])) in
            rw (left, right) (rw end (hash_at-snoc_self nodes x ∙ new h (rw end at e)))
      ]
