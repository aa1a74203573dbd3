-- ===== src/Mmr/Mountain/Adding.antt =====
-- `MMR::Add` over a `VectorBackend` keeps the mountain range valid and only appends to it.
use libmw_core.Common.{ℕ, suc, ◌+◌, ◌^◌, ◌<◌, ◌≡◌, refl, sym, ap, ◌∙◌, arith}
use libmw_core.Common.{List, [], ◌∷◌, ◌++◌, length, length-append, get_or-append_left}
use libmw_core.Common.{get_or-append_right, lt-or-le, inl, inr, append_assoc}
use libmw_core.Exceptions.{ok}
use libmw_core.Crypto.{Hashing}
use libmw_core.Util.EndianUtil.{Bytes, Platform}
use libmw_core.Mmr.Index.{calculate_height, at, leaf_at, get_next}
use libmw_core.Mmr.Index.Relatives.{get_next-at}
use libmw_core.Mmr.Index.Leaves.{
  leaf_pos, leaf_pos-le, leaf_pos-lt_suc, leaf_pos-suc_near, leaf_pos_mono,
}
use libmw_core.Mmr.Index.Leaves.{leaf_position-leaf_pos}
use libmw_core.Mmr.Index.LeafHeights.{calculate_height-leaf_pos}
use libmw_core.Mmr.Index.LeafIndices.{get_leaf_index-leaf_at}
use libmw_core.Mmr.Node.{Hash, zero_hash, Leaf, default_leaf, create_leaf}
use libmw_core.Mmr.Backend.{add_parents, parents_fuel}
use libmw_core.Mmr.VectorBackend.{
  VectorBackend, vector_backend, add_hash, get_hash, add_leaf, num_leaves,
}
use libmw_core.Mmr.VectorBackend.Valid.{
  IsValid, hash_at, leaf_at_index, ParentsHashed, LeavesHashed,
}
use libmw_core.Mmr.VectorBackend.Valid.{ParentsHashed-snoc, hash_at-snoc_self}
use libmw_core.Mmr.VectorBackend.Parents.{Grown, add_parents-Grown}
use libmw_core.Mmr.Mountain.{add}

-- `s'` has what `s` has, and more behind it.
pub record Extends (s s' : VectorBackend) : Type 0 where
  pub more_leaves : List Leaf
  pub leaves : s'.leaves ≡ s.leaves ++ more_leaves
  pub more_nodes : List Hash
  pub nodes : s'.nodes ≡ s.nodes ++ more_nodes

module _ ⦃p : Platform⦄ ⦃c : Hashing⦄ where
  abbrev pub new_leaf : VectorBackend → Bytes → Leaf
  new_leaf s vec = create_leaf (leaf_at (length s.leaves)) vec

  -- The state in which the loop of `AddLeaf` starts.
  abbrev with_leaf : VectorBackend → Leaf → VectorBackend
  with_leaf s leaf = record { leaves = s.leaves ++ leaf ∷ []; nodes = s.nodes ++ leaf.hash ∷ [] }

  next_of_leaf : (n : ℕ) → suc n < 2 ^ 63 → get_next (leaf_at n).node_index ≡ at (leaf_pos n + 1)
  next_of_leaf n small =
      let le = leaf_pos-le n in
      ap get_next (
        (get_leaf_index-leaf_at n (omega arith)).0 ∙ ap at (leaf_position-leaf_pos n (omega arith)))
      ∙ get_next-at (leaf_pos n) (omega arith)

  add_run :
      (vec : Bytes) (s : VectorBackend)
      → suc (length s.leaves) < 2 ^ 63
      → let leaf = new_leaf s vec in
        add vector_backend vec s
        ≡ add_parents get_hash add_hash parents_fuel
            (at (leaf_pos (length s.leaves) + 1))
            leaf.hash
            (with_leaf s leaf)
  unfolding add add_leaf num_leaves create_leaf
  add_run vec s small = rw (next_of_leaf (length s.leaves) small)

  leaf-ParentsHashed :
      (x : Hash) (s : VectorBackend)
      → suc (length s.leaves) < 2 ^ 63
      → IsValid s
      → ParentsHashed (s.nodes ++ x ∷ [])
  leaf-ParentsHashed x s small v =
      let n = length s.leaves in
      let size = v.size in
      let le = leaf_pos-le n in
      ParentsHashed-snoc s.nodes x (omega arith) v.parents_hashed (λ h e. absurd (
        omega (
          arith,
          sym e
              ∙ ap calculate_height size
              ∙ calculate_height-leaf_pos n (omega arith) (omega arith),
        )))

  -- A list that grew has its old entries.
  grown_old :
      (nodes nodes' more : List Hash) (x : Hash) (i : ℕ)
      → nodes' ≡ (nodes ++ x ∷ []) ++ more
      → i < length nodes
      → hash_at nodes' i ≡ hash_at nodes i
  grown_old nodes nodes' more x i e h =
      ap (λ l. hash_at l i) (e ∙ append_assoc nodes (x ∷ []) more)
      ∙ get_or-append_left nodes (x ∷ more) i zero_hash h

  grown_new :
      (nodes nodes' more : List Hash) (x : Hash)
      → nodes' ≡ (nodes ++ x ∷ []) ++ more
      → hash_at nodes' (length nodes) ≡ x
  grown_new nodes nodes' more x e =
      let end : length nodes ≡ length nodes + 0 = omega arith in
      ap (λ l. hash_at l (length nodes)) (e ∙ append_assoc nodes (x ∷ []) more)
      ∙ ap (hash_at (nodes ++ x ∷ more)) end
      ∙ get_or-append_right nodes (x ∷ more) 0 zero_hash

  snoc_leaf :
      (leaves : List Leaf) (leaf : Leaf)
      → leaf_at_index (leaves ++ leaf ∷ []) (length leaves) ≡ leaf
  snoc_leaf leaves leaf =
      let end : length leaves ≡ length leaves + 0 = omega arith in
      ap (leaf_at_index (leaves ++ leaf ∷ [])) end
      ∙ get_or-append_right leaves (leaf ∷ []) 0 default_leaf

  LeavesHashed-snoc :
      (vec : Bytes) (s : VectorBackend) (nodes' more : List Hash)
      → IsValid s
      → nodes' ≡ (s.nodes ++ (new_leaf s vec).hash ∷ []) ++ more
      → LeavesHashed (s.leaves ++ new_leaf s vec ∷ []) nodes'
  unfolding create_leaf
  LeavesHashed-snoc vec s nodes' more v e m h =
      let leaf = new_leaf s vec in
      let len = length-append s.leaves (leaf ∷ []) in
      let size = v.size in
      elim (lt-or-le m (length s.leaves)) [
        | inl old ↦
            let same = get_or-append_left s.leaves (leaf ∷ []) m default_leaf old in
            let (made, placed) = v.leaves_hashed m old in
            rw same (
              made,
              grown_old s.nodes nodes' more leaf.hash (leaf_pos m) e
                    (omega (arith, leaf_pos_mono m (length s.leaves) old))
                  ∙ placed,
            )
        | inr last ↦
            let here : m ≡ length s.leaves = omega arith in
            rw (here, snoc_leaf s.leaves leaf)
              (refl, ap (hash_at nodes') (sym size) ∙ grown_new s.nodes nodes' more leaf.hash e)
      ]

  Grown-IsValid :
      (vec : Bytes) (s s' : VectorBackend)
      → IsValid s
      → Grown (leaf_pos (suc (length s.leaves))) (with_leaf s (new_leaf s vec)) s'
      → IsValid s'
  Grown-IsValid vec s s' v g = record {
    size =
        g.size
        ∙ ap leaf_pos
            (sym (ap length g.leaves ∙ length-append s.leaves (new_leaf s vec ∷ []) ∙ omega arith));
    parents_hashed = g.parents_hashed;
    leaves_hashed = rw g.leaves (LeavesHashed-snoc vec s s'.nodes g.more v g.nodes);
  }

  Grown-Extends :
      (leaf : Leaf) (target : ℕ) (s s' : VectorBackend)
      → Grown target (with_leaf s leaf) s'
      → Extends s s'
  Grown-Extends leaf target s s' g = record {
    more_leaves = leaf ∷ [];
    leaves = g.leaves;
    more_nodes = leaf.hash ∷ g.more;
    nodes = g.nodes ∙ append_assoc s.nodes (leaf.hash ∷ []) g.more;
  }

  -- `Add` on a valid state with fewer than 2^63 - 1 leaves returns; the result is valid, its
  -- leaves are the old ones and the one made of the data, and all old nodes are kept.
  pub add-IsValid :
      (vec : Bytes) (s : VectorBackend)
      → suc (length s.leaves) < 2 ^ 63
      → IsValid s
      → (s' : VectorBackend) × (add vector_backend vec s ≡ ok s')
        × IsValid s'
        × (s'.leaves ≡ s.leaves ++ new_leaf s vec ∷ [])
        × Extends s s'
  add-IsValid vec s small v =
      let n = length s.leaves in
      let leaf = new_leaf s vec in
      let len = length-append s.nodes (leaf.hash ∷ []) in
      let size = v.size in
      let (s', run, g) =
        add_parents-Grown n parents_fuel (leaf_pos n + 1) leaf.hash (with_leaf s leaf) (omega arith)
          (sym (hash_at-snoc_self s.nodes leaf.hash)
            ∙ ap (hash_at (s.nodes ++ leaf.hash ∷ [])) (omega arith))
          small (omega arith) (omega (arith, leaf_pos-lt_suc n))
          (omega (arith, leaf_pos-suc_near n)) (leaf-ParentsHashed leaf.hash s small v) in
      (
        s',
        add_run vec s small ∙ run,
        Grown-IsValid vec s s' v g,
        g.leaves,
        Grown-Extends leaf (leaf_pos (suc n)) s s' g,
      )
