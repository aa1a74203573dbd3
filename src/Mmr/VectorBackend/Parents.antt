-- ===== src/Mmr/VectorBackend/Parents.antt =====
-- The loop of `AddLeaf` on a `VectorBackend`: it adds the parents up to the next leaf, and ends.
use libmw_core.Common.{
  ℕ, zero, suc, ◌+◌, ◌-◌, ◌^◌, ◌≤◌, ◌<◌, ◌≡◌, refl, sym, ap, ◌∙◌, arith, powers,
}
use libmw_core.Common.{
  List, [], ◌∷◌, ◌++◌, length, length-append, u64_mod, lt-or-le, inl, inr, append_assoc,
}
use libmw_core.Common.{append-nil, suc_of_pos, lt→ltb, ◌==◌, false}
use libmw_core.Exceptions.{ok}
use libmw_core.Crypto.{Hashing}
use libmw_core.Util.EndianUtil.{Platform}
use libmw_core.Mmr.Index.{calculate_height, at}
use libmw_core.Mmr.Index.Relatives.{position-at, is_leaf-at, get_next-at, get_left_child-at}
use libmw_core.Mmr.Index.Leaves.{leaf_pos, leaf_pos-le}
use libmw_core.Mmr.Index.LeafHeights.{calculate_height-leaf_pos, calculate_height_between}
use libmw_core.Mmr.Node.{Hash, create_parent}
use libmw_core.Mmr.Backend.{add_parents}
use libmw_core.Mmr.VectorBackend.{VectorBackend, get_hash, add_hash}
use libmw_core.Mmr.VectorBackend.Valid.{hash_at, parent_room, ParentsHashed, ParentsHashed-snoc}
use libmw_core.Mmr.VectorBackend.Valid.{hash_at-snoc_self}

abbrev push : VectorBackend → Hash → VectorBackend
push s x = record s { nodes = s.nodes ++ x ∷ [] }

module _ ⦃p : Platform⦄ ⦃c : Hashing⦄ where
  -- A round at a parent hashes its two children and adds the result.
  add_parents_round :
      (fuel h i : ℕ) (right : Hash) (s : VectorBackend)
      → i ≡ length s.nodes
      → i + 1 < u64_mod
      → calculate_height i ≡ suc h
      → let x = create_parent (at i) (hash_at s.nodes (i - 2 ^ suc h)) right in
        add_parents get_hash add_hash (suc fuel) (at i) right s
        ≡ add_parents get_hash add_hash fuel (at (i + 1)) x (push s x)
  unfolding add_parents get_hash add_hash
  add_parents_round fuel h i right s here fits e =
      let room = parent_room i h fits e in
      let inner : (calculate_height i == 0) ≡ false = rw e (ground arith) in
      rw (
        is_leaf-at i,
        inner,
        get_left_child-at i h fits e,
        position-at (i - 2 ^ suc h),
        lt→ltb (i - 2 ^ suc h) (length s.nodes) (omega powers),
        get_next-at i fits,
      )

  add_parents_end :
      (fuel i : ℕ) (right : Hash) (s : VectorBackend)
      → calculate_height i ≡ 0
      → add_parents get_hash add_hash (suc fuel) (at i) right s ≡ ok s
  unfolding add_parents
  add_parents_end fuel i right s e = rw (is_leaf-at i, e)

  -- What the loop has made of `s`: hashed parents behind the nodes that were there.
  pub record Grown (target : ℕ) (s s' : VectorBackend) : Type 0 where
    pub more : List Hash
    pub nodes : s'.nodes ≡ s.nodes ++ more
    pub leaves : s'.leaves ≡ s.leaves
    pub size : length s'.nodes ≡ target
    pub parents_hashed : ParentsHashed s'.nodes

  Grown-push :
      (target : ℕ) (x : Hash) (s s' : VectorBackend)
      → Grown target (push s x) s'
      → Grown target s s'
  Grown-push target x s s' g = record {
    more = x ∷ g.more;
    nodes = g.nodes ∙ append_assoc s.nodes (x ∷ []) g.more;
    leaves = g.leaves;
    size = g.size;
    parents_hashed = g.parents_hashed;
  }

  Grown-refl :
      (target : ℕ) (s : VectorBackend)
      → length s.nodes ≡ target
      → ParentsHashed s.nodes
      → Grown target s s
  Grown-refl target s end hashed = record {
    more = [];
    nodes = sym (append-nil s.nodes);
    leaves = refl;
    size = end;
    parents_hashed = hashed;
  }

  push-ParentsHashed :
      (h i : ℕ) (right : Hash) (s : VectorBackend)
      → i ≡ length s.nodes
      → right ≡ hash_at s.nodes (i - 1)
      → i + 1 < u64_mod
      → calculate_height i ≡ suc h
      → ParentsHashed s.nodes
      → ParentsHashed (s.nodes ++ create_parent (at i) (hash_at s.nodes (i - 2 ^ suc h)) right ∷ [])
  push-ParentsHashed h i right s here before fits e hashed =
      rw (before, here)
        (ParentsHashed-snoc s.nodes _ (omega arith) hashed (λ k ek.
          ap
            (λ m.
              create_parent (at (length s.nodes)) (hash_at s.nodes (length s.nodes - 2 ^ m))
                (hash_at s.nodes (length s.nodes - 1)))
            (sym e ∙ ap calculate_height here ∙ ek)))

  -- From a node behind leaf `n` on, the loop returns, and has hashed all parents up to leaf n + 1.
  pub add_parents-Grown :
      (n fuel i : ℕ) (right : Hash) (s : VectorBackend)
      → i ≡ length s.nodes
      → right ≡ hash_at s.nodes (i - 1)
      → suc n < 2 ^ 63
      → leaf_pos n < i
      → i ≤ leaf_pos (suc n)
      → leaf_pos (suc n) < i + fuel
      → ParentsHashed s.nodes
      → (s' : VectorBackend) × (add_parents get_hash add_hash fuel (at i) right s ≡ ok s')
        × Grown (leaf_pos (suc n)) s s'
  add_parents-Grown n zero i right s here before small after upto enough hashed =
      absurd (omega arith)
  add_parents-Grown n (suc fuel) i right s here before small after upto enough hashed =
      let last = leaf_pos-le (suc n) in
      elim (lt-or-le i (leaf_pos (suc n))) [
        | inl inner ↦
            let (h, e) =
              suc_of_pos (calculate_height i)
                (calculate_height_between n i (omega arith) after inner) in
            let x = create_parent (at i) (hash_at s.nodes (i - 2 ^ suc h)) right in
            let (s', run, g) =
              add_parents-Grown n fuel (i + 1) x (push s x)
                (omega (arith, length-append s.nodes (x ∷ [])))
                (sym (hash_at-snoc_self s.nodes x) ∙ ap (hash_at (s.nodes ++ x ∷ [])) (omega arith))
                small (omega arith) (omega arith) (omega arith)
                (push-ParentsHashed h i right s here before (omega arith) e hashed) in
            (
              s',
              add_parents_round fuel h i right s here (omega arith) e ∙ run,
              Grown-push (leaf_pos (suc n)) x s s' g,
            )
        | inr over ↦
            let end : i ≡ leaf_pos (suc n) = omega arith in
            (
              s,
              add_parents_end fuel i right s
                  (ap calculate_height end ∙ calculate_height-leaf_pos (suc n) small (omega arith)),
              Grown-refl (leaf_pos (suc n)) s (omega arith) hashed,
            )
      ]
