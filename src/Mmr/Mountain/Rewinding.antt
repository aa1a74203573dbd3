-- ===== src/Mmr/Mountain/Rewinding.antt =====
-- `MMR::Rewind` to the size of an earlier state brings that state back.
use libmw_core.Common.{resize}
use libmw_core.Common.{◌+◌, ◌-◌, ◌*◌, ◌^◌, ◌<◌, ◌≡◌, refl, sym, ap, ◌∙◌, arith, List, [], ◌∷◌}
use libmw_core.Common.{◌++◌, length, length-append, take-append_length, append-nil}
use libmw_core.Common.{append_assoc, ◌==◌, inl, inr, Bool-cases}
use libmw_core.Exceptions.{Result, ok, ◌>>=◌}
use libmw_core.Crypto.{Hashing}
use libmw_core.Util.EndianUtil.{Bytes, Platform}
use libmw_core.Mmr.Index.{at, get_leaf_index}
use libmw_core.Mmr.Index.Relatives.{position-at}
use libmw_core.Mmr.Index.Leaves.{leaf_pos, leaf_position-leaf_pos, leaf_pos-zero}
use libmw_core.Mmr.Index.LeafIndices.{get_leaf_index-leaf_at}
use libmw_core.Mmr.Node.{default_leaf, zero_hash}
use libmw_core.Mmr.VectorBackend.{VectorBackend, vector_backend, num_leaves}
use libmw_core.Mmr.VectorBackend
use libmw_core.Mmr.VectorBackend.Valid.{IsValid}
use libmw_core.Mmr.Mountain.{add, num_nodes, rewind}
use libmw_core.Mmr.Mountain.Adding.{Extends, add-IsValid}

resize_back {ℓ} : {A : Type ℓ} (xs ys : List A) (d : A) → resize (length xs) d (xs ++ ys) ≡ xs
resize_back xs ys d =
    let none_new : length xs - length (xs ++ ys) ≡ 0 = omega (arith, length-append xs ys) in
    rw (take-append_length xs ys, none_new) (append-nil xs)

module _ ⦃p : Platform⦄ ⦃c : Hashing⦄ where
  -- The number of nodes of a valid state is the length of its node vector.
  pub num_nodes-length :
      (s : VectorBackend)
      → IsValid s
      → 2 * length s.leaves + 1 < 2 ^ 64
      → num_nodes vector_backend s ≡ length s.nodes
  unfolding num_nodes num_leaves
  num_nodes-length s v small =
      let n = length s.leaves in
      let size = v.size in
      elim (Bool-cases (n == 0)) [
        | inl e ↦
            let none_yet : n ≡ 0 = ground arith in
            rw e (sym (size ∙ ap leaf_pos none_yet ∙ leaf_pos-zero))
        | inr e ↦ rw e (leaf_position-leaf_pos n (omega arith) ∙ sym size)
      ]

  -- Whatever was added to a valid state, rewinding to its number of nodes gives it back.
  pub rewind-Extends :
      (s s' : VectorBackend)
      → IsValid s
      → 2 * length s.leaves + 1 < 2 ^ 64
      → Extends s s'
      → rewind vector_backend (num_nodes vector_backend s) s' ≡ ok s
  unfolding rewind VectorBackend.rewind
  rewind-Extends s s' v small e =
      let n = length s.leaves in
      let pos = leaf_position-leaf_pos n (omega arith) in
      let index : get_leaf_index (at (leaf_pos n)) ≡ n =
        ap (λ i. get_leaf_index (at i)) (sym pos) ∙ (get_leaf_index-leaf_at n small).2 in
      rw (
        num_nodes-length s v small ∙ v.size,
        index,
        position-at (leaf_pos n),
        e.leaves,
        e.nodes,
        resize_back s.leaves e.more_leaves default_leaf,
        sym v.size,
        resize_back s.nodes e.more_nodes zero_hash,
      )

  -- A run of calls of `Add`.
  abbrev pub add_all : List Bytes → VectorBackend → Result VectorBackend
  add_all [] s = ok s
  add_all (vec ∷ vecs) s = add vector_backend vec s >>= add_all vecs

  Extends-refl : (s : VectorBackend) → Extends s s
  Extends-refl s = record {
    more_leaves = [];
    leaves = sym (append-nil s.leaves);
    more_nodes = [];
    nodes = sym (append-nil s.nodes);
  }

  Extends-trans : (s t u : VectorBackend) → Extends s t → Extends t u → Extends s u
  Extends-trans s t u e f = record {
    more_leaves = e.more_leaves ++ f.more_leaves;
    leaves =
        f.leaves
        ∙ ap (λ l. l ++ f.more_leaves) e.leaves
        ∙ append_assoc s.leaves e.more_leaves f.more_leaves;
    more_nodes = e.more_nodes ++ f.more_nodes;
    nodes =
        f.nodes
        ∙ ap (λ l. l ++ f.more_nodes) e.nodes
        ∙ append_assoc s.nodes e.more_nodes f.more_nodes;
  }

  add_all-Extends :
      (vecs : List Bytes) (s : VectorBackend)
      → length s.leaves + length vecs < 2 ^ 63
      → IsValid s
      → (s' : VectorBackend) × (add_all vecs s ≡ ok s') × IsValid s' × Extends s s'
  add_all-Extends [] s small v = (s, refl, v, Extends-refl s)
  add_all-Extends (vec ∷ vecs) s small v =
      let (t, run, valid, leaves, e) = add-IsValid vec s (omega arith) v in
      let len : length t.leaves ≡ length s.leaves + 1 =
        ap length leaves ∙ length-append s.leaves _ in
      let (u, run', valid', e') = add_all-Extends vecs t (omega arith) valid in
      (u, rw run run', valid', Extends-trans s t u e e')

  -- Any number of calls of `Add` on a valid state return a valid state, and `Rewind` to the
  -- number of nodes before them gives the old state back.
  pub rewind-add_all :
      (vecs : List Bytes) (s : VectorBackend)
      → length s.leaves + length vecs < 2 ^ 63
      → IsValid s
      → (s' : VectorBackend) × (add_all vecs s ≡ ok s')
        × IsValid s'
        × (rewind vector_backend (num_nodes vector_backend s) s' ≡ ok s)
  rewind-add_all vecs s small v =
      let (s', run, valid, e) = add_all-Extends vecs s small v in
      (s', run, valid, rewind-Extends s s' v (omega arith) e)
