-- ===== src/Mmr/Mountain/Rooting.antt =====
-- `MMR::Root` over a `VectorBackend`: the peaks, bagged from the right.
use mathlib.Core.List.{reverse, reverse-append}
use libmw_core.Common.{ℕ, ◌^◌, ◌<◌, ◌≡◌, refl, ap, ◌∙◌, arith, Bool-cases, inl, inr}
use libmw_core.Common.{List, [], ◌∷◌, ◌++◌, map, length, All, lt→ltb, ◌==◌, bytes_eq}
use libmw_core.Common.{if◌then◌else◌}
use libmw_core.Exceptions.{Result-cases, ok, ◌>>=◌}
use libmw_core.Crypto.{Hashing}
use libmw_core.Util.EndianUtil.{Platform}
use libmw_core.Mmr.Index.{at}
use libmw_core.Mmr.Index.Relatives.{position-at}
use libmw_core.Mmr.Index.Leaves.{leaf_pos-le}
use libmw_core.Mmr.Node.{Hash, zero_hash, create_parent}
use libmw_core.Mmr.VectorBackend.{VectorBackend, vector_backend}
use libmw_core.Mmr.VectorBackend
use libmw_core.Mmr.VectorBackend.Valid.{IsValid, hash_at}
use libmw_core.Mmr.Mountain.{peak_indices, bag, root}
use libmw_core.Mmr.Mountain.Rewinding.{num_nodes-length}
use libmw_core.Mmr.Mountain.Peaks.{peaks_of, peak_indices-leaf_pos}

module _ ⦃p : Platform⦄ ⦃c : Hashing⦄ where
  -- One step of bagging: a hash of zeros counts as none.
  abbrev join : ℕ → Hash → Hash → Hash
  join size left right =
      if bytes_eq right zero_hash then left else create_parent (at size) left right

  -- The hashes of peaks from the left, each joined with those to its right.
  abbrev pub bagged : ℕ → List Hash → Hash
  bagged size [] = zero_hash
  bagged size (h ∷ hs) = join size h (bagged size hs)

  bag-append :
      (size : ℕ) (xs ys : List ℕ) (hash : Hash) (s : VectorBackend)
      → bag vector_backend size (xs ++ ys) hash s
        ≡ (bag vector_backend size xs hash s >>= λ h. bag vector_backend size ys h s)
  unfolding bag
  bag-append size [] ys hash s = refl
  bag-append size (x ∷ xs) ys hash s = elim (Result-cases (VectorBackend.get_hash (at x) s)) [
    | inl (h, e) ↦ rw (e, ◌>>=◌) (bag-append size xs ys (join size h hash) s)
    | inr (inl (x, e)) ↦ rw e refl
    | inr (inr e) ↦ rw e refl
  ]

  bag-peak :
      (size i : ℕ) (hash : Hash) (s : VectorBackend)
      → i < length s.nodes
      → bag vector_backend size (i ∷ []) hash s ≡ ok (join size (hash_at s.nodes i) hash)
  unfolding bag VectorBackend.get_hash
  bag-peak size i hash s h = rw (position-at i, lt→ltb i (length s.nodes) h) refl

  bag-bagged :
      (size : ℕ) (peaks : List ℕ) (s : VectorBackend)
      → All (λ i. i < length s.nodes) peaks
      → bag vector_backend size (reverse peaks) zero_hash s
        ≡ ok (bagged size (map (hash_at s.nodes) peaks))
  unfolding bag
  bag-bagged size [] s h = refl
  bag-bagged size (i ∷ peaks) s (h, hs) =
      ap (λ t. bag vector_backend size t zero_hash s) (reverse-append (i ∷ []) peaks)
      ∙ bag-append size (reverse peaks) (i ∷ []) zero_hash s
      ∙ rw (bag-bagged size peaks s hs, ◌>>=◌)
          (bag-peak size i (bagged size (map (hash_at s.nodes) peaks)) s h)

  none_below : (xs : List ℕ) → All (λ i. i < 0) xs → xs ≡ []
  none_below [] h = refl
  none_below (x ∷ xs) (h, hs) = absurd (omega arith)

  -- `Root` of a valid state with fewer than 2^62 leaves returns. The peaks are those of the binary digits of the number of
  -- leaves, the largest tree first, and no node is left over; the root is the hash of the first peak
  -- joined with what the peaks to its right give, and the zero hash if there is no leaf.
  pub root-bagged :
      (s : VectorBackend)
      → IsValid s
      → length s.leaves < 2 ^ 62
      → let peaks = peaks_of 64 (length s.leaves) 0 in
        (peak_indices (length s.nodes) ≡ (peaks, 0))
        × (root vector_backend s ≡ ok (bagged (length s.nodes) (map (hash_at s.nodes) peaks)))
  unfolding root
  root-bagged s v small =
      let n = length s.leaves in
      let le = leaf_pos-le n in
      let size = v.size in
      let (found, inside) = peak_indices-leaf_pos n (omega arith) in
      let below : All (λ i. i < length s.nodes) (peaks_of 64 n 0) = rw size inside in
      let found' : peak_indices (length s.nodes) ≡ (peaks_of 64 n 0, 0) =
        ap peak_indices size ∙ found in
      let count = num_nodes-length s v (omega arith) in
      (
        found',
        elim (Bool-cases (length s.nodes == 0)) [
          | inl e ↦
              let none : length s.nodes ≡ 0 = ground arith in
              let no_peak = none_below (peaks_of 64 n 0) (rw none at below) in
              rw (count, e, no_peak) refl
          | inr e ↦ rw (count, e, found') (bag-bagged (length s.nodes) (peaks_of 64 n 0) s below)
        ],
      )
