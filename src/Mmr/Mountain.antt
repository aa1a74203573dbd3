-- ===== src/Mmr/Mountain.antt =====
-- include/mw/core/mmr/MMR.h and src/mmr/MMR.cpp: `class MMR`, over a backend.
pub mod Adding
pub mod Rewinding
pub mod Peaks
pub mod Rooting
use mathlib.Core.List.{reverse}
use libmw_core.Common.{ℕ, zero, suc, ◌-◌, ◌/◌, List, [], ◌∷◌, ◌++◌, ◌==◌, leb, if◌then◌else◌}
use libmw_core.Common.{add64, sub64, bytes_eq}
use libmw_core.Exceptions.{Result, ok, ◌>>=◌}
use libmw_core.Crypto.{Hashing}
use libmw_core.Util.BitUtil.{fill_ones_to_right}
use libmw_core.Util.EndianUtil.{Bytes, Platform}
use libmw_core.Mmr.Index.{make_leaf_index, at, get_leaf_index, leaf_at, leaf_position}
use libmw_core.Mmr.Node.{Hash, zero_hash, create_leaf, create_parent}
use libmw_core.Mmr.Backend.{Backend}

-- The loop of `Root` over the peak sizes: the positions of the peaks, from the left, and what is
-- left of the size.
unfoldable pub peak_loop : ℕ → ℕ → ℕ → ℕ → List ℕ → List ℕ × ℕ
peak_loop zero peak num_left sum_prev_peaks peaks = (peaks, num_left)
peak_loop (suc fuel) peak num_left sum_prev_peaks peaks =
    let fits = leb peak num_left in
    let rest =
      peak_loop fuel (peak / 2) (if fits then num_left - peak else num_left)
        (if fits then add64 sum_prev_peaks peak else sum_prev_peaks)
        (if fits then peaks ++ sub64 (add64 sum_prev_peaks peak) 1 ∷ [] else peaks) in
    if peak == 0 then (peaks, num_left) else rest

unfoldable pub peak_indices : ℕ → List ℕ × ℕ
peak_indices size = peak_loop 64 (fill_ones_to_right size) size 0 []

module _ ⦃p : Platform⦄ ⦃c : Hashing⦄ {S : Type 0} (backend : Backend S) where
  -- `MMR::Add`
  unfoldable pub add : Bytes → S → Result S
  add vec s = backend.add_leaf (create_leaf (leaf_at (backend.num_leaves s)) vec) s

  -- `MMR::GetNumNodes`
  unfoldable pub num_nodes : S → ℕ
  num_nodes s =
      let num_leaves = backend.num_leaves s in
      if num_leaves == 0 then 0 else leaf_position num_leaves

  -- The loop that bags the peaks, over the list in reverse: the last peak first.
  unfoldable pub bag : ℕ → List ℕ → Hash → S → Result Hash
  bag size [] hash s = ok hash
  bag size (peak ∷ peaks) hash s = do
    peak_hash ← backend.get_hash (at peak) s
    bag size peaks
        (if bytes_eq hash zero_hash then peak_hash else create_parent (at size) peak_hash hash) s

  -- `MMR::Root`
  unfoldable pub root : S → Result Hash
  root s =
      let size = num_nodes s in
      if size == 0 then ok zero_hash else bag size (reverse (peak_indices size).0) zero_hash s

  -- `MMR::Rewind`
  unfoldable pub rewind : ℕ → S → Result S
  rewind nodes s =
      let next_idx = at nodes in
      backend.rewind (make_leaf_index (get_leaf_index next_idx) next_idx.position) s
