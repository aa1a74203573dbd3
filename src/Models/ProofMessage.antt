-- ===== src/Models/ProofMessage.antt =====
-- include/mw/core/models/crypto/ProofMessage.h: the path of a key, in the message of a range proof.
pub mod RoundTrip
pub mod Tests
use libmw_core.Common.{ℕ, zero, suc, ◌%◌, ◌^◌, Bool, not, List, [], ◌∷◌, length, ltb, ◌==◌}
use libmw_core.Common.{if◌then◌else◌}
use libmw_core.Exceptions.{Result, ok, err, undefined}
use libmw_core.Util.EndianUtil.{Bytes, Platform}
use libmw_core.Serialization.{
  Read, ◌>>=◌, pure, throw_if, append_int, append_all, read_int, read_times,
}
use libmw_core.Models.BigInt.{BigInt, set_at, value_of}

-- `enum class EBulletProofType`
pub data BulletProofType : Type 0 where
  original enhanced : BulletProofType

-- The loop that copies the indices into the path: `paddedPath[i]` checks no bound.
unfoldable pub write_path : ℕ → Bytes → BigInt → Result BigInt
write_path i [] path = ok path
write_path i (b ∷ bs) path =
    let rest = write_path (suc i) bs (set_at i b path) in
    if ltb i (length path) then rest else undefined

module _ ⦃p : Platform⦄ where
  -- `FromKeyIndices`
  unfoldable pub from_key_indices : List ℕ → BulletProofType → Result BigInt
  unfolding value_of append_int append_all
  from_key_indices indices original =
      write_path 4 (append_all (append_int 4) indices []) (value_of 20 0)
  from_key_indices indices enhanced =
      write_path 4 (append_all (append_int 4) indices [])
        (set_at 3 (length indices % 2 ^ 8) (set_at 2 1 (value_of 20 0)))

  -- What `ToKeyIndices` reads before the indices: their number.
  unfoldable pub read_length : BulletProofType → Read ℕ
  read_length enhanced = do
    reserved ← read_int 1
    wallet_type ← read_int 1
    switch_commits ← read_int 1
    read_int 1
  read_length original = do
    first_4_bytes ← read_int 4
    _ ← throw_if (not (first_4_bytes == 0))
    pure 3

  -- `ToKeyIndices`
  unfoldable pub read_key_indices : BulletProofType → Read (List ℕ)
  read_key_indices type = do
    length ← read_length type
    read_times (if length == 0 then 3 else length) (read_int 4)

  unfoldable pub to_key_indices : BigInt → BulletProofType → Result (List ℕ)
  unfolding read_key_indices
  to_key_indices bytes type = elim (read_key_indices type (record { index = 0; bytes = bytes })) [
    | ok (indices, d) ↦ ok indices
    | err e ↦ err e
    | undefined ↦ undefined
  ]
