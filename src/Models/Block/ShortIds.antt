-- ===== src/Models/Block/ShortIds.antt =====
-- A short id is the same on every machine.
use mathlib.Core.Path.{subst}
use libmw_core.Common.{ℕ, ◌<◌, ◌≡◌, ap, ◌∙◌, arith, [], ◌++◌, take, drop, length}
use libmw_core.Common.{take-append-drop, append_assoc, u64_mod, length-take, length-drop}
use libmw_core.Crypto.{Hashing}
use libmw_core.Exceptions.{Result, ok, err, undefined}
use libmw_core.Util.EndianUtil.{Bytes, Platform, le_bytes, from_le_bytes}
use libmw_core.Serialization.{
  Deserializer, ◌>>=◌, pure, append_vector, read_int_le, read_slice, append_int_le,
}
use libmw_core.Serialization.Order.{be_bytes, append_int-be_bytes, append_int_le-le_bytes}
use libmw_core.Serialization.Order.{read_int_le-le}
use libmw_core.Serialization.Reads.{Reads, Reads-bind, Reads-map, read_slice-Reads, at_rest}
use libmw_core.Models.BigInt.{BigInt, serialize_big_int}
use libmw_core.Models.Block.{ShortId, read_keys, create_short_id}

module _ ⦃p : Platform⦄ where
  read_int_le-Reads :
      (size : ℕ) (bs : Bytes) → length bs ≡ size → Reads (read_int_le size) bs (from_le_bytes bs)
  read_int_le-Reads size bs h front rest fits =
      let bytes =
        Reads-map (read_slice (length bs)) from_le_bytes bs bs (read_slice-Reads bs) front rest
          fits in
      rw (read_int_le-le size) (rw h at bytes)

  read_keys-Reads :
      (xs ys : Bytes)
      → length xs ≡ 8
      → length ys ≡ 8
      → Reads read_keys (xs ++ ys) (from_le_bytes xs, from_le_bytes ys)
  unfolding read_keys
  read_keys-Reads xs ys h h' =
      Reads-bind (read_int_le 8) (λ k0. read_int_le 8 >>= λ k1. pure (k0, k1)) xs ys
        (from_le_bytes xs) (from_le_bytes xs, from_le_bytes ys) (read_int_le-Reads 8 xs h)
        (Reads-map (read_int_le 8) (λ k1. (from_le_bytes xs, k1)) ys (from_le_bytes ys)
          (read_int_le-Reads 8 ys h'))

  -- The two keys at the head of a buffer.
  read_keys-head :
      (bs : Bytes)
      → length bs ≡ 32
      → (d : Deserializer) × (read_keys (record { index = 0; bytes = bs })
          ≡ ok ((from_le_bytes (take 8 bs), from_le_bytes (take 8 (drop 8 bs))), d))
  read_keys-head bs h =
      let xs = take 8 bs in
      let ys = take 8 (drop 8 bs) in
      let zs = drop 8 (drop 8 bs) in
      let whole : (xs ++ ys) ++ zs ≡ bs =
        append_assoc xs ys zs
        ∙ ap (λ x. xs ++ x) (take-append-drop 8 (drop 8 bs))
        ∙ take-append-drop 8 bs in
      let many : length xs ≡ 8 = omega (arith, length-take 8 bs) in
      let many' : length ys ≡ 8 = omega (arith, length-take 8 (drop 8 bs), length-drop 8 bs) in
      let fits : length ((xs ++ ys) ++ zs) < u64_mod = omega (arith, ap length whole) in
      (
        at_rest (xs ++ ys) zs,
        subst
            (λ b.
              read_keys (record { index = 0; bytes = b })
              ≡ ok ((from_le_bytes xs, from_le_bytes ys), at_rest (xs ++ ys) zs))
            whole (read_keys-Reads xs ys many many' [] zs fits),
      )

  -- Where the hash has 32 bytes, a short id is made, of the six low bytes of the SipHash, lowest
  -- first. Its keys are the first two words of the hash of the block's hash and the nonce, read
  -- lowest byte first, and the result is the same on machines of either byte order.
  pub create_short_id_lem :
      ⦃c : Hashing⦄ (sip_hash_24 : ℕ → ℕ → Bytes → ℕ) (hash block_hash : BigInt) (nonce : ℕ)
      → let bs = c.blake2b (block_hash ++ be_bytes 8 nonce) in
        length bs ≡ 32
        → create_short_id sip_hash_24 hash block_hash nonce
          ≡ ok (
              take 6 (
                le_bytes 8 (
                  sip_hash_24
                    (from_le_bytes (take 8 bs))
                    (from_le_bytes (take 8 (drop 8 bs)))
                    hash)))
  unfolding create_short_id serialize_big_int append_vector
  create_short_id_lem ⦃c = c⦄ sip_hash_24 hash block_hash nonce h =
      let keys = read_keys-head (c.blake2b (block_hash ++ be_bytes 8 nonce)) h in
      let finish : Result ((ℕ × ℕ) × Deserializer) → Result ShortId = λ m. elim m [
        | ok (keys, d) ↦ ok (take 6 (append_int_le 8 (sip_hash_24 keys.0 keys.1 hash) []))
        | err e ↦ err e
        | undefined ↦ undefined
      ] in
      ap (λ b. finish (read_keys (record { index = 0; bytes = c.blake2b b })))
        (append_int-be_bytes 8 nonce block_hash)
      ∙ ap finish keys.1
      ∙ ap (λ x. ok (take 6 x)) (append_int_le-le_bytes 8 _ [])
