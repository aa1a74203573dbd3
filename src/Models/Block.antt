-- ===== src/Models/Block.antt =====
-- include/mw/core/models/block/CompactBlock.h and ShortId.h: a block without the transactions that
-- its reader knows. `ReadU64` and `ReadU64_LE`, which `Deserializer` does not have, are read as its
-- `Read<uint64_t>` and `ReadLE<uint64_t>`.
pub mod RoundTrip
pub mod ShortIds
pub mod Tests
use libmw_core.Common.{ℕ, List, [], take, length}
use libmw_core.Crypto.{Hashing}
use libmw_core.Exceptions.{Result, ok, err, undefined}
use libmw_core.Util.EndianUtil.{Bytes, Platform}
use libmw_core.Serialization.{
  Read, ◌>>=◌, pure, append_int, append_int_le, append_all, read_int, read_int_le, read_times,
}
use libmw_core.Models.BigInt.{BigInt, serialize_big_int, deserialize_big_int}
use libmw_core.Models.Tx.{Output, IKernel, KernelFactory, serialize_output, deserialize_output}

-- The headers of a coin: its `IHeader`, and the header factory of the `Context`.
pub record HeaderFactory : Type 1 where
  pub Header : Type 0
  pub serialize : Header → Bytes → Bytes
  pub deserialize : Read Header

-- `class ShortId` holds a `BigInt` of six bytes and hands its writing and reading on to it.
abbrev pub ShortId : Type 0
ShortId = BigInt

unfoldable pub serialize_short_id : ShortId → Bytes → Bytes
serialize_short_id id serialized = serialize_big_int id serialized

unfoldable pub deserialize_short_id : Read ShortId
deserialize_short_id = deserialize_big_int 6

module _ ⦃p : Platform⦄ where
  -- The two reads of a key in `ShortId::Create`.
  unfoldable pub read_keys : Read (ℕ × ℕ)
  read_keys = do k0 ← read_int_le 8; k1 ← read_int_le 8; pure (k0, k1)

  -- `ShortId::Create`, with the `SipHash24` of the vendored library as a parameter. The short id is
  -- the first six of the bytes that the last serializer holds.
  unfoldable pub create_short_id :
      ⦃c : Hashing⦄ → (ℕ → ℕ → Bytes → ℕ) → BigInt → BigInt → ℕ → Result ShortId
  create_short_id ⦃c = c⦄ sip_hash_24 hash block_hash nonce =
      let hash_with_nonce = c.blake2b (append_int 8 nonce (serialize_big_int block_hash [])) in
      elim (read_keys (record { index = 0; bytes = hash_with_nonce })) [
        | ok (keys, d) ↦ ok (take 6 (append_int_le 8 (sip_hash_24 keys.0 keys.1 hash) []))
        | err e ↦ err e
        | undefined ↦ undefined
      ]

module _ (headers : HeaderFactory) where
  -- `class CompactBlock`
  pub record CompactBlock : Type 0 where
    pub header : headers.Header
    pub nonce : ℕ
    pub outputs : List Output
    pub kernels : List IKernel
    pub short_ids : List ShortId

  module _ ⦃p : Platform⦄ ⦃c : Hashing⦄ (kernels : KernelFactory) where
    -- `CompactBlock::Serialize`. The class `Kernel` is declared nowhere: the kernel factory writes
    -- and reads its kernels.
    unfoldable pub serialize_compact_block : CompactBlock → Bytes → Bytes
    serialize_compact_block block serialized =
        let head = append_int 8 block.nonce (headers.serialize block.header serialized) in
        let counts =
          append_int 8 (length block.short_ids)
            (append_int 8 (length block.kernels) (append_int 8 (length block.outputs) head)) in
        append_all serialize_short_id block.short_ids (
          append_all kernels.serialize block.kernels (
            append_all (λ o. serialize_output o.features o.commitment o.proof) block.outputs
              counts))

    -- `CompactBlock::Deserialize`
    unfoldable pub deserialize_compact_block : Read CompactBlock
    deserialize_compact_block = do
      header ← headers.deserialize
      nonce ← read_int 8
      num_outputs ← read_int 8
      num_kernels ← read_int 8
      num_short_ids ← read_int 8
      outputs ← read_times num_outputs deserialize_output
      ks ← read_times num_kernels kernels.deserialize
      short_ids ← read_times num_short_ids deserialize_short_id
      pure (record {
        header = header;
        nonce = nonce;
        outputs = outputs;
        kernels = ks;
        short_ids = short_ids;
      })
