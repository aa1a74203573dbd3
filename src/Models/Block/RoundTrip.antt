-- ===== src/Models/Block/RoundTrip.antt =====
-- What a compact block writes of itself is read back as the same block.
use libmw_core.Common.{ℕ, ◌<◌, ◌≡◌, arith, List, [], ◌∷◌, ◌++◌, length, All, u64_mod}
use libmw_core.Crypto.{Hashing}
use libmw_core.Exceptions.{ok}
use libmw_core.Util.EndianUtil.{Bytes, Platform}
use libmw_core.Serialization.{Read, ◌>>=◌, pure, append_int, append_all, read_int, read_times}
use libmw_core.Serialization.RoundTrip.{standing}
use libmw_core.Serialization.Appends.{RoundTrips, RoundTrips-bind, RoundTrips-map}
use libmw_core.Serialization.Appends.{append_int-RoundTrips, append_all-RoundTrips}
use libmw_core.Serialization.Appends.{RoundTrips-standing}
use libmw_core.Models.Tx.{Output, IKernel, KernelFactory, deserialize_output}
use libmw_core.Models.Tx.RoundTrip.{IsOutput, big_int-RoundTrips, write_outputs, outputs-RoundTrips}
use libmw_core.Models.Block.{HeaderFactory, ShortId, serialize_short_id, deserialize_short_id}
use libmw_core.Models.Block.{CompactBlock, serialize_compact_block, deserialize_compact_block}

short_ids-All :
    (ids : List ShortId)
    → All (λ id. length id ≡ 6) ids
    → All (λ id. RoundTrips (serialize_short_id id) deserialize_short_id id) ids
unfolding serialize_short_id deserialize_short_id
short_ids-All [] h = tt
short_ids-All (id ∷ ids) (h, hs) = (big_int-RoundTrips 6 id h, short_ids-All ids hs)

module _ ⦃p : Platform⦄ ⦃c : Hashing⦄ (headers : HeaderFactory) (kernels : KernelFactory) where
  -- A block that the program can hold: the factories read its header and kernels back, its outputs
  -- come from their constructors, and its numbers fit a `uint64_t`.
  pub record IsCompactBlock (block : CompactBlock headers) : Type 0 where
    pub header : RoundTrips (headers.serialize block.header) headers.deserialize block.header
    pub nonce : block.nonce < u64_mod
    pub outputs : All IsOutput block.outputs
    pub ks : All (λ k. RoundTrips (kernels.serialize k) kernels.deserialize k) block.kernels
    pub short_ids : All (λ id. length id ≡ 6) block.short_ids
    pub num_outputs : length block.outputs < u64_mod
    pub num_kernels : length block.kernels < u64_mod
    pub num_short_ids : length block.short_ids < u64_mod

  -- The readers of the lists, and of the counts in front of them.
  read_lists : headers.Header → ℕ → ℕ → ℕ → ℕ → Read (CompactBlock headers)
  read_lists header nonce l m n = do
    outputs ← read_times l deserialize_output
    ks ← read_times m kernels.deserialize
    short_ids ← read_times n deserialize_short_id
    pure (record {
      header = header;
      nonce = nonce;
      outputs = outputs;
      kernels = ks;
      short_ids = short_ids;
    })

  write_lists : CompactBlock headers → Bytes → Bytes
  write_lists block s =
      append_all serialize_short_id block.short_ids
        (append_all kernels.serialize block.kernels (write_outputs block.outputs s))

  lists-RoundTrips :
      (block : CompactBlock headers)
      → IsCompactBlock block
      → RoundTrips
          (write_lists block)
          (read_lists block.header block.nonce
            (length block.outputs)
            (length block.kernels)
            (length block.short_ids))
          block
  unfolding write_lists read_lists
  lists-RoundTrips block h =
      let make : List Output → List IKernel → List ShortId → CompactBlock headers = λ xs ys zs.
        record {
          header = block.header;
          nonce = block.nonce;
          outputs = xs;
          kernels = ys;
          short_ids = zs;
        } in
      let ids = append_all serialize_short_id block.short_ids in
      let read_ids : List Output → List IKernel → Read (CompactBlock headers) = λ xs ys.
        read_times (length block.short_ids) deserialize_short_id >>= λ zs. pure (make xs ys zs) in
      let third =
        RoundTrips-map ids (read_times (length block.short_ids) deserialize_short_id)
          (make block.outputs block.kernels) block.short_ids
          (append_all-RoundTrips serialize_short_id deserialize_short_id block.short_ids
            (short_ids-All block.short_ids h.short_ids)) in
      let second =
        RoundTrips-bind (append_all kernels.serialize block.kernels) ids
          (read_times (length block.kernels) kernels.deserialize) (read_ids block.outputs)
          block.kernels block
          (append_all-RoundTrips kernels.serialize kernels.deserialize block.kernels h.ks) third in
      RoundTrips-bind (write_outputs block.outputs)
        (λ s. ids (append_all kernels.serialize block.kernels s))
        (read_times (length block.outputs) deserialize_output)
        (λ xs. read_times (length block.kernels) kernels.deserialize >>= λ ys. read_ids xs ys)
        block.outputs block (outputs-RoundTrips block.outputs h.outputs) second

  compact_block-RoundTrips :
      (block : CompactBlock headers)
      → IsCompactBlock block
      → RoundTrips
          (serialize_compact_block headers kernels block)
          (deserialize_compact_block headers kernels)
          block
  unfolding serialize_compact_block deserialize_compact_block write_lists read_lists
  compact_block-RoundTrips block h =
      let no = length block.outputs in
      let nk = length block.kernels in
      let ns = length block.short_ids in
      let lists = write_lists block in
      let third =
        RoundTrips-bind (append_int 8 ns) lists (read_int 8)
          (read_lists block.header block.nonce no nk) ns block
          (append_int-RoundTrips 8 ns (omega (arith, h.num_short_ids)))
          (lists-RoundTrips block h) in
      let second =
        RoundTrips-bind (append_int 8 nk) (λ s. lists (append_int 8 ns s)) (read_int 8)
          (λ m. read_int 8 >>= read_lists block.header block.nonce no m) nk block
          (append_int-RoundTrips 8 nk (omega (arith, h.num_kernels))) third in
      let first =
        RoundTrips-bind (append_int 8 no) (λ s. lists (append_int 8 ns (append_int 8 nk s)))
          (read_int 8)
          (λ l. read_int 8 >>= λ m. read_int 8 >>= read_lists block.header block.nonce l m) no block
          (append_int-RoundTrips 8 no (omega (arith, h.num_outputs))) second in
      let numbered =
        RoundTrips-bind (append_int 8 block.nonce)
          (λ s. lists (append_int 8 ns (append_int 8 nk (append_int 8 no s)))) (read_int 8)
          (λ nonce. read_int 8 >>= λ l.
            read_int 8 >>= λ m. read_int 8 >>= read_lists block.header nonce l m)
          block.nonce block (append_int-RoundTrips 8 block.nonce (omega (arith, h.nonce))) first in
      RoundTrips-bind (headers.serialize block.header)
        (λ s.
          lists (append_int 8 ns (append_int 8 nk (append_int 8 no (append_int 8 block.nonce s)))))
        headers.deserialize
        (λ header. read_int 8 >>= λ nonce.
          read_int 8 >>= λ l. read_int 8 >>= λ m. read_int 8 >>= read_lists header nonce l m)
        block.header block h.header numbered

  -- A compact block that is written anywhere is read back, if it is one that the program can hold.
  pub deserialize_compact_block-serialize_compact_block :
      (block : CompactBlock headers) (front rest : Bytes)
      → IsCompactBlock block
      → length (serialize_compact_block headers kernels block front ++ rest) < u64_mod
      → let out = serialize_compact_block headers kernels block front in
        deserialize_compact_block headers kernels (standing front (out ++ rest))
        ≡ ok (block, standing out (out ++ rest))
  deserialize_compact_block-serialize_compact_block block front rest h fits =
      RoundTrips-standing (serialize_compact_block headers kernels block)
        (deserialize_compact_block headers kernels) block front rest
        (compact_block-RoundTrips block h) fits
