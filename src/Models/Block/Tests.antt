-- ===== src/Models/Block/Tests.antt =====
-- The round trip of a compact block with one output, one kernel and two short ids.
use libmw_core.Common.{ℕ, ◌<◌, ◌≡◌, refl, arith, [], ◌∷◌, ◌++◌, length, take, replicate, u64_mod}
use libmw_core.Exceptions.{ok}
use libmw_core.Util.EndianUtil.{Bytes, to_memory, le_bytes, from_le_bytes, is_big_endian}
use libmw_core.Samples.{little_endian, plain_hashing}
use libmw_core.Serialization.{◌>>=◌, pure, append_int, append_vector, append_all, read_int}
use libmw_core.Serialization.RoundTrip.{standing}
use libmw_core.Serialization.Appends.{append_int-RoundTrips, RoundTrips-map}
use libmw_core.Models.BigInt.{serialize_big_int}
use libmw_core.Models.Tx.{IKernel, KernelFactory, Output, make_output, serialize_output}
use libmw_core.Models.Tx.{serialize_range_proof}
use libmw_core.Models.Tx.RoundTrip.{IsOutput}
use libmw_core.Models.Block.{HeaderFactory, CompactBlock, serialize_short_id}
use libmw_core.Models.Block.{serialize_compact_block, deserialize_compact_block}
use libmw_core.Crypto.{Hashing}
use libmw_core.Serialization.Order.{be_bytes}
use libmw_core.Models.Block.{create_short_id}
use libmw_core.Models.Block.ShortIds.{create_short_id_lem}
use libmw_core.Models.Block.RoundTrip.{IsCompactBlock}
use libmw_core.Models.Block.RoundTrip.{deserialize_compact_block-serialize_compact_block}

-- A coin whose kernels are their fee, and whose headers are their height.
abbrev fee_kernel : ℕ → IKernel
fee_kernel fee = record { features = 0; fee = fee; lock_height = 0; excess = []; signature = [] }

abbrev fee_factory : KernelFactory
fee_factory = record {
  serialize = λ k. append_int 8 k.fee;
  deserialize = read_int 8 >>= λ fee. pure (fee_kernel fee);
  signature_message = λ k. [];
}

abbrev heights : HeaderFactory
heights = record { Header = ℕ; serialize = append_int 8; deserialize = read_int 8 }

abbrev some_output : Output
some_output = make_output 0 (9 ∷ replicate 32 0) (5 ∷ 6 ∷ [])

some_output-IsOutput : IsOutput some_output
unfolding make_output
some_output-IsOutput = record {
  features = omega arith;
  commitment = refl;
  proof = omega arith;
  made = refl;
}

abbrev some_block : CompactBlock heights
some_block = record {
  header = 12;
  nonce = 345;
  outputs = some_output ∷ [];
  kernels = fee_kernel 700 ∷ [];
  short_ids = replicate 6 1 ∷ replicate 6 2 ∷ [];
}

some_block-IsCompactBlock : IsCompactBlock heights fee_factory some_block
some_block-IsCompactBlock = record {
  header = append_int-RoundTrips 8 12 (omega arith);
  nonce = omega arith;
  outputs = (some_output-IsOutput, tt);
  ks = (
    RoundTrips-map (append_int 8 700) (read_int 8) fee_kernel 700
        (append_int-RoundTrips 8 700 (omega arith)),
    tt,
  );
  short_ids = (refl, (refl, tt));
  num_outputs = omega arith;
  num_kernels = omega arith;
  num_short_ids = omega arith;
}

block_fits : length (serialize_compact_block heights fee_factory some_block [] ++ 4 ∷ []) < u64_mod
unfolding serialize_compact_block serialize_short_id serialize_output serialize_range_proof
    make_output append_int append_vector append_all serialize_big_int to_memory le_bytes
    is_big_endian
block_fits = omega arith

deserialize_compact_block-serialize_compact_block_example :
    let out = serialize_compact_block heights fee_factory some_block [] in
    deserialize_compact_block heights fee_factory (standing [] (out ++ 4 ∷ []))
    ≡ ok (some_block, standing out (out ++ 4 ∷ []))
deserialize_compact_block-serialize_compact_block_example =
    deserialize_compact_block-serialize_compact_block heights fee_factory some_block [] (4 ∷ [])
      some_block-IsCompactBlock block_fits

-- A hash of 32 bytes: what it is given, cut or filled up.
abbrev cut_hashing : Hashing
cut_hashing = record { blake2b = λ bs. take 32 (bs ++ replicate 32 0) }

abbrev hashed : Bytes
hashed = cut_hashing.blake2b ((1 ∷ 2 ∷ []) ++ be_bytes 8 3)

create_short_id_lem_example :
    create_short_id ⦃c = cut_hashing⦄ (λ k0 k1 bs. k0) (7 ∷ []) (1 ∷ 2 ∷ []) 3
    ≡ ok (take 6 (le_bytes 8 (from_le_bytes (take 8 hashed))))
unfolding le_bytes
create_short_id_lem_example =
    create_short_id_lem ⦃c = cut_hashing⦄ (λ k0 k1 bs. k0) (7 ∷ []) (1 ∷ 2 ∷ []) 3 refl
