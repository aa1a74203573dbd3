-- ===== src/Models/Tx/Tests.antt =====
-- The theorems on the models at a concrete transaction.
use libmw_core.Common.{
  ℕ, ◌≤◌, ◌<◌, ◌≡◌, ◌≢◌, ◌↔◌, refl, arith, true, List, [], ◌∷◌, ◌++◌, length, u64_mod,
}
use libmw_core.Common.{replicate}
use libmw_core.Exceptions.{ok}
use libmw_core.Util.EndianUtil.{Bytes, to_memory, le_bytes, is_big_endian}
use libmw_core.Samples.{little_endian, plain_hashing}
use libmw_core.Serialization.{
  Deserializer, ◌>>=◌, pure, append_int, append_vector, append_all, read_int,
}
use libmw_core.Serialization.RoundTrip.{standing}
use libmw_core.Serialization.Appends.{append_int-RoundTrips, RoundTrips-map}
use libmw_core.Serialization.Safety.{Inside, IsSafe, read_int-IsSafe, bind-IsSafe}
use libmw_core.Models.BigInt.{
  serialize_big_int, big_int_lt, big_int_gt, big_int_eq, big_int_ne, big_int_le, big_int_ge,
}
use libmw_core.Models.BigInt.Order.{be_value, big_int_order}
use libmw_core.Models.Tx.{IKernel, KernelFactory, TxBody, make_input, make_output}
use libmw_core.Models.Tx.{
  max_size, serialize_tx_body, serialize_input, serialize_output, serialize_range_proof,
  serialize_transaction, make_transaction, deserialize_transaction,
}
use libmw_core.Models.Tx.RoundTrip.{
  IsBody, IsInput, IsOutput, deserialize_transaction-serialize_transaction,
}
use libmw_core.Models.Tx.Safety.{deserialize_transaction-Inside}

big_int_order_example :
    let xs : List ℕ = 1 ∷ 255 ∷ [] in
    let ys : List ℕ = 2 ∷ 0 ∷ [] in
    ((big_int_lt xs ys ≡ true) ↔ (be_value xs < be_value ys))
    × ((big_int_gt xs ys ≡ true) ↔ (be_value ys < be_value xs))
    × ((big_int_eq xs ys ≡ true) ↔ (be_value xs ≡ be_value ys))
    × ((big_int_ne xs ys ≡ true) ↔ (be_value xs ≢ be_value ys))
    × ((big_int_le xs ys ≡ true) ↔ (be_value xs ≤ be_value ys))
    × ((big_int_ge xs ys ≡ true) ↔ (be_value ys ≤ be_value xs))
big_int_order_example =
    big_int_order (1 ∷ 255 ∷ []) (2 ∷ 0 ∷ []) refl (omega arith, (omega arith, tt))
      (omega arith, (omega arith, tt))

-- A coin whose kernels are their fee.
abbrev fee_kernel : ℕ → IKernel
fee_kernel fee = record { features = 0; fee = fee; lock_height = 0; excess = []; signature = [] }

abbrev fee_factory : KernelFactory
fee_factory = record {
  serialize = λ k. append_int 8 k.fee;
  deserialize = read_int 8 >>= λ fee. pure (fee_kernel fee);
  signature_message = λ k. [];
}

abbrev commitment_of : ℕ → Bytes
commitment_of b = b ∷ replicate 32 0

-- An input, an output and a kernel.
abbrev one_each : TxBody
one_each = record {
  inputs = make_input 1 (commitment_of 8) ∷ [];
  outputs = make_output 0 (commitment_of 9) (5 ∷ 6 ∷ []) ∷ [];
  kernels = fee_kernel 700 ∷ [];
}

make_input-IsInput :
    (features : ℕ) (commitment : Bytes)
    → features < 256
    → length commitment ≡ 33
    → IsInput (make_input features commitment)
unfolding make_input
make_input-IsInput features commitment h e = record { features = h; commitment = e; made = refl }

make_output-IsOutput :
    (features : ℕ) (commitment proof : Bytes)
    → features < 256
    → length commitment ≡ 33
    → length proof ≤ max_size
    → IsOutput (make_output features commitment proof)
unfolding make_output
make_output-IsOutput features commitment proof h e small = record {
  features = h;
  commitment = e;
  proof = small;
  made = refl;
}

one_each-IsBody : IsBody fee_factory one_each
one_each-IsBody = record {
  inputs = (make_input-IsInput 1 (commitment_of 8) (omega arith) refl, tt);
  outputs =
      (make_output-IsOutput 0 (commitment_of 9) (5 ∷ 6 ∷ []) (omega arith) refl (omega arith), tt);
  kernels = (
    RoundTrips-map (append_int 8 700) (read_int 8) fee_kernel 700
        (append_int-RoundTrips 8 700 (omega arith)),
    tt,
  );
  num_inputs = omega arith;
  num_outputs = omega arith;
  num_kernels = omega arith;
}

transaction_fits :
    length (serialize_transaction fee_factory (replicate 32 3) one_each [] ++ 4 ∷ []) < u64_mod
unfolding serialize_transaction serialize_tx_body serialize_input serialize_output
    serialize_range_proof make_input make_output append_int append_vector append_all
    serialize_big_int to_memory le_bytes is_big_endian
transaction_fits = omega arith

deserialize_transaction-serialize_transaction_example :
    let out = serialize_transaction fee_factory (replicate 32 3) one_each [] in
    deserialize_transaction fee_factory (standing [] (out ++ 4 ∷ []))
    ≡ ok (make_transaction fee_factory (replicate 32 3) one_each, standing out (out ++ 4 ∷ []))
deserialize_transaction-serialize_transaction_example =
    deserialize_transaction-serialize_transaction fee_factory (replicate 32 3) one_each [] (4 ∷ [])
      refl one_each-IsBody transaction_fits

abbrev some_bytes : Deserializer
some_bytes = record { index = 1; bytes = 255 ∷ replicate 40 255 }

fee_factory-IsSafe : IsSafe fee_factory.deserialize
fee_factory-IsSafe =
    bind-IsSafe (read_int 8) (λ fee. pure (fee_kernel fee)) (read_int-IsSafe 8 (omega arith))
      (λ fee d v. (refl, v))

deserialize_transaction-Inside_example :
    Inside some_bytes (deserialize_transaction fee_factory some_bytes)
deserialize_transaction-Inside_example =
    deserialize_transaction-Inside fee_factory some_bytes
      (record { within = omega arith; addressable = omega arith }) fee_factory-IsSafe
