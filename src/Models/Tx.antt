-- ===== src/Models/Tx.antt =====
-- include/mw/core/models/tx and the RangeProof of include/mw/core/models/crypto: what a transaction
-- is made of, how it is written and how it is read.
pub mod RoundTrip
pub mod Safety
pub mod Tests
use Prim.Native.Nat.{bit_and}
use libmw_core.Common.{ℕ, ◌%◌, Bool, ◌==◌, ltb, List, [], ◌∷◌, length}
use libmw_core.Crypto.{Hashing}
use libmw_core.Util.EndianUtil.{Bytes, Platform}
use libmw_core.Serialization.{
  Read, ◌>>=◌, pure, throw_if, append_int, append_vector, read_int, read_vector,
}
use libmw_core.Serialization.{append_all, read_times}
use libmw_core.Models.BigInt.{
  BigInt, serialize_big_int, deserialize_big_int, big_int_lt, big_int_eq,
}

-- `Commitment`, `Signature` and `BlindingFactor` hold a `BigInt` of 33, 64 and 32 bytes and hand
-- their writing and reading on to it.
abbrev pub Commitment : Type 0
Commitment = BigInt

abbrev pub Signature : Type 0
Signature = BigInt

abbrev pub BlindingFactor : Type 0
BlindingFactor = BigInt

abbrev pub Hash : Type 0
Hash = BigInt

-- `Features::IsSet`
pub is_set : ℕ → ℕ → Bool
is_set features feature = bit_and features feature == feature

-- `EOutputFeatures`, an unscoped enum to which the code casts any byte that it reads: a value is
-- its number.
abbrev pub OutputFeatures : Type 0
OutputFeatures = ℕ

abbrev pub default_output : OutputFeatures
default_output = 0

abbrev pub coinbase_output : OutputFeatures
coinbase_output = 1

-- `class RangeProof`
abbrev pub RangeProof : Type 0
RangeProof = Bytes

abbrev pub max_size : ℕ
max_size = 675

pub record Input : Type 0 where
  pub features : OutputFeatures
  pub commitment : Commitment
  pub hash : Hash

pub record Output : Type 0 where
  pub features : OutputFeatures
  pub commitment : Commitment
  pub proof : RangeProof
  pub hash : Hash

-- `class IKernel`, without the hash that it keeps once it is computed.
pub record IKernel : Type 0 where
  pub features : ℕ
  pub fee : ℕ
  pub lock_height : ℕ
  pub excess : Commitment
  pub signature : Signature

-- The kernel factory of the `Context` and the virtual methods of `IKernel`: each coin's own code.
pub record KernelFactory : Type 0 where
  pub serialize : IKernel → Bytes → Bytes
  pub deserialize : Read IKernel
  pub signature_message : IKernel → Hash

pub record TxBody : Type 0 where
  pub inputs : List Input
  pub outputs : List Output
  pub kernels : List IKernel

pub record Transaction : Type 0 where
  pub offset : BlindingFactor
  pub body : TxBody
  pub hash : Hash

module _ ⦃p : Platform⦄ where
  -- `RangeProof::Serialize` and `RangeProof::Deserialize`
  unfoldable pub serialize_range_proof : RangeProof → Bytes → Bytes
  serialize_range_proof proof serialized =
      append_vector proof (append_int 8 (length proof) serialized)

  pub deserialize_range_proof : Read RangeProof
  deserialize_range_proof = do
    proof_size ← read_int 8
    _ ← throw_if (ltb max_size proof_size)
    read_vector proof_size

  -- What `Input::Serialize` appends, before and after the hash is known.
  pub serialize_input : OutputFeatures → Commitment → Bytes → Bytes
  serialize_input features commitment serialized =
      serialize_big_int commitment (append_int 1 (features % 256) serialized)

  unfoldable pub serialize_output : OutputFeatures → Commitment → RangeProof → Bytes → Bytes
  unfolding serialize_range_proof
  serialize_output features commitment proof serialized =
      serialize_range_proof proof
        (serialize_big_int commitment (append_int 1 (features % 256) serialized))

module _ ⦃p : Platform⦄ ⦃c : Hashing⦄ where
  -- The constructors, which hash what `Serialize` writes.
  pub make_input : OutputFeatures → Commitment → Input
  unfolding serialize_input
  make_input features commitment = record {
    features = features;
    commitment = commitment;
    hash = c.blake2b (serialize_input features commitment []);
  }

  unfoldable pub make_output : OutputFeatures → Commitment → RangeProof → Output
  unfolding serialize_output
  make_output features commitment proof = record {
    features = features;
    commitment = commitment;
    proof = proof;
    hash = c.blake2b (serialize_output features commitment proof []);
  }

  pub deserialize_input : Read Input
  unfolding make_input
  deserialize_input = do
    features ← read_int 1
    commitment ← deserialize_big_int 33
    pure (make_input features commitment)

  pub deserialize_output : Read Output
  unfolding make_output deserialize_range_proof
  deserialize_output = do
    features ← read_int 1
    commitment ← deserialize_big_int 33
    proof ← deserialize_range_proof
    pure (make_output features commitment proof)

-- `IsCoinbase` of an input and of an output.
pub is_coinbase : OutputFeatures → Bool
is_coinbase features = bit_and features coinbase_output == coinbase_output

-- `operator<` and `operator==` compare the hashes.
pub input_lt : Input → Input → Bool
input_lt a b = big_int_lt a.hash b.hash

pub input_eq : Input → Input → Bool
input_eq a b = big_int_eq a.hash b.hash

pub output_lt : Output → Output → Bool
output_lt a b = big_int_lt a.hash b.hash

pub output_eq : Output → Output → Bool
output_eq a b = big_int_eq a.hash b.hash

module _ ⦃p : Platform⦄ ⦃c : Hashing⦄ (factory : KernelFactory) where
  -- `TxBody::Serialize`
  pub serialize_tx_body : TxBody → Bytes → Bytes
  unfolding serialize_input serialize_output
  serialize_tx_body body serialized = append_all factory.serialize body.kernels (
      append_all (λ o. serialize_output o.features o.commitment o.proof) body.outputs
        (append_all (λ i. serialize_input i.features i.commitment) body.inputs
          (append_int 8 (length body.kernels)
            (append_int 8 (length body.outputs) (append_int 8 (length body.inputs) serialized)))))

  -- `TxBody::Deserialize`. What `reserve` does with a count that is too large is left out.
  pub deserialize_tx_body : Read TxBody
  unfolding deserialize_input deserialize_output
  deserialize_tx_body = do
    num_inputs ← read_int 8
    num_outputs ← read_int 8
    num_kernels ← read_int 8
    inputs ← read_times num_inputs deserialize_input
    outputs ← read_times num_outputs deserialize_output
    kernels ← read_times num_kernels factory.deserialize
    pure (record { inputs = inputs; outputs = outputs; kernels = kernels })

  -- `Transaction::Serialize`, its constructor and `Transaction::Deserialize`
  pub serialize_transaction : BlindingFactor → TxBody → Bytes → Bytes
  unfolding serialize_tx_body
  serialize_transaction offset body serialized =
      serialize_tx_body body (serialize_big_int offset serialized)

  pub make_transaction : BlindingFactor → TxBody → Transaction
  unfolding serialize_transaction
  make_transaction offset body = record {
    offset = offset;
    body = body;
    hash = c.blake2b (serialize_transaction offset body []);
  }

  pub deserialize_transaction : Read Transaction
  unfolding deserialize_tx_body make_transaction
  deserialize_transaction = do
    offset ← deserialize_big_int 32
    body ← deserialize_tx_body
    pure (make_transaction offset body)
