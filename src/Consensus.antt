-- ===== src/Consensus.antt =====
-- include/mw/core/consensus, and `TxBody::Validate`: the rules that a transaction keeps.
pub mod CutThrough
pub mod KernelSums
pub mod Validation
pub mod Tests
use libmw_core.Common.{ℕ, Bool, true, false, not, ◌&&◌, ◌||◌, List, [], ◌∷◌, map, if◌then◌else◌}
use libmw_core.Exceptions.{
  Result, ok, err, ◌>>=◌, throw_if, validation_exception, cut_through, kernel_sig,
}
use libmw_core.Exceptions.{bulletproof}
use libmw_core.Crypto.AggSig.{Schnorr, verify_aggregate_signatures}
use libmw_core.Crypto.Bulletproofs.{LruCache, RangeProofs, verify_bulletproofs}
use libmw_core.Models.BigInt.{big_int_lt}
use libmw_core.Models.Tx.{
  Commitment, Signature, RangeProof, Hash, Input, Output, IKernel, KernelFactory, TxBody,
}

-- A `std::set<Commitment>`, as its elements: two are the same if neither is less.
pub equivalent : Commitment → Commitment → Bool
equivalent a b = not (big_int_lt a b) && not (big_int_lt b a)

pub find : Commitment → List Commitment → Bool
unfolding equivalent
find a [] = false
find a (b ∷ set) = equivalent a b || find a set

pub insert : Commitment → List Commitment → List Commitment
unfolding find
insert a set = if find a set then set else a ∷ set

-- `std::transform` of the outputs with an inserter.
pub output_commitments : List Output → List Commitment → List Commitment
unfolding insert
output_commitments [] commitments = commitments
output_commitments (o ∷ outputs) commitments =
    output_commitments outputs (insert o.commitment commitments)

-- `std::any_of` over the inputs.
pub any_input : List Input → List Commitment → Bool
unfolding find
any_input [] commitments = false
any_input (i ∷ inputs) commitments = find i.commitment commitments || any_input inputs commitments

-- `CutThroughVerifier::VerifyCutThrough`
pub verify_cut_through : List Input → List Output → Result (Unit {0})
unfolding any_input output_commitments
verify_cut_through inputs outputs =
    throw_if (any_input inputs (output_commitments outputs [])) (validation_exception cut_through)

module _ (schnorr : Schnorr) (factory : KernelFactory) where
  -- `KernelSignatureValidator::VerifyKernelSignatures`, over `Crypto::VerifyKernelSignatures`, which
  -- hands on to AggSig.
  unfoldable pub verify_kernel_signatures : List IKernel → Result (Unit {0})
  verify_kernel_signatures kernels = do
    verified ←
        verify_aggregate_signatures schnorr (map (λ k. k.signature) kernels)
          (map (λ k. k.excess) kernels) (map factory.signature_message kernels)
    throw_if (not verified) (validation_exception kernel_sig)

  module _ {S : Type 0} (cache : LruCache S) (empty : S) (secp : RangeProofs) where
    -- `Crypto::VerifyRangeProofs`: each call makes a `Bulletproofs` with a cache of its own.
    unfoldable pub verify_range_proofs : List (Commitment × RangeProof) → Result Bool
    verify_range_proofs range_proofs = do
      verified ← verify_bulletproofs cache secp range_proofs empty
      ok verified.0

    -- `TxBody::Validate`
    unfoldable pub validate : TxBody → Result (Unit {0})
    validate body = do
      _ ← verify_cut_through body.inputs body.outputs
      _ ← verify_kernel_signatures body.kernels
      verified ← verify_range_proofs (map (λ o. (o.commitment, o.proof)) body.outputs)
      throw_if (not verified) (validation_exception bulletproof)
