-- ===== src/Consensus/KernelSums.antt =====
-- include/mw/core/consensus/KernelSumValidator.h and the sums of src/crypto/Crypto.cpp.
use libmw_core.Common.{ℕ, zero, suc, ◌+◌, ◌^◌, Option, none, some}
use libmw_core.Common.{List, [], ◌∷◌, ◌++◌, map, ◌==◌, if◌then◌else◌}
use libmw_core.Exceptions.{Result, ok, undefined, ◌>>=◌}
use libmw_core.Models.BigInt.{BigInt, value_of, big_int_ne}
use libmw_core.Models.Tx.{Commitment, BlindingFactor, TxBody}

-- `int64_t`
pub data ℤ : Type 0 where
  pos negsuc : ℕ → ℤ

-- `Pedersen` of secp256k1-zkp: the commitment to a value and the sum of commitments.
pub record Pedersen : Type 0 where
  pub pedersen_commit : ℕ → BlindingFactor → Result Commitment
  pub pedersen_commit_sum : List Commitment → List Commitment → Result Commitment
  pub pedersen_blind_sum : List BlindingFactor → List BlindingFactor → Result BlindingFactor

-- `std::copy_if` of the elements that differ from the zero.
pub sanitize : BigInt → List BigInt → List BigInt
sanitize nothing [] = []
sanitize nothing (x ∷ xs) =
    let rest = sanitize nothing xs in if big_int_ne x nothing then x ∷ rest else rest

pub record BlockSums : Type 0 where
  pub output_sum : Commitment
  pub kernel_sum : Commitment

-- What a sum of the blocks before adds to a list.
abbrev previous : (BlockSums → Commitment) → Option BlockSums → List Commitment → List Commitment
previous field none commitments = commitments
previous field (some sums) commitments = commitments ++ field sums ∷ []

module _ (p : Pedersen) where
  -- `Crypto::CommitTransparent` and `Crypto::CommitBlinded`
  pub commit_transparent : ℕ → Result Commitment
  commit_transparent value = p.pedersen_commit value (value_of 32 0)

  pub commit_blinded : ℕ → BlindingFactor → Result Commitment
  commit_blinded value blind = p.pedersen_commit value blind

  -- `Crypto::AddCommitments`
  pub add_commitments : List Commitment → List Commitment → Result Commitment
  unfolding sanitize
  add_commitments positive negative =
      p.pedersen_commit_sum (sanitize (value_of 33 0) positive) (sanitize (value_of 33 0) negative)

  -- `Crypto::AddBlindingFactors`
  pub add_blinding_factors : List BlindingFactor → List BlindingFactor → Result BlindingFactor
  unfolding sanitize
  add_blinding_factors positive negative =
      let nothing = value_of 32 0 in
      let sum = p.pedersen_blind_sum (sanitize nothing positive) (sanitize nothing negative) in
      elim (sanitize nothing positive) [
        | x ∷ xs ↦ sum
        | [] ↦ elim (sanitize nothing negative) [ [] ↦ ok nothing | y ∷ ys ↦ sum ]
      ]

  -- `AddKernelOffset`
  pub add_kernel_offset : Commitment → BlindingFactor → Result Commitment
  unfolding add_commitments commit_blinded
  add_kernel_offset kernel_sum offset =
      if big_int_ne offset (value_of 32 0)
      then (commit_blinded 0 offset >>= λ blinded. add_commitments (kernel_sum ∷ blinded ∷ []) [])
      else add_commitments (kernel_sum ∷ []) []

  -- The overage is added on the side that it stands for; `0 - overage` of the least `int64_t` has no
  -- value.
  pub with_overage :
      ℤ → List Commitment → List Commitment → Result (List Commitment × List Commitment)
  unfolding commit_transparent
  with_overage (pos zero) inputs outputs = ok (inputs, outputs)
  with_overage (pos (suc n)) inputs outputs =
      commit_transparent (suc n) >>= λ c. ok (inputs, outputs ++ c ∷ [])
  with_overage (negsuc n) inputs outputs =
      let added = commit_transparent (n + 1) >>= λ c. ok (inputs ++ c ∷ [], outputs) in
      if n + 1 == 2 ^ 63 then undefined else added

  -- `ValidateKernelSums` of commitments
  pub validate_kernel_sums :
      List Commitment
      → List Commitment
      → List Commitment
      → ℤ
      → BlindingFactor
      → Option BlockSums
      → Result BlockSums
  unfolding with_overage add_commitments add_kernel_offset
  validate_kernel_sums inputs outputs kernels overage offset block_sums =
      with_overage overage inputs outputs >>= λ sides.
      add_commitments (previous (λ s. s.output_sum) block_sums sides.1) sides.0 >>= λ utxo_sum.
      add_commitments (previous (λ s. s.kernel_sum) block_sums kernels) [] >>= λ kernel_sum.
      add_kernel_offset kernel_sum offset >>= λ kernel_sum_plus_offset.
      ok (record { output_sum = utxo_sum; kernel_sum = kernel_sum })

  -- `ValidateKernelSums` of a body
  pub validate_body_sums : TxBody → ℤ → BlindingFactor → Option BlockSums → Result BlockSums
  unfolding validate_kernel_sums
  validate_body_sums body overage offset block_sums =
      validate_kernel_sums (map (λ i. i.commitment) body.inputs)
        (map (λ o. o.commitment) body.outputs) (map (λ k. k.excess) body.kernels) overage offset
        block_sums
