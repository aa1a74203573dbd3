-- ===== src/Consensus/Tests.antt =====
-- The theorems on the rules at concrete bodies.
use libmw_core.Common.{none}
use libmw_core.Common.{some, bytes_eq, Bool, false, ◌&&◌}
use libmw_core.Crypto.AggSig.{Schnorr}
use libmw_core.Crypto.Bulletproofs.{LruCache, RangeProofs}
use libmw_core.Common.{ℕ, ◌≡◌, ◌↔◌, refl, arith, true, false, List, [], ◌∷◌, IsByte, replicate}
use libmw_core.Exceptions.{
  Exception, undefined, ok, err, validation_exception, cut_through, kernel_sig, bulletproof,
}
use libmw_core.Util.EndianUtil.{Bytes}
use libmw_core.Models.Tx.{Input, Output, IKernel, KernelFactory, TxBody}
use libmw_core.Consensus.{validate, verify_cut_through}
use libmw_core.Consensus.CutThrough.{IsCommitment, SpendsOwn, verify_cut_through_iff}
use libmw_core.Consensus.Validation.{signatures_of, proofs_of, validate_outcomes}

abbrev commitment_of : ℕ → Bytes
commitment_of b = b ∷ replicate 32 0

commitment_of-IsCommitment : (b : ℕ) → IsByte b → IsCommitment (commitment_of b)
commitment_of-IsCommitment b h = record { size = refl; bytes = (h, ground arith) }

abbrev spent : List Input
spent = record { features = 0; commitment = commitment_of 8; hash = [] } ∷ []

abbrev made : List Output
made = record { features = 0; commitment = commitment_of 9; proof = 9 ∷ []; hash = [] } ∷ []

verify_cut_through_iff_example :
    ((verify_cut_through spent made ≡ err (validation_exception cut_through))
      ↔ SpendsOwn spent made)
    × ((verify_cut_through spent made ≡ ok tt) ↔ ¬ SpendsOwn spent made)
verify_cut_through_iff_example =
    verify_cut_through_iff spent made (commitment_of-IsCommitment 8 (omega arith), tt)
      (commitment_of-IsCommitment 9 (omega arith), tt)

-- Keys and signatures are their bytes, and a signature verifies if it is empty.
abbrev empty_signatures : List Bytes → Bool
empty_signatures [] = true
empty_signatures ([] ∷ signatures) = empty_signatures signatures
empty_signatures ((b ∷ bs) ∷ signatures) = false

abbrev plain : Schnorr
plain = record {
  ParsedCommitment = Bytes;
  PublicKey = Bytes;
  ParsedSignature = Bytes;
  commitment_parse = λ bs. some bs;
  commitment_to_pubkey = λ bs. some bs;
  pubkey_serialize = λ bs. some bs;
  pubkey_parse = λ bs. some bs;
  signature_parse = λ bs. some bs;
  verify_batch = λ signatures messages pubkeys. empty_signatures signatures;
}

-- A cache that keeps nothing, and proofs that repeat the first byte of their commitment.
abbrev no_cache : LruCache (Unit {0})
no_cache = record { put = λ k v s. s; cached = λ k s. false; get = λ k s. (k, s) }

abbrev first_bytes : List (ℕ × Bytes) → Bool
first_bytes [] = true
first_bytes ((b, proof) ∷ items) = bytes_eq proof (b ∷ []) && first_bytes items

abbrev first_byte : RangeProofs
first_byte = record {
  Parsed = ℕ;
  parse = λ c. elim c [ [] ↦ none | b ∷ bs ↦ some b ];
  verify_multi = first_bytes;
}

abbrev no_factory : KernelFactory
no_factory = record {
  serialize = λ k s. s;
  deserialize = λ d. err (validation_exception kernel_sig);
  signature_message = λ k. [];
}

abbrev signed : IKernel
signed = record { features = 0; fee = 7; lock_height = 0; excess = commitment_of 3; signature = [] }

abbrev body : TxBody
body = record { inputs = spent; outputs = made; kernels = signed ∷ [] }

validate_outcomes_example :
    let cut = SpendsOwn spent made in
    let signatures = signatures_of plain no_factory body in
    let proofs = proofs_of no_cache tt first_byte body in
    let result = validate plain no_factory no_cache tt first_byte body in
    ((result ≡ ok tt)
      ↔ (¬ cut × (signatures ≡ ok true) × ((s : Unit {0}) × (proofs ≡ ok (true, s)))))
    × (cut → result ≡ err (validation_exception cut_through))
    × (¬ cut → signatures ≡ ok false → result ≡ err (validation_exception kernel_sig))
    × ((e : Exception) → ¬ cut → signatures ≡ err e → result ≡ err e)
    × ((s : Unit {0})
        → ¬ cut
        → signatures ≡ ok true
        → proofs ≡ ok (false, s)
        → result ≡ err (validation_exception bulletproof))
    × ((e : Exception) → ¬ cut → signatures ≡ ok true → proofs ≡ err e → result ≡ err e)
    × (¬ cut → signatures ≡ ok true → proofs ≡ undefined → result ≡ undefined)
    × (¬ cut → signatures ≡ ok true → made ≡ [] → result ≡ undefined)
validate_outcomes_example =
    validate_outcomes plain no_factory no_cache tt first_byte body
      (commitment_of-IsCommitment 8 (omega arith), tt)
      (commitment_of-IsCommitment 9 (omega arith), tt)
