-- ===== src/Consensus/Validation.antt =====
-- What `TxBody::Validate` accepts, and which error it throws first.
use libmw_core.Common.{◌↔◌, ◌≡◌, refl, ap, ◌∙◌, Bool, true, false, not}
use libmw_core.Common.{All, map, []}
use libmw_core.Exceptions.{Exception, Result, undefined, ok, err, ◌>>=◌, throw_if}
use libmw_core.Exceptions.{validation_exception, cut_through, kernel_sig, bulletproof}
use libmw_core.Crypto.AggSig.{Schnorr, verify_aggregate_signatures}
use libmw_core.Crypto.Bulletproofs.{LruCache, RangeProofs, verify_bulletproofs}
use libmw_core.Models.Tx.{KernelFactory, TxBody}
use libmw_core.Consensus.{validate, verify_cut_through, verify_kernel_signatures, any_input}
use libmw_core.Consensus.{output_commitments, verify_range_proofs}
use libmw_core.Consensus.CutThrough.{IsCommitment, SpendsOwn, any_input-SpendsOwn}

-- What the verification of the signatures does: the excess of each kernel is to sign the message of
-- the same kernel.
abbrev pub signatures_of : Schnorr → KernelFactory → TxBody → Result Bool
signatures_of schnorr factory body =
    verify_aggregate_signatures schnorr (map (λ k. k.signature) body.kernels)
      (map (λ k. k.excess) body.kernels) (map factory.signature_message body.kernels)

-- What the verification of the range proofs does, with an empty cache.
abbrev pub proofs_of : {S : Type 0} → LruCache S → S → RangeProofs → TxBody → Result (Bool × S)
proofs_of cache empty secp body =
    verify_bulletproofs cache secp (map (λ o. (o.commitment, o.proof)) body.outputs) empty

-- The three rules in a row.
abbrev check : {S : Type 0} → Bool → Result Bool → Result (Bool × S) → Result (Unit {0})
check spent signatures proofs = do
  _ ← throw_if spent (validation_exception cut_through)
  _ ← (do verified ← signatures; throw_if (not verified) (validation_exception kernel_sig))
  verified ← (do found ← proofs; ok found.0)
  throw_if (not verified) (validation_exception bulletproof)

accepted :
    {P : Type 0} {S : Type 0} (spent : Bool) (signatures : Result Bool) (proofs : Result (Bool × S))
    → (P → spent ≡ true)
    → check spent signatures proofs ≡ ok tt
    → ¬ P × (signatures ≡ ok true) × ((s : S) × (proofs ≡ ok (true, s)))
accepted true signatures proofs to e = cc
accepted false (ok true) (ok (true, s)) to e =
    ((λ p. absurd (let clash = to p in cc)), refl, (s, refl))
accepted false (ok true) (ok (false, s)) to e = cc
accepted false (ok true) (err x) to e = cc
accepted false (ok true) undefined to e = cc
accepted false (ok false) proofs to e = cc
accepted false (err x) proofs to e = cc
accepted false undefined proofs to e = cc

no_outputs :
    {S : Type 0} (cache : LruCache S) (empty : S) (secp : RangeProofs) (body : TxBody)
    → body.outputs ≡ []
    → proofs_of cache empty secp body ≡ undefined
unfolding verify_bulletproofs
no_outputs cache empty secp body e =
    ap (λ xs. verify_bulletproofs cache secp (map (λ o. (o.commitment, o.proof)) xs) empty) e

-- A test that does not hold.
fails : {P : Type 0} (b : Bool) → (b ≡ true → P) → ¬ P → b ≡ false
fails true f h = absurd (h (f refl))
fails false f h = refl

-- `Validate` of a body with commitments of 33 bytes returns exactly if no input spends an output of
-- the body, the signatures verify and the range proofs verify. An input that spends an output of the
-- body is reported before all else; then signatures that do not verify, or the exception of their
-- verification; and then range proofs that do not verify, or the exception of theirs. Where the
-- verification of the range proofs is undefined, so is `Validate`, and without outputs it is.
pub validate_outcomes :
    (schnorr : Schnorr) (factory : KernelFactory) {S : Type 0} (cache : LruCache S) (empty : S)
    (secp : RangeProofs) (body : TxBody)
    → All (λ i. IsCommitment i.commitment) body.inputs
    → All (λ o. IsCommitment o.commitment) body.outputs
    → let cut = SpendsOwn body.inputs body.outputs in
      let signatures = signatures_of schnorr factory body in
      let proofs = proofs_of cache empty secp body in
      let result = validate schnorr factory cache empty secp body in
      ((result ≡ ok tt) ↔ (¬ cut × (signatures ≡ ok true) × ((s : S) × (proofs ≡ ok (true, s)))))
      × (cut → result ≡ err (validation_exception cut_through))
      × (¬ cut → signatures ≡ ok false → result ≡ err (validation_exception kernel_sig))
      × ((e : Exception) → ¬ cut → signatures ≡ err e → result ≡ err e)
      × ((s : S)
          → ¬ cut
          → signatures ≡ ok true
          → proofs ≡ ok (false, s)
          → result ≡ err (validation_exception bulletproof))
      × ((e : Exception) → ¬ cut → signatures ≡ ok true → proofs ≡ err e → result ≡ err e)
      × (¬ cut → signatures ≡ ok true → proofs ≡ undefined → result ≡ undefined)
      × (¬ cut → signatures ≡ ok true → body.outputs ≡ [] → result ≡ undefined)
unfolding validate verify_kernel_signatures verify_cut_through verify_range_proofs
validate_outcomes schnorr factory {S = S} cache empty secp body hi ho =
    let (from, to) = any_input-SpendsOwn body.inputs body.outputs hi ho in
    let spent = any_input body.inputs (output_commitments body.outputs []) in
    let signatures = signatures_of schnorr factory body in
    let proofs = proofs_of cache empty secp body in
    let settled : (b : Bool) (r : Result Bool) (q : Result (Bool × S))
        → spent ≡ b
        → signatures ≡ r
        → proofs ≡ q
        → check spent signatures proofs ≡ check b r q =
      λ b r q e e' e''.
        ap (λ x. check x signatures proofs) e
        ∙ ap (λ x. check b x proofs) e'
        ∙ ap (λ x. check b r x) e'' in
    (
      (
        (λ e. accepted spent signatures proofs to e),
        (λ (uncut, signed, (s, proven)).
            settled false (ok true) (ok (true, s)) (fails spent from uncut) signed proven),
      ),
      (λ cut. ap (λ x. check x signatures proofs) (to cut)),
      (λ uncut bad. settled false (ok false) proofs (fails spent from uncut) bad refl),
      (λ e uncut bad. settled false (err e) proofs (fails spent from uncut) bad refl),
      (λ s uncut signed bad.
          settled false (ok true) (ok (false, s)) (fails spent from uncut) signed bad),
      (λ e uncut signed bad. settled false (ok true) (err e) (fails spent from uncut) signed bad),
      (λ uncut signed bad. settled false (ok true) undefined (fails spent from uncut) signed bad),
      (λ uncut signed none_made.
          settled false (ok true) undefined (fails spent from uncut) signed
            (no_outputs cache empty secp body none_made)),
    )
