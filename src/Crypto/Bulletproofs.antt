-- ===== src/Crypto/Bulletproofs.antt =====
-- src/crypto/Bulletproofs.cpp (VerifyBulletproofs) and src/crypto/BulletproofsCache.h: range proofs,
-- checked in one batch, without those whose commitments were checked before.
pub mod Soundness
pub mod Tests
use libmw_core.Common.{ℕ, Bool, true, false, List, [], ◌∷◌, length, map, bytes_eq, if◌then◌else◌}
use libmw_core.Common.{Option, some, none, take, ltb}
use libmw_core.Exceptions.{crypto_exception, err, Result, ok, err, undefined, ◌>>=◌}
use libmw_core.Util.EndianUtil.{Bytes}

-- `LRUCache<Commitment, Commitment>` of deps/caches: `Put`, `Cached` and `Get`. A `Get` moves its
-- entry to the front, and a `Put` may drop another.
pub record LruCache (S : Type 0) : Type 0 where
  pub put : Bytes → Bytes → S → S
  pub cached : Bytes → S → Bool
  pub get : Bytes → S → Bytes × S

-- What the code calls of secp256k1-zkp: a commitment as the library has it, which `ConversionUtil`
-- makes or throws, and `secp256k1_bulletproof_rangeproof_verify_multi`, on the bytes that it reads.
pub record RangeProofs : Type 1 where
  pub Parsed : Type 0
  pub parse : Bytes → Option Parsed
  pub verify_multi : List (Parsed × Bytes) → Bool

module _ {S : Type 0} (cache : LruCache S) where
  -- `AddToCache` and `WasAlreadyVerified`
  unfoldable pub add_to_cache : Bytes → S → S
  add_to_cache commitment s = cache.put commitment commitment s

  unfoldable pub was_already_verified : Bytes → S → Bool × S
  was_already_verified commitment s =
      let got = cache.get commitment s in
      if cache.cached commitment s then (bytes_eq got.0 commitment, got.1) else (false, s)

  -- The loop over the commitments at the end.
  unfoldable pub add_all_to_cache : List Bytes → S → S
  add_all_to_cache [] s = s
  add_all_to_cache (c ∷ cs) s = add_all_to_cache cs (add_to_cache c s)

  module _ (secp : RangeProofs) where
    -- What is to be checked: commitments, secpCommitments and bulletproofPointers.
    abbrev pub Item : Type 0
    Item = Bytes × (secp.Parsed × Bytes)

    -- `ConversionUtil::ToSecp256k1` of a commitment
    unfoldable pub parse_commitment : Bytes → Result secp.Parsed
    parse_commitment commitment = elim (secp.parse commitment) [
      | some x ↦ ok x
      | none ↦ err crypto_exception
    ]

    -- The loop that collects it.
    unfoldable pub collect : List (Bytes × Bytes) → S → Result (List Item × S)
    collect [] s = ok ([], s)
    collect ((commitment, proof) ∷ rest) s =
        let (verified, s') = was_already_verified commitment s in
        let later = collect rest s' in
        if verified then later else (do
          parsed ← parse_commitment commitment
          found ← later
          ok ((commitment, (parsed, proof)) ∷ found.0, found.1))

    -- What the library reads behind bulletproofPointers: of each proof as many bytes as the one
    -- length that it is given. Behind the end of a shorter proof that is undefined.
    unfoldable pub read_proofs : ℕ → List Item → Result (List (secp.Parsed × Bytes))
    read_proofs proof_length [] = ok []
    read_proofs proof_length ((commitment, (parsed, proof)) ∷ items) =
        let rest = (do
          read ← read_proofs proof_length items
          ok ((parsed, take proof_length proof) ∷ read)) in
        if ltb (length proof) proof_length then undefined else rest

    -- The rest of `VerifyBulletproofs`: the batch, and the cache behind it.
    unfoldable pub verify_found : ℕ → List Item → S → Result (Bool × S)
    verify_found proof_length [] s = ok (true, s)
    verify_found proof_length (item ∷ items) s = do
      read ← read_proofs proof_length (item ∷ items)
      let result = secp.verify_multi read
      ok (result, if result then add_all_to_cache (map (λ i. i.0) (item ∷ items)) s else s)

    -- `VerifyBulletproofs`: `front` of an empty vector is undefined, and the length of the first
    -- proof is taken for that of all.
    unfoldable pub verify_bulletproofs : List (Bytes × Bytes) → S → Result (Bool × S)
    verify_bulletproofs [] s = undefined
    verify_bulletproofs (first ∷ rest) s = do
      found ← collect (first ∷ rest) s
      verify_found (length first.1) found.0 found.1
