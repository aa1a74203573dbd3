-- ===== src/Crypto/AggSig.antt =====
-- src/crypto/AggSig.cpp (VerifyAggregateSignatures) and the conversions of src/crypto/ConversionUtil.cpp
-- that it calls.
use libmw_core.Common.{Bool, Option, some, none, List, [], ◌∷◌}
use libmw_core.Exceptions.{Result, ok, err, ◌>>=◌, crypto_exception}
use libmw_core.Util.EndianUtil.{Bytes}

-- What the code calls of secp256k1-zkp: a commitment parsed and made a public key, its compressed
-- form and back, a signature parsed, and `secp256k1_schnorrsig_verify_batch`. All but the last fail
-- on bytes that are none.
pub record Schnorr : Type 1 where
  pub ParsedCommitment : Type 0
  pub PublicKey : Type 0
  pub ParsedSignature : Type 0
  pub commitment_parse : Bytes → Option ParsedCommitment
  pub commitment_to_pubkey : ParsedCommitment → Option PublicKey
  pub pubkey_serialize : PublicKey → Option Bytes
  pub pubkey_parse : Bytes → Option PublicKey
  pub signature_parse : Bytes → Option ParsedSignature
  pub verify_batch : List ParsedSignature → List Bytes → List PublicKey → Bool

-- A call that returns anything but 1 throws a `CryptoException`.
unfoldable pub required : {A : Type 0} → Option A → Result A
required (some a) = ok a
required none = err crypto_exception

-- `std::transform` with a function that may throw.
unfoldable pub transform : {A B : Type 0} → (A → Result B) → List A → Result (List B)
transform f [] = ok []
transform f (x ∷ xs) = do y ← f x; ys ← transform f xs; ok (y ∷ ys)

module _ (secp : Schnorr) where
  -- The conversion of a commitment in `VerifyAggregateSignatures`: `ToPublicKey`, and `ToSecp256k1` of
  -- its result.
  unfoldable pub to_public_key : Bytes → Result secp.PublicKey
  to_public_key commitment = do
    parsed ← required (secp.commitment_parse commitment)
    pubkey ← required (secp.commitment_to_pubkey parsed)
    compressed ← required (secp.pubkey_serialize pubkey)
    required (secp.pubkey_parse compressed)

  -- `ConversionUtil::ToSecp256k1` of a signature
  unfoldable pub to_signature : Bytes → Result secp.ParsedSignature
  to_signature signature = required (secp.signature_parse signature)

  -- `AggSig::VerifyAggregateSignatures`
  unfoldable pub verify_aggregate_signatures : List Bytes → List Bytes → List Bytes → Result Bool
  verify_aggregate_signatures signatures commitments messages = do
    pubkeys ← transform to_public_key commitments
    parsed ← transform to_signature signatures
    ok (secp.verify_batch parsed messages pubkeys)
