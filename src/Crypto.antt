-- ===== src/Crypto.antt =====
-- src/crypto and include/mw/core/crypto: what the rest of the code calls, as an interface.
pub mod Bulletproofs
pub mod AggSig
use libmw_core.Util.EndianUtil.{Bytes}

-- `Crypto::Blake2b`. The hash function itself is the vendored library of deps/crypto.
pub record Hashing : Type 0 where
  pub blake2b : Bytes → Bytes
