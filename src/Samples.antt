-- ===== src/Samples.antt =====
-- Concrete parameters for the tests: a machine of each byte order, and a function in the place of
-- the hash.
use libmw_core.Common.{true, false}
use libmw_core.Crypto.{Hashing}
use libmw_core.Util.EndianUtil.{Platform}

instance abbrev pub little_endian : Platform
little_endian = record { big_endian = false }

abbrev pub big_endian : Platform
big_endian = record { big_endian = true }

instance abbrev pub plain_hashing : Hashing
plain_hashing = record { blake2b = λ bs. bs }
