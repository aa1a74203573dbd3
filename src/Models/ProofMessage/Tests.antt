-- ===== src/Models/ProofMessage/Tests.antt =====
-- The theorem on `ProofMessage` at a path of two indices.
use libmw_core.Common.{ℕ, ◌<◌, ◌≡◌, arith, List, [], ◌∷◌, length}
use libmw_core.Exceptions.{ok, undefined}
use libmw_core.Samples.{little_endian}
use libmw_core.Models.BigInt.{BigInt}
use libmw_core.Models.ProofMessage.{enhanced, from_key_indices, to_key_indices}
use libmw_core.Models.ProofMessage.RoundTrip.{IsCount, to_key_indices-from_key_indices}

abbrev path : List ℕ
path = 7 ∷ 65536 ∷ []

to_key_indices-from_key_indices_example :
    (IsCount enhanced 2
      → (m : BigInt) × (from_key_indices path enhanced ≡ ok m)
        × (length m ≡ 20)
        × (to_key_indices m enhanced ≡ ok path))
    × (4 < 2 → from_key_indices path enhanced ≡ undefined)
to_key_indices-from_key_indices_example =
    to_key_indices-from_key_indices path enhanced (omega arith, (omega arith, tt))
