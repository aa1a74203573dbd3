-- ===== src/Models/BigInt.antt =====
-- include/mw/core/models/crypto/BigInteger.h: `BigInt<NUM_BYTES>`, as its bytes, highest first. The
-- number of bytes is an argument where the code reads the template parameter.
pub mod Order
use Prim.Native.Nat.{bit_xor}
use libmw_core.Common.{ℕ, zero, suc, ◌-◌, Bool, true, false, not, ◌||◌, List, [], ◌∷◌}
use libmw_core.Common.{ltb, ◌==◌, if◌then◌else◌, replicate, bytes_eq}
use libmw_core.Util.EndianUtil.{Bytes}
use libmw_core.Serialization.{Read, append_vector, read_vector}

abbrev pub BigInt : Type 0
BigInt = Bytes

-- `bytes[i] = value`
abbrev pub set_at : ℕ → ℕ → Bytes → Bytes
set_at i value [] = []
set_at zero value (b ∷ bs) = value ∷ bs
set_at (suc i) value (b ∷ bs) = b ∷ set_at i value bs

-- `ValueOf`
unfoldable pub value_of : ℕ → ℕ → BigInt
value_of num_bytes value = set_at (num_bytes - 1) value (replicate num_bytes 0)

-- `Max`
unfoldable pub max_value : ℕ → BigInt
max_value num_bytes = replicate num_bytes 0xFF

-- `operator^`, byte by byte.
unfoldable pub big_int_xor : BigInt → BigInt → BigInt
big_int_xor [] ys = []
big_int_xor (x ∷ xs) [] = x ∷ xs
big_int_xor (x ∷ xs) (y ∷ ys) = bit_xor x y ∷ big_int_xor xs ys

-- The loop of `operator<`: the first byte that differs decides.
unfoldable pub big_int_lt : BigInt → BigInt → Bool
big_int_lt [] ys = false
big_int_lt (x ∷ xs) [] = false
big_int_lt (x ∷ xs) (y ∷ ys) = let rest = big_int_lt xs ys in if x == y then rest else ltb x y

-- `operator==`, `operator!=`, `operator>`, `operator<=` and `operator>=`
abbrev pub big_int_eq : BigInt → BigInt → Bool
big_int_eq xs ys = bytes_eq xs ys

abbrev pub big_int_ne : BigInt → BigInt → Bool
big_int_ne xs ys = not (big_int_eq xs ys)

unfoldable pub big_int_gt : BigInt → BigInt → Bool
big_int_gt xs ys = big_int_lt ys xs

unfoldable pub big_int_le : BigInt → BigInt → Bool
big_int_le xs ys = big_int_lt xs ys || big_int_eq xs ys

unfoldable pub big_int_ge : BigInt → BigInt → Bool
unfolding big_int_gt
big_int_ge xs ys = big_int_gt xs ys || big_int_eq xs ys

-- `Serialize` and `Deserialize`
unfoldable pub serialize_big_int : BigInt → Bytes → Bytes
serialize_big_int bytes serialized = append_vector bytes serialized

unfoldable pub deserialize_big_int : ℕ → Read BigInt
deserialize_big_int num_bytes = read_vector num_bytes
