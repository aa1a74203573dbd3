-- ===== src/Util/BitUtil.antt =====
-- include/mw/core/util/BitUtil.h: bit tricks on unsigned integers.
pub mod Bitwise
pub mod FillOnes
pub mod CountBits
pub mod Converting
pub mod Tests
use Prim.Native.Nat.{bit_and, bit_or}
use libmw_core.Common.{ℕ, zero, suc, ◌+◌, ◌*◌, ◌/◌, ◌%◌, ◌^◌, ◌==◌, if◌then◌else◌}

-- `x = x | (x >> k)` on a `uint64_t`.
abbrev pub or_shr : ℕ → ℕ → ℕ
or_shr k x = bit_or x (x / 2 ^ k)

unfoldable pub fill_ones_to_right : ℕ → ℕ
fill_ones_to_right x = or_shr 32 (or_shr 16 (or_shr 8 (or_shr 4 (or_shr 2 (or_shr 1 x)))))

-- The loop of `CountBitsSet`; the count is a `uint8_t`.
pub count_bits_loop : ℕ → ℕ → ℕ → ℕ
count_bits_loop zero n count = count
count_bits_loop (suc fuel) n count =
    let rest = count_bits_loop fuel (n / 2) ((count + bit_and n 1 % 256) % 256) in
    if n == 0 then count else rest

-- A `uint64_t` is 0 after at most 64 shifts.
unfoldable pub count_bits_set : ℕ → ℕ
unfolding count_bits_loop
count_bits_set input = count_bits_loop 64 input 0

-- `x << k` on a w-bit integer.
abbrev pub shl : ℕ → ℕ → ℕ → ℕ
shl w x k = x * 2 ^ k % 2 ^ w

-- `ConvertToU16`, `ConvertToU32` and `ConvertToU64`, of bytes from the highest on.
unfoldable pub convert_to_u16 : ℕ → ℕ → ℕ
convert_to_u16 byte1 byte2 = bit_or (shl 16 byte1 8) byte2

unfoldable pub convert_to_u32 : ℕ → ℕ → ℕ → ℕ → ℕ
convert_to_u32 byte1 byte2 byte3 byte4 =
    bit_or (bit_or (bit_or (shl 32 byte1 24) (shl 32 byte2 16)) (shl 32 byte3 8)) byte4

unfoldable pub convert_to_u64 : ℕ → ℕ → ℕ → ℕ → ℕ → ℕ → ℕ → ℕ → ℕ
convert_to_u64 byte1 byte2 byte3 byte4 byte5 byte6 byte7 byte8 =
    let high =
      bit_or (bit_or (bit_or (shl 64 byte1 56) (shl 64 byte2 48)) (shl 64 byte3 40))
        (shl 64 byte4 32) in
    bit_or (bit_or (bit_or (bit_or high (shl 64 byte5 24)) (shl 64 byte6 16)) (shl 64 byte7 8))
      byte8
