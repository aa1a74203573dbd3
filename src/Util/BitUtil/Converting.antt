-- ===== src/Util/BitUtil/Converting.antt =====
-- The bytes that are put together are the digits of the result.
use Prim.Native.Nat.{bit_or}
use libmw_core.Common.{ℕ, ◌+◌, ◌*◌, ◌^◌, ◌<◌, ◌≡◌, ◌∙◌, arith, IsByte, [], ◌∷◌}
use libmw_core.Util.EndianUtil.{from_le_bytes}
use libmw_core.Util.BitUtil.{convert_to_u16, convert_to_u32, convert_to_u64, shl}
use libmw_core.Util.BitUtil.Bitwise.{bit_or-fields}

-- A field below the others is added.
or_field : (k q w r : ℕ) → w ≡ q * 2 ^ k → r < 2 ^ k → bit_or w r ≡ w + r
or_field k q w r e h = rw e (bit_or-fields k q r h)

u16_lem : (b1 b2 : ℕ) → IsByte b1 → IsByte b2 → convert_to_u16 b1 b2 ≡ b2 + 256 * b1
unfolding convert_to_u16
u16_lem b1 b2 h1 h2 = or_field 8 b1 (shl 16 b1 8) b2 (omega arith) (omega arith) ∙ omega arith

-- The numbers that the four bytes and the eight bytes write, highest first.
u32_lem :
    (b1 b2 b3 b4 : ℕ)
    → IsByte b1
    → IsByte b2
    → IsByte b3
    → IsByte b4
    → convert_to_u32 b1 b2 b3 b4 ≡ b4 + 256 * (b3 + 256 * (b2 + 256 * b1))
unfolding convert_to_u32
u32_lem b1 b2 b3 b4 h1 h2 h3 h4 =
    let w2 = bit_or (shl 32 b1 24) (shl 32 b2 16) in
    let w3 = bit_or w2 (shl 32 b3 8) in
    let e2 : w2 ≡ shl 32 b1 24 + shl 32 b2 16 =
      or_field 24 b1 (shl 32 b1 24) (shl 32 b2 16) (omega arith) (omega arith) in
    let e3 : w3 ≡ w2 + shl 32 b3 8 =
      or_field 16 (b2 + 256 * b1) w2 (shl 32 b3 8) (omega arith) (omega arith) in
    or_field 8 (b3 + 256 * (b2 + 256 * b1)) w3 b4 (omega arith) (omega arith) ∙ omega arith

u64_lem :
    (b1 b2 b3 b4 b5 b6 b7 b8 : ℕ)
    → IsByte b1
    → IsByte b2
    → IsByte b3
    → IsByte b4
    → IsByte b5
    → IsByte b6
    → IsByte b7
    → IsByte b8
    → convert_to_u64 b1 b2 b3 b4 b5 b6 b7 b8
      ≡ b8 + 256 * (b7 + 256 * (b6 + 256 * (b5 + 256 * (b4 + 256 * (b3 + 256 * (b2 + 256 * b1))))))
unfolding convert_to_u64
u64_lem b1 b2 b3 b4 b5 b6 b7 b8 h1 h2 h3 h4 h5 h6 h7 h8 =
    let w2 = bit_or (shl 64 b1 56) (shl 64 b2 48) in
    let e2 : w2 ≡ (b2 + 256 * b1) * 2 ^ 48 =
      or_field 56 (b1) (shl 64 b1 56) (shl 64 b2 48) (omega arith) (omega arith) ∙ omega arith in
    let w3 = bit_or w2 (shl 64 b3 40) in
    let e3 : w3 ≡ (b3 + 256 * (b2 + 256 * b1)) * 2 ^ 40 =
      or_field 48 (b2 + 256 * b1) w2 (shl 64 b3 40) (omega arith) (omega arith) ∙ omega arith in
    let w4 = bit_or w3 (shl 64 b4 32) in
    let e4 : w4 ≡ (b4 + 256 * (b3 + 256 * (b2 + 256 * b1))) * 2 ^ 32 =
      or_field 40 (b3 + 256 * (b2 + 256 * b1)) w3 (shl 64 b4 32) (omega arith) (omega arith)
      ∙ omega arith in
    let w5 = bit_or w4 (shl 64 b5 24) in
    let e5 : w5 ≡ (b5 + 256 * (b4 + 256 * (b3 + 256 * (b2 + 256 * b1)))) * 2 ^ 24 =
      or_field 32 (b4 + 256 * (b3 + 256 * (b2 + 256 * b1))) w4 (shl 64 b5 24) (omega arith)
        (omega arith)
      ∙ omega arith in
    let w6 = bit_or w5 (shl 64 b6 16) in
    let e6 : w6 ≡ (b6 + 256 * (b5 + 256 * (b4 + 256 * (b3 + 256 * (b2 + 256 * b1))))) * 2 ^ 16 =
      or_field 24 (b5 + 256 * (b4 + 256 * (b3 + 256 * (b2 + 256 * b1)))) w5 (shl 64 b6 16)
        (omega arith) (omega arith)
      ∙ omega arith in
    let w7 = bit_or w6 (shl 64 b7 8) in
    let e7 : w7
        ≡ (b7 + 256 * (b6 + 256 * (b5 + 256 * (b4 + 256 * (b3 + 256 * (b2 + 256 * b1)))))) * 2 ^ 8 =
      or_field 16 (b6 + 256 * (b5 + 256 * (b4 + 256 * (b3 + 256 * (b2 + 256 * b1))))) w6
        (shl 64 b7 8) (omega arith) (omega arith)
      ∙ omega arith in
    or_field 8 (b7 + 256 * (b6 + 256 * (b5 + 256 * (b4 + 256 * (b3 + 256 * (b2 + 256 * b1)))))) w7
      b8 (omega arith) (omega arith)
    ∙ omega arith

-- `ConvertToU16`, `ConvertToU32` and `ConvertToU64` of bytes are the numbers of which the bytes are
-- the digits to base 256, the first byte the highest.
pub convert_to-from_le_bytes :
    (b1 b2 b3 b4 b5 b6 b7 b8 : ℕ)
    → IsByte b1
    → IsByte b2
    → IsByte b3
    → IsByte b4
    → IsByte b5
    → IsByte b6
    → IsByte b7
    → IsByte b8
    → (convert_to_u16 b1 b2 ≡ from_le_bytes (b2 ∷ b1 ∷ []))
      × (convert_to_u32 b1 b2 b3 b4 ≡ from_le_bytes (b4 ∷ b3 ∷ b2 ∷ b1 ∷ []))
      × (convert_to_u64 b1 b2 b3 b4 b5 b6 b7 b8
          ≡ from_le_bytes (b8 ∷ b7 ∷ b6 ∷ b5 ∷ b4 ∷ b3 ∷ b2 ∷ b1 ∷ []))
unfolding from_le_bytes
convert_to-from_le_bytes b1 b2 b3 b4 b5 b6 b7 b8 h1 h2 h3 h4 h5 h6 h7 h8 = (
  u16_lem b1 b2 h1 h2 ∙ omega arith,
  u32_lem b1 b2 b3 b4 h1 h2 h3 h4 ∙ omega arith,
  u64_lem b1 b2 b3 b4 b5 b6 b7 b8 h1 h2 h3 h4 h5 h6 h7 h8 ∙ omega arith,
)
