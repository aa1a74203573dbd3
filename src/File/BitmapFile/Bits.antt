-- ===== src/File/BitmapFile/Bits.antt =====
-- The bits of a byte in `BitmapFile`, by evaluation at every byte.
use Prim.Native.Nat.{bit_and, bit_or, bit_xor}
use libmw_core.Common.{ℕ, zero, suc, ◌<◌, ◌≡◌, refl, arith, Bool, true, false, not, ◌&&◌, ◌||◌}
use libmw_core.Common.{ltb, ◌==◌, ltb→lt}
use libmw_core.File.BitmapFile.{bit_to_byte}

all_below : ℕ → (ℕ → Bool) → Bool
all_below zero p = true
all_below (suc n) p = p n && all_below n p

all_below-holds : (n : ℕ) (p : ℕ → Bool) (x : ℕ) → all_below n p ≡ true → x < n → p x ≡ true
unfolding all_below
all_below-holds zero p x h lt = absurd (omega arith)
all_below-holds (suc n) p x h lt = ground (arith, all_below-holds n p x)

same : Bool → Bool → Bool
same true b = b
same false b = not b

same-≡ : (a b : Bool) → same a b ≡ true → a ≡ b
unfolding same
same-≡ true true e = refl
same-≡ true false e = cc
same-≡ false true e = cc
same-≡ false false e = refl

-- A property of a byte and the numbers of two bits.
everywhere : (ℕ → ℕ → ℕ → Bool) → Bool
everywhere p = all_below 256 (λ b. all_below 8 (λ i. all_below 8 (p b i)))

everywhere-holds :
    (p : ℕ → ℕ → ℕ → Bool)
    → everywhere p ≡ true
    → (b i j : ℕ) → b < 256
    → i < 8
    → j < 8
    → p b i j ≡ true
unfolding everywhere
everywhere-holds p e b i j hb hi hj =
    all_below-holds 8 (p b i) j
      (all_below-holds 8 (λ i. all_below 8 (p b i)) i
        (all_below-holds 256 (λ b. all_below 8 (λ i. all_below 8 (p b i))) b e hb) hi)
      hj

abbrev pub bit_of : ℕ → ℕ → Bool
bit_of b j = not (bit_and b (bit_to_byte j) == 0)

abbrev pub set_bit : ℕ → ℕ → ℕ
set_bit b i = bit_or b (bit_to_byte i)

abbrev pub unset_bit : ℕ → ℕ → ℕ
unset_bit b i = bit_and b (bit_xor 0xff (bit_to_byte i))

set_table : everywhere (λ b i j. same (bit_of (set_bit b i) j) (j == i || bit_of b j)) ≡ true
unfolding everywhere all_below same bit_to_byte
set_table = refl

unset_table :
    everywhere (λ b i j. same (bit_of (unset_bit b i) j) (not (j == i) && bit_of b j)) ≡ true
unfolding everywhere all_below same bit_to_byte
unset_table = refl

byte_table : everywhere (λ b i j. ltb (set_bit b i) 256 && ltb (unset_bit b i) 256) ≡ true
unfolding everywhere all_below bit_to_byte
byte_table = refl

module _ (b i j : ℕ) (hb : b < 256) (hi : i < 8) (hj : j < 8) where
  pub bit-set : bit_of (set_bit b i) j ≡ (j == i || bit_of b j)
  bit-set = same-≡ (bit_of (set_bit b i) j) (j == i || bit_of b j) (
      everywhere-holds (λ b i j. same (bit_of (set_bit b i) j) (j == i || bit_of b j)) set_table b i
        j hb hi hj)

  pub bit-unset : bit_of (unset_bit b i) j ≡ (not (j == i) && bit_of b j)
  bit-unset = same-≡ (bit_of (unset_bit b i) j) (not (j == i) && bit_of b j) (
      everywhere-holds (λ b i j. same (bit_of (unset_bit b i) j) (not (j == i) && bit_of b j))
        unset_table b i j hb hi hj)

  pub bits_bound : (set_bit b i < 256) × (unset_bit b i < 256)
  bits_bound =
      let both =
        everywhere-holds (λ b i j. ltb (set_bit b i) 256 && ltb (unset_bit b i) 256) byte_table b i
          j hb hi hj in
      (
        ltb→lt (set_bit b i) 256 (ground (arith, both)),
        ltb→lt (unset_bit b i) 256 (ground (arith, both)),
      )
