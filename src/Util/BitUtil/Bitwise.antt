-- ===== src/Util/BitUtil/Bitwise.antt =====
-- The native `|` and `&`, read digit by digit: the half and the lowest digit of a result.
use Prim.Native.Nat.{bit_and, bit_or, digits, bitwise, bit_and-bitwise, bit_or-bitwise}
use mathlib.Core.WellFounded
use native.Mathlib.Nat.{pow-suc}
use libmw_core.Common.{ℕ, zero, suc, ◌+◌, ◌*◌, ◌/◌, ◌%◌, ◌^◌, ◌≤◌, ◌<◌, min, max, ◌≡◌, refl, ap}
use libmw_core.Common.{arith, lt_wf, ◌⊎◌, inl, inr}

-- Two amounts of fuel that both cover the number give the same digits.
module _ (rest : ℕ → ℕ) (join : ℕ → ℕ → ℕ) where
  enough_fuel : (b k l a : ℕ) → a ≤ k → a ≤ l → digits rest join k a b ≡ digits rest join l a b
  enough_fuel b zero zero a h g = refl
  enough_fuel b zero (suc l) zero h g = refl
  enough_fuel b zero (suc l) (suc a) h g = absurd (omega arith)
  enough_fuel b (suc k) zero zero h g = refl
  enough_fuel b (suc k) zero (suc a) h g = absurd (omega arith)
  enough_fuel b (suc k) (suc l) zero h g = refl
  enough_fuel b (suc k) (suc l) (suc a) h g =
      rw (enough_fuel (b / 2) k l (suc a / 2) (omega arith) (omega arith))

  lowest_digit :
      (a b : ℕ)
      → bitwise rest join (suc a) b
        ≡ bitwise rest join (suc a / 2) (b / 2) * 2 + join (suc a % 2) (b % 2)
  lowest_digit a b =
      omega (arith, enough_fuel (b / 2) a (suc a / 2) (suc a / 2) (omega arith) (omega arith))

pub bit_or_digit : (a b : ℕ) → bit_or a b ≡ bit_or (a / 2) (b / 2) * 2 + max (a % 2) (b % 2)
bit_or_digit zero b = simp bit_or-bitwise (omega arith)
bit_or_digit (suc a) b = simp bit_or-bitwise (lowest_digit (λ d. d) max a b)

pub bit_and_digit : (a b : ℕ) → bit_and a b ≡ bit_and (a / 2) (b / 2) * 2 + min (a % 2) (b % 2)
bit_and_digit zero b = simp bit_and-bitwise (omega arith)
bit_and_digit (suc a) b = simp bit_and-bitwise (lowest_digit (λ d. 0) min a b)

pub bit_and-zero : (a : ℕ) → bit_and a 0 ≡ 0
bit_and-zero = λ a. WellFounded.induction lt_wf {C = λ k. bit_and k 0 ≡ 0} a λ k ih.
    elim (zero_or_pos k) [
      | inl e ↦ rw e refl
      | inr h ↦ omega (arith, bit_and_digit k 0, ih (k / 2) (omega arith))
    ]
  where
    zero_or_pos : (k : ℕ) → (k ≡ 0) ⊎ (0 < k)
    zero_or_pos k = grind arith

pub bit_or-zero : (a : ℕ) → bit_or a 0 ≡ a
bit_or-zero = λ a. WellFounded.induction lt_wf {C = λ k. bit_or k 0 ≡ k} a λ k ih.
    elim (zero_or_pos k) [
      | inl e ↦ rw e refl
      | inr h ↦ omega (arith, bit_or_digit k 0, ih (k / 2) (omega arith))
    ]
  where
    zero_or_pos : (k : ℕ) → (k ≡ 0) ⊎ (0 < k)
    zero_or_pos k = grind arith

pub bit_and-one : (a : ℕ) → bit_and a 1 ≡ a % 2
bit_and-one a = omega (arith, bit_and_digit a 1, bit_and-zero (a / 2))

-- `(q << k) | r` is the sum of two fields that do not meet.
pub bit_or-fields : (k q r : ℕ) → r < 2 ^ k → bit_or (q * 2 ^ k) r ≡ q * 2 ^ k + r
bit_or-fields zero q r h = ground (arith, bit_or-zero q)
bit_or-fields (suc k) q r h = ground (
  arith,
  bit_or_digit (q * 2 ^ suc k) r,
  ap (λ (t : ℕ). q * t) (pow-suc 2 k),
  bit_or-fields k q (r / 2) (omega (arith, pow-suc 2 k)),
)
