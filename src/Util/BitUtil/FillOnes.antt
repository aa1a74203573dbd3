-- ===== src/Util/BitUtil/FillOnes.antt =====
-- `BitUtil::FillOnesToRight` yields the all-ones number of the same bit length.
use native.Mathlib.Nat.{mul_comm, one-le-pow, pow-succ', div-div-eq-div-mul}
use libmw_core.Common.{ℕ, zero, suc, ◌+◌, ◌-◌, ◌*◌, ◌/◌, ◌%◌, ◌^◌, ◌≤◌, ◌<◌, min, max, ◌≡◌, ap, ◌∙◌}
use libmw_core.Common.{sym, arith, IsU64, lt-or-le, inl, inr}
use libmw_core.Util.BitUtil.{or_shr, fill_ones_to_right}
use libmw_core.Util.BitUtil.Bitwise.{bit_or_digit}

-- The digits of `y x`: digit `j` is 1 when one of the digits of `x` from `j` on is, of which as
-- many are looked at as `w` has zeros.
abbrev Spreads : ℕ → (ℕ → ℕ) → Type 0
Spreads w y = (x : ℕ) → y x ≡ 2 * y (x / 2) + min 1 (x % w)

div-pow_suc : (x k : ℕ) → x / 2 ^ suc k ≡ x / 2 / 2 ^ k
div-pow_suc x k = rw (pow-succ' 2 k) (sym (div-div-eq-div-mul x 2 (2 ^ k)))

div_comm : (x a b : ℕ) → x / b / a ≡ x / a / b
div_comm x a b = div-div-eq-div-mul x b a ∙ rw (mul_comm b a) (sym (div-div-eq-div-mul x a b))

Spreads-shift : (w : ℕ) (y : ℕ → ℕ) → Spreads w y → (k x : ℕ) → y x / 2 ^ k ≡ y (x / 2 ^ k)
Spreads-shift w y s zero x = ground arith
Spreads-shift w y s (suc k) x =
    div-pow_suc (y x) k
    ∙ ap (λ (t : ℕ). t / 2 ^ k) (omega (arith, s x))
    ∙ Spreads-shift w y s k (x / 2)
    ∙ ap y (sym (div-pow_suc x k))

-- One line of the code: `x | (x >> k)` doubles how far the ones spread.
Spreads-or_shr :
    (k : ℕ) (y : ℕ → ℕ)
    → ((x : ℕ) → min 1 (x % 2 ^ (k + k)) ≡ max (min 1 (x % 2 ^ k)) (min 1 (x / 2 ^ k % 2 ^ k)))
    → Spreads (2 ^ k) y
    → Spreads (2 ^ (k + k)) (λ x. or_shr k (y x))
Spreads-or_shr k y split s x =
    let shift = Spreads-shift (2 ^ k) y s k in
    let near : y x / 2 ≡ y (x / 2) = omega (arith, s x) in
    let far : y (x / 2 ^ k) / 2 ≡ y (x / 2 / 2 ^ k) =
      omega (arith, s (x / 2 ^ k)) ∙ ap y (div_comm x 2 (2 ^ k)) in
    rw (shift x, shift (x / 2), bit_or_digit (y x) (y (x / 2 ^ k)), near, far)
      (omega (arith, split x, s x, s (x / 2 ^ k)))

fill_ones_digit :
    (x : ℕ) → fill_ones_to_right x ≡ 2 * fill_ones_to_right (x / 2) + min 1 (x % 2 ^ 64)
unfolding fill_ones_to_right
fill_ones_digit x =
    Spreads-or_shr 32 _ (λ n. omega arith)
      (Spreads-or_shr 16 _ (λ n. omega arith)
        (Spreads-or_shr 8 _ (λ n. omega arith)
          (Spreads-or_shr 4 _ (λ n. omega arith)
            (Spreads-or_shr 2 _ (λ n. omega arith)
              (Spreads-or_shr 1 (λ n. n) (λ n. omega arith) (λ n. omega arith))))))
      x

-- For a `uint64_t` of k binary digits the result is the number of k ones.
pub fill_ones-pow :
    (k x : ℕ) → IsU64 x → x < 2 ^ k → 2 ^ k ≤ 2 * x + 1 → fill_ones_to_right x ≡ 2 ^ k - 1
fill_ones-pow zero x fits lo hi =
    let e : x ≡ 0 = omega arith in rw e (omega (arith, fill_ones_digit 0))
fill_ones-pow (suc k) x fits lo hi = omega (
  arith,
  pow-succ' 2 k,
  one-le-pow k 2 (omega arith),
  fill_ones_digit x,
  fill_ones-pow k (x / 2) (omega arith) (omega (arith, pow-succ' 2 k))
      (omega (arith, pow-succ' 2 k)),
)

-- The number of binary digits of `x`.
pub digit_count : (n x : ℕ) → x < 2 ^ n → (k : ℕ) × (k ≤ n) × (x < 2 ^ k) × (2 ^ k ≤ 2 * x + 1)
digit_count zero x h = (0, omega arith, h, omega arith)
digit_count (suc n) x h = elim (lt-or-le x (2 ^ n)) [
  | inl lower ↦ let (k, kn, lo, hi) = digit_count n x lower in (k, omega arith, lo, hi)
  | inr above ↦ (suc n, omega arith, h, omega (arith, pow-succ' 2 n))
]
