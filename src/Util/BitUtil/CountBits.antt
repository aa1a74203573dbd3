-- ===== src/Util/BitUtil/CountBits.antt =====
-- `BitUtil::CountBitsSet` is the sum of the binary digits.
use Prim.Native.Nat.{bit_and}
use native.Mathlib.Nat.{pow-succ'}
use libmw_core.Common.{ℕ, zero, suc, ◌+◌, ◌/◌, ◌%◌, ◌^◌, ◌≤◌, ◌<◌, ◌≡◌, refl, arith, IsU64}
use libmw_core.Common.{ap, ◌∙◌, ◌-◌, pow_mono, ◌⊎◌, inl, inr}
use libmw_core.Util.BitUtil.{count_bits_loop, count_bits_set}
use libmw_core.Util.BitUtil.Bitwise.{bit_and-one}

-- The sum of the lowest `k` binary digits.
pub digit_sum : ℕ → ℕ → ℕ
digit_sum zero n = 0
digit_sum (suc k) n = digit_sum k (n / 2) + n % 2

pub digit_sum-zero : (k : ℕ) → digit_sum k 0 ≡ 0
unfolding digit_sum
digit_sum-zero zero = refl
digit_sum-zero (suc k) = omega (arith, digit_sum-zero k)

pub digit_sum-le : (k n : ℕ) → digit_sum k n ≤ k
unfolding digit_sum
digit_sum-le zero n = omega arith
digit_sum-le (suc k) n = omega (arith, digit_sum-le k (n / 2))

pub digit_sum-le_self : (k n : ℕ) → digit_sum k n ≤ n
unfolding digit_sum
digit_sum-le_self zero n = omega arith
digit_sum-le_self (suc k) n = omega (arith, digit_sum-le_self k (n / 2))

-- A number below 2^k has no further digit.
pub digit_sum-top_zero : (k n : ℕ) → n < 2 ^ k → digit_sum (suc k) n ≡ digit_sum k n
unfolding digit_sum
digit_sum-top_zero zero n h = omega arith
digit_sum-top_zero (suc k) n h =
    omega (arith, digit_sum-top_zero k (n / 2) (omega (arith, pow-succ' 2 k)))

digit_sum-more : (d k n : ℕ) → n < 2 ^ k → digit_sum (d + k) n ≡ digit_sum k n
digit_sum-more zero k n h = ap (λ t. digit_sum t n) (omega arith)
digit_sum-more (suc d) k n h =
    ap (λ t. digit_sum t n) (omega arith)
    ∙ digit_sum-top_zero (d + k) n (omega (arith, pow_mono d k))
    ∙ digit_sum-more d k n h

-- A `uint64_t` has all of its digits among the lowest 64.
pub digit_sum_word : (k n : ℕ) → k ≤ 64 → n < 2 ^ k → digit_sum 64 n ≡ digit_sum k n
digit_sum_word k n h lt =
    let e : 64 ≡ 64 - k + k = omega arith in
    ap (λ t. digit_sum t n) e ∙ digit_sum-more (64 - k) k n lt

digit_sum-suc : (k n : ℕ) → digit_sum (suc k) n ≡ digit_sum k (n / 2) + n % 2
unfolding digit_sum
digit_sum-suc k n = refl

-- The digit above the lowest `k` counts one more.
pub digit_sum-top_one : (k n : ℕ) → n < 2 ^ k → digit_sum (suc k) (2 ^ k + n) ≡ 1 + digit_sum k n
digit_sum-top_one zero n h = let e : n ≡ 0 = omega arith in rw e (unfold digit_sum in refl)
digit_sum-top_one (suc k) n h =
    let half : (2 ^ suc k + n) / 2 ≡ 2 ^ k + n / 2 = omega (arith, pow-succ' 2 k) in
    omega (
      arith,
      pow-succ' 2 k,
      digit_sum-suc (suc k) (2 ^ suc k + n),
      digit_sum-suc k n,
      ap (digit_sum (suc k)) half,
      digit_sum-top_one k (n / 2) (omega (arith, pow-succ' 2 k)),
    )

count_bits_loop-digit_sum :
    (fuel n count : ℕ)
    → n < 2 ^ fuel
    → count + fuel < 256
    → count_bits_loop fuel n count ≡ count + digit_sum fuel n
unfolding count_bits_loop digit_sum
count_bits_loop-digit_sum zero n count h fits = omega arith
count_bits_loop-digit_sum (suc fuel) n count h fits = ground (
  arith,
  bit_and-one n,
  digit_sum-zero fuel,
  count_bits_loop-digit_sum fuel (n / 2) ((count + bit_and n 1 % 256) % 256)
      (omega (arith, pow-succ' 2 fuel)),
)

-- `CountBitsSet` of a 64-bit word is the sum of its 64 binary digits.
pub count_bits_set-digit_sum : (n : ℕ) → IsU64 n → count_bits_set n ≡ digit_sum 64 n
unfolding count_bits_set
count_bits_set-digit_sum n h = omega (arith, count_bits_loop-digit_sum 64 n 0 h (omega arith))

pub digit_sum-suc_le : (k n : ℕ) → digit_sum k (suc n) ≤ digit_sum k n + 1
digit_sum-suc_le zero n = unfold digit_sum in omega arith
digit_sum-suc_le (suc k) n =
    let step = digit_sum-suc k n in
    let step' = digit_sum-suc k (suc n) in
    let ih = digit_sum-suc_le k (n / 2) in
    elim (even_or_odd n) [
      | inl even ↦
          let same : suc n / 2 ≡ n / 2 = omega arith in omega (arith, ap (digit_sum k) same)
      | inr odd ↦
          let next : suc n / 2 ≡ suc (n / 2) = omega arith in omega (arith, ap (digit_sum k) next)
    ]
  where
    even_or_odd : (m : ℕ) → (m % 2 ≡ 0) ⊎ (m % 2 ≡ 1)
    even_or_odd m = grind arith
