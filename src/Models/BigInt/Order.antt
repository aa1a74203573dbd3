-- ===== src/Models/BigInt/Order.antt =====
-- The comparisons of `BigInt` are those of the numbers that the bytes write.
use libmw_core.Common.{◌∙◌}
use libmw_core.Models.BigInt.{big_int_ne}
use libmw_core.Common.{◌≢◌, sym}
use mathlib.Core.Bool.{◌||◌}
use mathlib.Core.Path.{ap₂}
use native.Mathlib.Nat.{pow-succ', mul-le-mul_right}
use libmw_core.Common.{
  ℕ, suc, ◌+◌, ◌*◌, ◌^◌, ◌≤◌, ◌<◌, ◌≡◌, ◌↔◌, refl, ap, arith, true, false, IsByte, All,
}
use libmw_core.Common.{[], ◌∷◌, length, ◌==◌, lt-or-le, inl, inr}
use libmw_core.Common.{bytes_eq_iff, Bool, not}
use libmw_core.Util.EndianUtil.{Bytes}
use libmw_core.Models.BigInt.{BigInt, big_int_lt, big_int_gt, big_int_le, big_int_ge, big_int_eq}

-- The number that the bytes write, highest first.
pub be_value : Bytes → ℕ
be_value [] = 0
be_value (b ∷ bs) = b * 256 ^ length bs + be_value bs

pub be_value-lt : (bs : Bytes) → All IsByte bs → be_value bs < 256 ^ length bs
unfolding be_value
be_value-lt [] h = omega arith
be_value-lt (b ∷ bs) (hb, hs) =
    let ih = be_value-lt bs hs in grind (arith, pow-succ' 256 (length bs))

-- The digit in front decides.
digits_lt : (x y P X Y : ℕ) → x < y → X < P → x * P + X < y * P + Y
digits_lt x y P X Y h small = let le : suc x * P ≤ y * P = mul-le-mul_right P h in grind arith

-- `operator<` compares the numbers that the bytes write.
pub big_int_lt_iff :
    (xs ys : BigInt)
    → length xs ≡ length ys
    → All IsByte xs
    → All IsByte ys
    → (big_int_lt xs ys ≡ true) ↔ (be_value xs < be_value ys)
unfolding big_int_lt be_value
big_int_lt_iff [] [] len hx hy = ground arith
big_int_lt_iff [] (y ∷ ys) len hx hy = absurd (omega arith)
big_int_lt_iff (x ∷ xs) [] len hx hy = absurd (omega arith)
big_int_lt_iff (x ∷ xs) (y ∷ ys) len (hx, hxs) (hy, hys) =
    let same : length xs ≡ length ys = omega arith in
    let ih = big_int_lt_iff xs ys same hxs hys in
    let bx = be_value-lt xs hxs in
    let by = be_value-lt ys hys in
    let P = 256 ^ length ys in
    elim (lt-or-le x y) [
      | inl below ↦
          let big = digits_lt x y P (be_value xs) (be_value ys) below (rw same at bx) in
          rw (same) ((λ e. big), (λ e. ground arith))
      | inr over ↦ elim (lt-or-le y x) [
        | inl above ↦
            let big = digits_lt y x P (be_value ys) (be_value xs) above by in
            rw (same) ((λ e. ground arith), (λ e. absurd (omega arith)))
        | inr under ↦
            let eq : x ≡ y = omega arith in
            let test : (y == y) ≡ true = ground arith in
            rw (same, eq, test) ((λ e. omega (arith, ih.0 e)), (λ e. ih.1 (omega arith)))
      ]
    ]

pub be_value_inj :
    (xs ys : BigInt)
    → length xs ≡ length ys
    → All IsByte xs
    → All IsByte ys
    → be_value xs ≡ be_value ys
    → xs ≡ ys
unfolding be_value
be_value_inj [] [] len hx hy e = refl
be_value_inj [] (y ∷ ys) len hx hy e = absurd (omega arith)
be_value_inj (x ∷ xs) [] len hx hy e = absurd (omega arith)
be_value_inj (x ∷ xs) (y ∷ ys) len (hx, hxs) (hy, hys) e =
    let same : length xs ≡ length ys = omega arith in
    let bx = be_value-lt xs hxs in
    let by = be_value-lt ys hys in
    let P = 256 ^ length ys in
    let e' : x * P + be_value xs ≡ y * P + be_value ys =
      ap (λ n. x * 256 ^ n + be_value xs) (sym same) ∙ e in
    elim (lt-or-le x y) [
      | inl below ↦
          absurd (omega (arith, digits_lt x y P (be_value xs) (be_value ys) below (rw same at bx)))
      | inr over ↦ elim (lt-or-le y x) [
        | inl above ↦ absurd (omega (arith, digits_lt y x P (be_value ys) (be_value xs) above by))
        | inr under ↦
            let eq : x ≡ y = omega arith in
            let tail = be_value_inj xs ys same hxs hys (omega (arith, ap (λ t. t * P) eq)) in
            ap₂ (λ b bs. b ∷ bs) eq tail
      ]
    ]

not_eq_iff : (b : Bool) (m n : ℕ) → (b ≡ true) ↔ (m ≡ n) → (not b ≡ true) ↔ (m ≢ n)
not_eq_iff true m n (f, g) = ((λ e. absurd (ground arith)), (λ e. absurd (e (f refl))))
not_eq_iff false m n (f, g) = ((λ e h. absurd (ground (arith, g h))), (λ e. refl))

or_eq_iff :
    (b c : Bool) (m n : ℕ) → (b ≡ true) ↔ (m < n) → (c ≡ true) ↔ (m ≡ n) → (b || c ≡ true) ↔ (m ≤ n)
or_eq_iff true c m n (f, g) (f', g') = ((λ e. omega (arith, f refl)), (λ e. refl))
or_eq_iff false true m n (f, g) (f', g') = ((λ e. omega (arith, f' refl)), (λ e. refl))
or_eq_iff false false m n (f, g) (f', g') = (
  (λ e. absurd (ground arith)),
  (λ e. elim (lt-or-le m n) [ inl h ↦ g h | inr h ↦ g' (omega arith) ]),
)

-- The six comparisons of two integers of the same number of bytes are those of the numbers that
-- the bytes write.
pub big_int_order :
    (xs ys : BigInt)
    → length xs ≡ length ys
    → All IsByte xs
    → All IsByte ys
    → ((big_int_lt xs ys ≡ true) ↔ (be_value xs < be_value ys))
      × ((big_int_gt xs ys ≡ true) ↔ (be_value ys < be_value xs))
      × ((big_int_eq xs ys ≡ true) ↔ (be_value xs ≡ be_value ys))
      × ((big_int_ne xs ys ≡ true) ↔ (be_value xs ≢ be_value ys))
      × ((big_int_le xs ys ≡ true) ↔ (be_value xs ≤ be_value ys))
      × ((big_int_ge xs ys ≡ true) ↔ (be_value ys ≤ be_value xs))
unfolding big_int_gt big_int_le big_int_ge
big_int_order xs ys len hx hy =
    let lt = big_int_lt_iff xs ys len hx hy in
    let gt = big_int_lt_iff ys xs (sym len) hy hx in
    let eq : (big_int_eq xs ys ≡ true) ↔ (be_value xs ≡ be_value ys) = (
      λ e. ap be_value ((bytes_eq_iff xs ys).0 e),
      λ e. (bytes_eq_iff xs ys).1 (be_value_inj xs ys len hx hy e),
    ) in
    (
      lt,
      gt,
      eq,
      not_eq_iff (big_int_eq xs ys) (be_value xs) (be_value ys) eq,
      or_eq_iff (big_int_lt xs ys) (big_int_eq xs ys) (be_value xs) (be_value ys) lt eq,
      or_eq_iff (big_int_lt ys xs) (big_int_eq xs ys) (be_value ys) (be_value xs) gt
          ((λ e. sym (eq.0 e)), (λ e. eq.1 (sym e))),
    )
