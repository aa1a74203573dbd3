-- ===== src/Common/Segments.antt =====
-- Lists cut into segments: where each segment stands in the whole.
use Prim.Native.Nat.{ℕ, zero, suc, ◌+◌, ◌-◌, ◌*◌, ◌≤◌, ◌<◌}
use mathlib.Core.Path.{◌≡◌, refl, sym, ap, ◌∙◌}
use mathlib.Core.List.{List, [], ◌∷◌, ◌++◌, append_assoc, flatten}
use native.Mathlib.Omega.{arith}
use libmw_core.Common.Lists.{length, get_or, take, drop, All, length-append, take-append_left}
use libmw_core.Common.Lists.{
  take-append_right, drop-append_right, get_or-append_left, take-append_length,
}

module _ {A : Type 0} where
  -- Where segment `i` begins.
  abbrev pub offset : List (List A) → ℕ → ℕ
  offset xs i = length (flatten (take i xs))

  abbrev pub segment : List (List A) → ℕ → List A
  segment xs i = get_or xs i []

  pub flatten-append : (xs ys : List (List A)) → flatten (xs ++ ys) ≡ flatten xs ++ flatten ys
  unfolding flatten
  flatten-append [] ys = refl
  flatten-append (x ∷ xs) ys =
      ap (λ t. x ++ t) (flatten-append xs ys) ∙ sym (append_assoc x (flatten xs) (flatten ys))

  pub length-flatten-append :
      (xs ys : List (List A))
      → length (flatten (xs ++ ys)) ≡ length (flatten xs) + length (flatten ys)
  length-flatten-append xs ys =
      ap length (flatten-append xs ys) ∙ length-append (flatten xs) (flatten ys)

  pub offset-suc :
      (x : List A) (xs : List (List A)) (i : ℕ) → offset (x ∷ xs) (suc i) ≡ length x + offset xs i
  unfolding flatten
  offset-suc x xs i = length-append x (flatten (take i xs))

  -- The segment is what stands there.
  pub segment-at :
      (xs : List (List A)) (i : ℕ)
      → i < length xs
      → take (length (segment xs i)) (drop (offset xs i) (flatten xs)) ≡ segment xs i
  unfolding flatten
  segment-at [] i h = elim h [ ]
  segment-at (x ∷ xs) zero h = take-append_length x (flatten xs)
  segment-at (x ∷ xs) (suc i) h =
      ap (λ n. take (length (segment xs i)) (drop n (x ++ flatten xs))) (offset-suc x xs i)
      ∙ ap (take (length (segment xs i))) (drop-append_right (offset xs i) x (flatten xs))
      ∙ segment-at xs i (omega arith)

  pub offset-within :
      (xs : List (List A)) (i : ℕ)
      → i < length xs
      → offset xs i + length (segment xs i) ≤ length (flatten xs)
  unfolding flatten
  offset-within [] i h = elim h [ ]
  offset-within (x ∷ xs) zero h = omega (arith, length-append x (flatten xs))
  offset-within (x ∷ xs) (suc i) h =
      omega
        (arith, length-append x (flatten xs), offset-suc x xs i, offset-within xs i (omega arith))

  -- A segment of the first part ends in it.
  pub offset-first :
      (xs ys : List (List A)) (i : ℕ)
      → i < length xs
      → offset (xs ++ ys) i + length (segment (xs ++ ys) i) ≤ length (flatten xs)
  offset-first xs ys i h =
      rw (take-append_left i xs ys (omega arith), get_or-append_left xs ys i [] h)
        (offset-within xs i h)

  -- Another segment begins behind it.
  pub offset-second :
      (xs ys : List (List A)) (i : ℕ) → length xs ≤ i → length (flatten xs) ≤ offset (xs ++ ys) i
  offset-second xs ys i h =
      let split : i ≡ length xs + (i - length xs) = omega arith in
      let cut : take i (xs ++ ys) ≡ xs ++ take (i - length xs) ys =
        ap (λ n. take n (xs ++ ys)) split ∙ take-append_right (i - length xs) xs ys in
      omega (
        arith,
        ap (λ t. length (flatten t)) cut,
        length-flatten-append xs (take (i - length xs) ys),
      )

  -- Segments of one length.
  abbrev pub Uniform : ℕ → List (List A) → Type 0
  Uniform n xs = All (λ x. length x ≡ n) xs

  pub offset-Uniform :
      (n : ℕ) (xs : List (List A)) (i : ℕ) → Uniform n xs → i ≤ length xs → offset xs i ≡ i * n
  unfolding flatten
  offset-Uniform n xs zero u h = omega arith
  offset-Uniform n [] (suc i) u h = elim h [ ]
  offset-Uniform n (x ∷ xs) (suc i) (e, u) h =
      offset-suc x xs i ∙ omega (arith, offset-Uniform n xs i u (omega arith))

  pub segment-Uniform :
      (n : ℕ) (xs : List (List A)) (i : ℕ)
      → Uniform n xs
      → i < length xs
      → length (segment xs i) ≡ n
  segment-Uniform n [] i u h = elim h [ ]
  segment-Uniform n (x ∷ xs) zero (e, u) h = e
  segment-Uniform n (x ∷ xs) (suc i) (e, u) h = segment-Uniform n xs i u (omega arith)

  pub length-Uniform :
      (n : ℕ) (xs : List (List A)) → Uniform n xs → length (flatten xs) ≡ length xs * n
  unfolding flatten
  length-Uniform n [] u = omega arith
  length-Uniform n (x ∷ xs) (e, u) =
      omega (arith, length-append x (flatten xs), length-Uniform n xs u)

module _ {ℓ} {A : Type ℓ} where
  -- Inside of a list the default does not matter.
  pub get_or-inside :
      (xs : List A) (i : ℕ) (d e : A) → i < length xs → get_or xs i d ≡ get_or xs i e
  get_or-inside [] i d e h = elim h [ ]
  get_or-inside (x ∷ xs) zero d e h = refl
  get_or-inside (x ∷ xs) (suc i) d e h = get_or-inside xs i d e (omega arith)

module _ {ℓ κ} {A : Type ℓ} where
  pub All-append : (P : A → Type κ) (xs ys : List A) → All P xs → All P ys → All P (xs ++ ys)
  All-append P [] ys hx hy = hy
  All-append P (x ∷ xs) ys (h, hx) hy = (h, All-append P xs ys hx hy)

  pub All-get_or :
      (P : A → Type κ) (xs : List A) (i : ℕ) (d : A) → All P xs → i < length xs → P (get_or xs i d)
  All-get_or P [] i d a h = elim h [ ]
  All-get_or P (x ∷ xs) zero d (hx, a) h = hx
  All-get_or P (x ∷ xs) (suc i) d (hx, a) h = All-get_or P xs i d a (omega arith)

  pub All-prefix : (P : A → Type κ) (xs ys : List A) → All P (xs ++ ys) → All P xs
  All-prefix P [] ys h = tt
  All-prefix P (x ∷ xs) ys (hx, h) = (hx, All-prefix P xs ys h)
