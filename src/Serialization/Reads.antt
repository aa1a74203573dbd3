-- ===== src/Serialization/Reads.antt =====
-- Reading back what was written, wherever it stands in the buffer.
use mathlib.Core.List.{reverse, reverse-reverse}
use libmw_core.Common.{ℕ, ◌+◌, ◌^◌, ◌≤◌, ◌<◌, ◌≡◌, refl, ap, ◌∙◌, arith, [], ◌++◌}
use libmw_core.Common.{length, length-append, append_assoc, append-nil, u64_mod, ltb}
use libmw_core.Common.{take-append_length, drop-append_length, add64, false}
use libmw_core.Exceptions.{ok}
use libmw_core.Util.EndianUtil.{Bytes, Platform, le_bytes, from_le_bytes}
use libmw_core.Serialization.{
  Deserializer, Read, ◌>>=◌, pure, slice, read_slice, read_int, read_vector,
}
use libmw_core.Serialization.Order.{
  be_bytes, length-reverse, length-le_bytes, from_le_bytes-le_bytes,
}
use libmw_core.Serialization.Order.{read_int-be}

-- The deserializer that has read `front` and has `rest` before it.
abbrev pub at_rest : Bytes → Bytes → Deserializer
at_rest front rest = record { index = length front; bytes = front ++ rest }

-- `r` reads the value `a` off the bytes `bs`, whatever stands before and behind them.
abbrev pub Reads : {A : Type 0} → Read A → Bytes → A → Type 0
Reads r bs a =
    (front rest : Bytes)
    → length (front ++ (bs ++ rest)) < u64_mod
    → r (at_rest front (bs ++ rest)) ≡ ok (a, at_rest (front ++ bs) rest)

pub ltb_ge : (a b : ℕ) → b ≤ a → ltb a b ≡ false
ltb_ge a b h = ground arith

pub slice-at :
    (front bs rest : Bytes) → slice (front ++ (bs ++ rest)) (length front) (length bs) ≡ ok bs
unfolding slice
slice-at front bs rest =
    let len = length-append front (bs ++ rest) in
    let len' = length-append bs rest in
    rw (
      ltb_ge (length (front ++ (bs ++ rest))) (length front + length bs) (omega arith),
      drop-append_length front (bs ++ rest),
      take-append_length bs rest,
    )

pub read_slice-Reads : (bs : Bytes) → Reads (read_slice (length bs)) bs bs
unfolding read_slice
read_slice-Reads bs front rest h =
    let len = length-append front (bs ++ rest) in
    let len' = length-append bs rest in
    let len'' = length-append front bs in
    let sum : add64 (length front) (length bs) ≡ length (front ++ bs) = omega arith in
    rw
      (
        sum,
        ltb_ge (length (front ++ (bs ++ rest))) (length (front ++ bs)) (omega arith),
        slice-at front bs rest,
      )
      (rw (sum, append_assoc front bs rest) refl)

pub Reads-pure : {A : Type 0} (a : A) → Reads (pure a) [] a
Reads-pure a front rest h = rw (append-nil front) refl

pub Reads-bind :
    {A B : Type 0} (r : Read A) (f : A → Read B) (xs ys : Bytes) (a : A) (b : B)
    → Reads r xs a
    → Reads (f a) ys b
    → Reads (r >>= f) (xs ++ ys) b
Reads-bind r f xs ys a b hr hf front rest h =
    let split = append_assoc xs ys rest in
    let h' : length (front ++ (xs ++ (ys ++ rest))) < u64_mod = rw split at h in
    let h'' : length ((front ++ xs) ++ (ys ++ rest)) < u64_mod =
      rw (append_assoc front xs (ys ++ rest)) h' in
    rw (split, hr front (ys ++ rest) h', ◌>>=◌)
      (hf (front ++ xs) rest h'' ∙ ap (λ t. ok (b, at_rest t rest)) (append_assoc front xs ys))

-- A read whose value is changed by a function.
pub Reads-map :
    {A B : Type 0} (r : Read A) (f : A → B) (xs : Bytes) (a : A)
    → Reads r xs a
    → Reads (r >>= λ x. pure (f x)) xs (f a)
Reads-map r f xs a hr front rest h = rw (hr front rest h, ◌>>=◌) refl

module _ ⦃p : Platform⦄ where
  pub read_int-Reads : (size v : ℕ) → v < 256 ^ size → Reads (read_int size) (be_bytes size v) v
  read_int-Reads size v h front rest fits =
      let len : length (be_bytes size v) ≡ size =
        length-reverse (le_bytes size v) ∙ length-le_bytes size v in
      let bytes =
        Reads-map (read_slice (length (be_bytes size v))) (λ bs. from_le_bytes (reverse bs))
          (be_bytes size v) (be_bytes size v) (read_slice-Reads (be_bytes size v)) front rest
          fits in
      rw (read_int-be size)
        (rw (len, reverse-reverse (le_bytes size v), from_le_bytes-le_bytes size v h) at bytes)

pub read_vector-Reads : (bs : Bytes) → Reads (read_vector (length bs)) bs bs
unfolding read_vector
read_vector-Reads bs = read_slice-Reads bs
