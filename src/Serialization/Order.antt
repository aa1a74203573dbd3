-- ===== src/Serialization/Order.antt =====
-- The bytes of an integer are the same on every machine: highest first for `Append`.
use mathlib.Core.List.{reverse, reverse-reverse, reverse-append}
use native.Mathlib.Nat.{pow-succ'}
use libmw_core.Common.{ℕ, zero, suc, ◌/◌, ◌^◌, ◌<◌, ◌≡◌, refl, arith, ap, ◌∙◌}
use libmw_core.Common.{
  Bool-cases, length, length-append, append_assoc, List, [], ◌∷◌, ◌++◌, inl, inr, All, IsByte,
}
use libmw_core.Util.EndianUtil.{Bytes, Platform, le_bytes, from_le_bytes, to_memory, from_memory}
use libmw_core.Util.EndianUtil.{is_big_endian}
use libmw_core.Serialization.{
  append_string, append_int, append_int_le, read_int, read_int_le, read_slice, ◌>>=◌,
}
use libmw_core.Serialization.{pure}

-- The bytes of an unsigned integer, highest first.
abbrev pub be_bytes : ℕ → ℕ → Bytes
be_bytes size v = reverse (le_bytes size v)

pub from_le_bytes-le_bytes : (size v : ℕ) → v < 256 ^ size → from_le_bytes (le_bytes size v) ≡ v
unfolding le_bytes from_le_bytes
from_le_bytes-le_bytes zero v h = omega arith
from_le_bytes-le_bytes (suc size) v h = omega (
  arith,
  pow-succ' 256 size,
  from_le_bytes-le_bytes size (v / 256) (omega (arith, pow-succ' 256 size)),
)

pub length-le_bytes : (size v : ℕ) → length (le_bytes size v) ≡ size
unfolding le_bytes
length-le_bytes zero v = refl
length-le_bytes (suc size) v = ap suc (length-le_bytes size (v / 256))

pub le_bytes-IsByte : (size v : ℕ) → All IsByte (le_bytes size v)
unfolding le_bytes
le_bytes-IsByte zero v = tt
le_bytes-IsByte (suc size) v = (omega arith, le_bytes-IsByte size (v / 256))

pub length-reverse {ℓ} : {A : Type ℓ} (xs : List A) → length (reverse xs) ≡ length xs
length-reverse [] = refl
length-reverse (x ∷ xs) =
    ap length (reverse-append (x ∷ []) xs)
    ∙ omega (arith, length-append (reverse xs) (x ∷ []), length-reverse xs)

module _ ⦃p : Platform⦄ where
  -- `IsBigEndian` finds out the order of the machine.
  pub is_big_endian_lem : is_big_endian ≡ p.big_endian
  unfolding is_big_endian to_memory le_bytes
  is_big_endian_lem = elim (Bool-cases p.big_endian) [ inl e ↦ rw e | inr e ↦ rw e ]

  pub append_int-be_bytes : (size v : ℕ) (s : Bytes) → append_int size v s ≡ s ++ be_bytes size v
  unfolding append_int to_memory
  append_int-be_bytes size v s = elim (Bool-cases p.big_endian) [
    | inl e ↦ rw (is_big_endian_lem, e)
    | inr e ↦ rw (is_big_endian_lem, e)
  ]

  pub append_int_le-le_bytes :
      (size v : ℕ) (s : Bytes) → append_int_le size v s ≡ s ++ le_bytes size v
  unfolding append_int_le to_memory
  append_int_le-le_bytes size v s = elim (Bool-cases p.big_endian) [
    | inl e ↦ rw (is_big_endian_lem, e, reverse-reverse (le_bytes size v))
    | inr e ↦ rw (is_big_endian_lem, e)
  ]

  pub append_string-be_bytes : (s t : Bytes) → append_string s t ≡ t ++ (be_bytes 8 (length s) ++ s)
  unfolding append_string
  append_string-be_bytes s t =
      ap (λ x. x ++ s) (append_int-be_bytes 8 (length s) t)
      ∙ append_assoc t (be_bytes 8 (length s)) s

  -- A read takes a range and reads the integer off it, highest byte first.
  pub read_int-be :
      (size : ℕ) → read_int size ≡ (read_slice size >>= λ bs. pure (from_le_bytes (reverse bs)))
  unfolding read_int from_memory
  read_int-be size = elim (Bool-cases p.big_endian) [
    | inl e ↦ rw (is_big_endian_lem, e)
    | inr e ↦ rw (is_big_endian_lem, e)
  ]

  pub read_int_le-le :
      (size : ℕ) → read_int_le size ≡ (read_slice size >>= λ bs. pure (from_le_bytes bs))
  unfolding read_int_le from_memory
  read_int_le-le size = elim (Bool-cases p.big_endian) [
    | inl e ↦ rw (is_big_endian_lem, e) (simp reverse-reverse)
    | inr e ↦ rw (is_big_endian_lem, e)
  ]
