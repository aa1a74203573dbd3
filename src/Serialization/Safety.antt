-- ===== src/Serialization/Safety.antt =====
-- Reads that stay inside the buffer, whatever its bytes are.
use mathlib.Core.List.{reverse}
use libmw_core.Common.{ℕ, zero, suc, ◌+◌, ◌≤◌, ◌<◌, ◌≡◌, refl, ◌∙◌, arith, length, u64_mod}
use libmw_core.Common.{lt-or-le, inl, inr, Bool, true, false, lt→ltb, add64, if◌then◌else◌}
use libmw_core.Exceptions.{Result, ok, err, undefined}
use libmw_core.Util.EndianUtil.{Platform, from_memory, is_big_endian}
use libmw_core.Serialization.{
  Deserializer, Read, ◌>>=◌, pure, throw_if, slice, read_slice, read_int, read_vector,
}
use libmw_core.Serialization.{read_times}
use libmw_core.Serialization.Reads.{ltb_ge}

-- The longest range that a reader asks for, and the buffers for which the sum does not wrap.
abbrev pub max_count : ℕ
max_count = 65536

pub record IsSmall (d : Deserializer) : Type 0 where
  pub within : d.index ≤ length d.bytes
  pub addressable : length d.bytes + max_count < u64_mod

-- The call has not left the buffer: it throws, or the same buffer is left with an index in it.
abbrev pub Inside : {A : Type 0} → Deserializer → Result (A × Deserializer) → Type 0
Inside d (ok (a, d')) = (d'.bytes ≡ d.bytes) × IsSmall d'
Inside d (err e) = Unit
Inside d undefined = ⊥

abbrev pub IsSafe : {A : Type 0} → Read A → Type 0
IsSafe r = (d : Deserializer) → IsSmall d → Inside d (r d)

pub pure-IsSafe : {A : Type 0} (a : A) → IsSafe (pure a)
pure-IsSafe a d v = (refl, v)

pub throw_if-IsSafe : (c : Bool) → IsSafe (throw_if c)
throw_if-IsSafe true d v = tt
throw_if-IsSafe false d v = (refl, v)

Inside-moved :
    {B : Type 0} (d d' : Deserializer) (m : Result (B × Deserializer))
    → d'.bytes ≡ d.bytes
    → Inside d' m
    → Inside d m
Inside-moved d d' (ok (b, d'')) same (same', v) = (same' ∙ same, v)
Inside-moved d d' (err e) same h = tt
Inside-moved d d' undefined same h = h

Inside-bind :
    {A B : Type 0} (d : Deserializer) (m : Result (A × Deserializer)) (f : A → Read B)
    → Inside d m
    → ((a : A) → IsSafe (f a))
    → Inside d (elim m [ ok (a, d') ↦ f a d' | err e ↦ err e | undefined ↦ undefined ])
Inside-bind d (ok (a, d')) f (same, v) hf = Inside-moved d d' (f a d') same (hf a d' v)
Inside-bind d (err e) f h hf = tt
Inside-bind d undefined f h hf = h

pub bind-IsSafe :
    {A B : Type 0} (r : Read A) (f : A → Read B)
    → IsSafe r
    → ((a : A) → IsSafe (f a))
    → IsSafe (r >>= f)
bind-IsSafe r f hr hf d v = Inside-bind d (r d) f (hr d v) hf

pub read_slice-IsSafe : (count : ℕ) → count ≤ max_count → IsSafe (read_slice count)
unfolding read_slice slice
read_slice-IsSafe count few d v =
    let within = v.within in
    let addressable = v.addressable in
    let sum : add64 d.index count ≡ d.index + count = omega arith in
    elim (lt-or-le (length d.bytes) (d.index + count)) [
      | inl short ↦ rw (sum, lt→ltb (length d.bytes) (d.index + count) short) tt
      | inr fits ↦
          rw (sum, ltb_ge (length d.bytes) (d.index + count) fits)
            (refl, record { within = rw sum fits; addressable = addressable })
    ]

pub read_vector-IsSafe : (count : ℕ) → count ≤ max_count → IsSafe (read_vector count)
unfolding read_vector
read_vector-IsSafe count few = read_slice-IsSafe count few

module _ ⦃p : Platform⦄ where
  pub read_int-IsSafe : (size : ℕ) → size ≤ max_count → IsSafe (read_int size)
  unfolding read_int
  read_int-IsSafe size few =
      bind-IsSafe (read_slice size)
        (λ bs. pure (if is_big_endian then from_memory bs else from_memory (reverse bs)))
        (read_slice-IsSafe size few) (λ bs d v. (refl, v))

pub read_times-IsSafe :
    {A : Type 0} (count : ℕ) (r : Read A) → IsSafe r → IsSafe (read_times count r)
unfolding read_times
read_times-IsSafe zero r h = λ d v. (refl, v)
read_times-IsSafe (suc count) r h =
    bind-IsSafe r _ h
      (λ x. bind-IsSafe (read_times count r) _ (read_times-IsSafe count r h) (λ xs d v. (refl, v)))

-- A read behind a guard that throws is only asked for where the guard lets it pass.
pub guard-IsSafe :
    {A : Type 0} (c : Bool) (r : Read A) → (c ≡ false → IsSafe r) → IsSafe (throw_if c >>= λ _. r)
guard-IsSafe true r h d v = tt
guard-IsSafe false r h d v = h refl d v
