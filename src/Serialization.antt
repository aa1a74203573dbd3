-- ===== src/Serialization.antt =====
-- include/mw/core/serialization: `Serializer` and `Deserializer`. A serializer is the list of
-- bytes that it has so far.
pub mod Order
pub mod Reads
pub mod Outcomes
pub mod RoundTrip
pub mod Appends
pub mod Safety
pub mod Tests
use libmw_core.Common.{zero, suc}
use mathlib.Core.List.{reverse}
use libmw_core.Common.{
  ℕ, ◌+◌, Bool, List, [], ◌∷◌, ◌++◌, ltb, ◌==◌, if◌then◌else◌, length, add64, sub64,
}
use libmw_core.Common.{take, drop}
use libmw_core.Exceptions.{Result, ok, err, undefined, deserialization_exception}
use libmw_core.Util.EndianUtil.{Bytes, Platform, to_memory, from_memory, is_big_endian}

module _ ⦃p : Platform⦄ where
  -- `Append<T>` and `AppendLE<T>` of an unsigned integer of `size` bytes.
  unfoldable pub append_int : ℕ → ℕ → Bytes → Bytes
  append_int size t serialized =
      let temp = to_memory size t in
      if is_big_endian then serialized ++ temp else serialized ++ reverse temp

  pub append_int_le : ℕ → ℕ → Bytes → Bytes
  append_int_le size t serialized =
      let temp = to_memory size t in
      if is_big_endian then serialized ++ reverse temp else serialized ++ temp

-- `Append` of a vector or an array.
unfoldable pub append_vector : Bytes → Bytes → Bytes
append_vector v serialized = serialized ++ v

module _ ⦃p : Platform⦄ where
  -- `Append` of a string, which its length precedes.
  pub append_string : Bytes → Bytes → Bytes
  unfolding append_int
  append_string s serialized = append_int 8 (length s) serialized ++ s

-- `class Deserializer`
pub record Deserializer : Type 0 where
  pub index : ℕ
  pub bytes : Bytes

-- A read returns its value and moves the index, throws, or runs out of the buffer.
abbrev pub Read : Type 0 → Type 0
Read A = Deserializer → Result (A × Deserializer)

infixl 5 ◌>>=◌
abbrev pub ◌>>=◌ : {A B : Type 0} → Read A → (A → Read B) → Read B
◌>>=◌ m f d = elim (m d) [ ok (a, d') ↦ f a d' | err e ↦ err e | undefined ↦ undefined ]

abbrev pub pure : {A : Type 0} → A → Read A
pure a d = ok (a, d)

abbrev pub throw_if : Bool → Read (Unit {0})
throw_if c d = if c then err deserialization_exception else ok (tt, d)

-- The bytes between two iterators: outside of the buffer there is no such range.
unfoldable pub slice : Bytes → ℕ → ℕ → Result Bytes
slice bytes position count =
    if ltb (length bytes) (position + count)
    then undefined
    else ok (take count (drop position bytes))

-- The guard that every read begins with, in the arithmetic of `size_t`, and the range behind it.
pub read_slice : ℕ → Read Bytes
unfolding slice
read_slice count d =
    if ltb (length d.bytes) (add64 d.index count)
    then err deserialization_exception
    else elim (slice d.bytes d.index count) [
      | ok bs ↦ ok (bs, record d { index = add64 d.index count })
      | err e ↦ err e
      | undefined ↦ undefined
    ]

module _ ⦃p : Platform⦄ where
  -- `Read<T>` and `ReadLE<T>`
  pub read_int : ℕ → Read ℕ
  read_int size = do
    bs ← read_slice size
    pure (if is_big_endian then from_memory bs else from_memory (reverse bs))

  pub read_int_le : ℕ → Read ℕ
  read_int_le size = do
    bs ← read_slice size
    pure (if is_big_endian then from_memory (reverse bs) else from_memory bs)

-- `ReadVector` and `ReadArray`
pub read_vector : ℕ → Read Bytes
read_vector count = read_slice count

-- The rest of `ReadVarStr`, once the length is read.
pub read_chars : ℕ → Read Bytes
read_chars string_length = if string_length == 0 then pure [] else read_slice string_length

module _ ⦃p : Platform⦄ where
  pub read_var_str : Read Bytes
  read_var_str = do string_length ← read_int 8; read_chars string_length

-- `GetRemainingSize`
pub remaining_size : Deserializer → ℕ
remaining_size d = sub64 (length d.bytes) d.index

-- The loop over a vector that appends each element.
unfoldable pub append_all : {A : Type 0} → (A → Bytes → Bytes) → List A → Bytes → Bytes
append_all write [] serialized = serialized
append_all write (x ∷ xs) serialized = append_all write xs (write x serialized)

-- The loop that reads `count` elements one after the other.
unfoldable pub read_times : {A : Type 0} → ℕ → Read A → Read (List A)
read_times zero read = pure []
read_times (suc count) read = do x ← read; xs ← read_times count read; pure (x ∷ xs)
