-- ===== src/Serialization/Outcomes.antt =====
-- What the reads of `Deserializer` do on every buffer, well formed or not.
use libmw_core.Common.{ℕ, ◌+◌, ◌≤◌, ◌<◌, ◌≡◌, refl, arith, length, u64_mod, lt→ltb}
use libmw_core.Common.{take, drop, add64}
use libmw_core.Exceptions.{ok, err, undefined, deserialization_exception}
use libmw_core.Serialization.{Deserializer, slice, read_slice, read_vector}
use libmw_core.Serialization.Reads.{ltb_ge}

-- A deserializer that the constructor or a read has left: the index is within the buffer.
pub record IsValid (d : Deserializer) : Type 0 where
  pub within : d.index ≤ length d.bytes
  pub addressable : length d.bytes < u64_mod

-- Reading `count` bytes: where that many are left they are returned and the index moves behind
-- them; where fewer are left and the sum does not wrap the call throws; where the sum of the
-- index and `count` wraps, the guard passes and the range ends before it begins.
pub read_vector_outcomes :
    (d : Deserializer) (count : ℕ)
    → IsValid d
    → count < u64_mod
    → (d.index + count ≤ length d.bytes
        → read_vector count d
          ≡ ok (take count (drop d.index d.bytes), record d { index = d.index + count }))
      × (length d.bytes < d.index + count
          → d.index + count < u64_mod
          → read_vector count d ≡ err deserialization_exception)
      × (u64_mod ≤ d.index + count → read_vector count d ≡ undefined)
unfolding read_vector read_slice slice
read_vector_outcomes d count v small =
    let within = v.within in
    let addressable = v.addressable in
    (
      λ fits.
          let sum : add64 d.index count ≡ d.index + count = omega arith in
          rw (sum, ltb_ge (length d.bytes) (d.index + count) fits) (rw sum refl),
      λ short whole.
          let sum : add64 d.index count ≡ d.index + count = omega arith in
          rw (sum, lt→ltb (length d.bytes) (d.index + count) short) refl,
      λ wraps.
          rw
            (
              ltb_ge (length d.bytes) (add64 d.index count) (omega arith),
              lt→ltb (length d.bytes) (d.index + count) (omega arith),
            )
            refl,
    )
