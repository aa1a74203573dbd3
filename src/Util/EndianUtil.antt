-- ===== src/Util/EndianUtil.antt =====
-- include/mw/core/util/EndianUtil.h: the byte order of the machine.
use mathlib.Core.List.{reverse}
use libmw_core.Common.{ℕ, zero, suc, ◌+◌, ◌*◌, ◌/◌, ◌%◌, Bool, List, [], ◌∷◌, ◌==◌, if◌then◌else◌}
use libmw_core.Common.{get_or}

abbrev pub Bytes : Type 0
Bytes = List ℕ

-- What the program does not decide: how the machine lays an integer out in memory.
pub record Platform : Type 0 where
  pub big_endian : Bool

-- The `size` bytes of an unsigned integer, lowest first.
unfoldable pub le_bytes : ℕ → ℕ → Bytes
le_bytes zero v = []
le_bytes (suc size) v = (v % 256) ∷ le_bytes size (v / 256)

unfoldable pub from_le_bytes : Bytes → ℕ
from_le_bytes [] = 0
from_le_bytes (b ∷ bs) = b + 256 * from_le_bytes bs

module _ ⦃p : Platform⦄ where
  -- `memcpy` from an integer of `size` bytes, and into one.
  unfoldable pub to_memory : ℕ → ℕ → Bytes
  unfolding le_bytes
  to_memory size v = if p.big_endian then reverse (le_bytes size v) else le_bytes size v

  unfoldable pub from_memory : Bytes → ℕ
  unfolding from_le_bytes
  from_memory bs = if p.big_endian then from_le_bytes (reverse bs) else from_le_bytes bs

  -- The union of a `uint32_t` and four chars in `IsBigEndian`.
  unfoldable pub is_big_endian : Bool
  unfolding to_memory
  is_big_endian = get_or (to_memory 4 0x01020304) 0 0 == 1
