-- ===== src/File/BitmapFile.antt =====
-- include/mw/core/file/BitmapFile.h: a file of bits, with the changed bytes kept until a commit.
-- Bit 0 of a byte is its highest.
pub mod Bits
pub mod Writing
pub mod Views
pub mod Locking
pub mod Tests
use Prim.Native.Nat.{bit_and, bit_or, bit_xor}
use libmw_core.Common.{
  ℕ, zero, suc, ◌+◌, ◌-◌, ◌/◌, ◌%◌, ◌^◌, max, Bool, true, false, not, Option, none, some, List, [],
  ◌∷◌,
}
use libmw_core.Common.{length, get_or, ltb, ◌==◌, if◌then◌else◌}
use libmw_core.Util.EndianUtil.{Bytes}

-- `std::map<uint64_t, uint8_t>`, in the order of its keys.
abbrev pub ModifiedBytes : Type 0
ModifiedBytes = List (ℕ × ℕ)

unfoldable pub find_byte : ℕ → ModifiedBytes → Option ℕ
find_byte key [] = none
find_byte key ((key', byte) ∷ rest) =
    let later = find_byte key rest in if key == key' then some byte else later

-- `m_modifiedBytes[key] = byte`
unfoldable pub insert_byte : ℕ → ℕ → ModifiedBytes → ModifiedBytes
insert_byte key byte [] = (key, byte) ∷ []
insert_byte key byte ((key', byte') ∷ rest) =
    let later = insert_byte key byte rest in
    if key == key'
    then (key, byte) ∷ rest
    else if ltb key key'
    then (key, byte) ∷ (key', byte') ∷ rest
    else (key', byte') ∷ later

-- `seekp` and `write` of one byte: behind the end of the file, zeros fill the gap.
unfoldable pub write_byte : ℕ → ℕ → Bytes → Bytes
write_byte zero byte [] = byte ∷ []
write_byte zero byte (b ∷ bs) = byte ∷ bs
write_byte (suc index) byte [] = 0 ∷ write_byte index byte []
write_byte (suc index) byte (b ∷ bs) = b ∷ write_byte index byte bs

-- `File::WriteBytes`. A file that does not open, where the code writes nothing, is left out.
unfoldable pub write_bytes : ModifiedBytes → Bytes → Bytes
write_bytes [] file = file
write_bytes ((index, byte) ∷ rest) file = write_bytes rest (write_byte index byte file)

-- `class BitmapFile`. `file` stands for the bytes on the disk, and `mapped` for what m_memmap
-- shows: nothing of an empty file, which is not mapped.
pub record BitmapFile : Type 0 where
  pub file : Bytes
  pub modified : ModifiedBytes
  pub mapped : Bytes
  pub dirty : Bool

-- `Load`, of a file with these bytes.
unfoldable pub load_bitmap : Bytes → BitmapFile
load_bitmap file = record { file = file; modified = []; mapped = file; dirty = false }

abbrev pub is_empty : ModifiedBytes → Bool
is_empty [] = true
is_empty (m ∷ ms) = false

unfoldable pub commit : BitmapFile → BitmapFile
unfolding write_bytes
commit s =
    let written = write_bytes s.modified s.file in
    if not (is_empty s.modified)
    then record { file = written; modified = []; mapped = written; dirty = false }
    else s

unfoldable pub rollback : BitmapFile → BitmapFile
rollback s = record s { modified = []; dirty = false }

-- `GetByte`
unfoldable pub get_byte : ℕ → BitmapFile → ℕ
get_byte byte_index s = elim (find_byte byte_index s.modified) [
  | some byte ↦ byte
  | none ↦ if ltb byte_index (length s.mapped) then get_or s.mapped byte_index 0 else 0
]

-- `BitToByte`
unfoldable pub bit_to_byte : ℕ → ℕ
bit_to_byte bit = 2 ^ (7 - bit) % 256

unfoldable pub is_set : ℕ → BitmapFile → Bool
is_set position s = not (bit_and (get_byte (position / 8) s) (bit_to_byte (position % 8)) == 0)

unfoldable pub set : ℕ → BitmapFile → BitmapFile
set position s =
    let byte = bit_or (get_byte (position / 8) s) (bit_to_byte (position % 8)) in
    record s { dirty = true; modified = insert_byte (position / 8) byte s.modified }

unfoldable pub unset : ℕ → BitmapFile → BitmapFile
unset position s =
    let byte = bit_and (get_byte (position / 8) s) (bit_xor 0xff (bit_to_byte (position % 8))) in
    record s { dirty = true; modified = insert_byte (position / 8) byte s.modified }

-- The two static values that `operator[]` returns a reference to.
abbrev pub s_true : Bool
s_true = false

abbrev pub s_false : Bool
s_false = false

unfoldable pub index : ℕ → BitmapFile → Bool
unfolding is_set
index position s = if is_set position s then s_true else s_false

-- The key behind `crbegin`.
unfoldable pub last_key : ModifiedBytes → ℕ
last_key [] = 0
last_key ((key, byte) ∷ []) = key
last_key (m ∷ n ∷ rest) = last_key (n ∷ rest)

-- `GetNumBytes`
unfoldable pub get_num_bytes : BitmapFile → ℕ
get_num_bytes s =
    let size = if is_empty s.modified then 0 else last_key s.modified + 1 in
    elim s.mapped [ [] ↦ size | b ∷ bs ↦ max size (length s.mapped + 1) ]
