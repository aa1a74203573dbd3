-- ===== src/File.antt =====
-- include/mw/core/file and src/file: the files that the mountain ranges are kept in.
pub mod AppendOnlyFile
pub mod BitmapFile
pub mod Tests
use libmw_core.Common.{ℕ, ◌+◌, Bool, List, [], ◌∷◌, ◌++◌, length, resize, if◌then◌else◌}
use libmw_core.Util.EndianUtil.{Bytes}

-- `File::Write(startIndex, bytes, truncate)` on the bytes of the file. It opens the file with
-- `std::ios::app`, so the bytes go to the end wherever `seekp` has moved to. A call of the operating
-- system that fails, where the code throws, is left out.
unfoldable pub write_at : ℕ → Bytes → Bool → Bytes → Bytes
write_at start_index [] truncate file = if truncate then resize (start_index + 0) 0 file else file
write_at start_index (b ∷ bs) truncate file =
    if truncate then resize (start_index + length (b ∷ bs)) 0 (file ++ b ∷ bs) else file ++ b ∷ bs
