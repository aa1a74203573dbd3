-- ===== src/File/AppendOnlyFile.antt =====
-- include/mw/core/file/AppendOnlyFile.h: a file with a buffer of bytes that wait for a commit.
pub mod Contents
pub mod Committing
pub mod Segments
use libmw_core.Common.{
  not, ◌==◌, ℕ, ◌-◌, Bool, true, ◌&&◌, List, [], ◌∷◌, ◌++◌, length, take, ltb, leb, ◌==◌,
}
use libmw_core.Common.{if◌then◌else◌, add64}
use libmw_core.Exceptions.{undefined, Result, ok, err, file_exception}
use libmw_core.Util.EndianUtil.{Bytes}
use libmw_core.Serialization.{slice}
use libmw_core.File.{write_at}

-- `class AppendOnlyFile`. `file` stands for the bytes on the disk, and `mapped` for what m_mmap
-- shows: nothing of an empty file, which is not mapped.
pub record AppendOnlyFile : Type 0 where
  pub file : Bytes
  pub mapped : Bytes
  pub file_size : ℕ
  pub buffer_index : ℕ
  pub buffer : Bytes

-- `Load`, of a file with these bytes.
unfoldable pub load : Bytes → AppendOnlyFile
load file = record {
  file = file;
  mapped = file;
  file_size = length file;
  buffer_index = length file;
  buffer = [];
}

unfoldable pub commit : AppendOnlyFile → Result AppendOnlyFile
unfolding load write_at
commit s =
    if s.file_size == s.buffer_index && length s.buffer == 0
    then ok s
    else if ltb s.file_size s.buffer_index
    then err file_exception
    else ok (load (write_at s.buffer_index s.buffer true s.file))

unfoldable pub rollback : AppendOnlyFile → AppendOnlyFile
rollback s = record s { buffer_index = s.file_size; buffer = [] }

unfoldable pub append : Bytes → AppendOnlyFile → AppendOnlyFile
append bytes s = record s { buffer = s.buffer ++ bytes }

-- The assert asks that nothing was rewound since the last commit or rollback.
unfoldable pub rewind : ℕ → AppendOnlyFile → Result AppendOnlyFile
rewind next_position s =
    if not (s.file_size == s.buffer_index)
    then undefined
    else if ltb (add64 s.buffer_index (length s.buffer)) next_position
    then err file_exception
    else if leb next_position s.buffer_index
    then ok (record s { buffer = []; buffer_index = next_position })
    else ok (record s { buffer = take (next_position - s.buffer_index) s.buffer })

unfoldable pub get_size : AppendOnlyFile → ℕ
get_size s = add64 s.buffer_index (length s.buffer)

unfoldable pub read : ℕ → ℕ → AppendOnlyFile → Result Bytes
read position num_bytes s =
    if ltb (add64 s.buffer_index (length s.buffer)) (add64 position num_bytes)
    then err file_exception
    else if ltb position s.buffer_index
    then slice s.mapped position num_bytes
    else slice s.buffer (position - s.buffer_index) num_bytes
