-- ===== src/Mmr/FileBackend.antt =====
-- include/mw/core/mmr/backends/FileBackend.h: a backend over append-only files.
pub mod Entries
pub mod Shown
pub mod Adding
pub mod Reading
pub mod Durable
pub mod Tests
use libmw_core.Common.{
  ℕ, zero, ◌+◌, ◌/◌, ◌%◌, ◌^◌, Option, none, some, [], length, mul64, add64, sub64,
}
use libmw_core.Exceptions.{Result, ok, err, undefined, ◌>>=◌}
use libmw_core.Crypto.{Hashing}
use libmw_core.Util.EndianUtil.{Bytes, Platform}
use libmw_core.Serialization.{Deserializer, Read, append_int, read_int, pure}
use libmw_core.Serialization
use libmw_core.File.AppendOnlyFile.{AppendOnlyFile, append, get_size, read}
use libmw_core.File.AppendOnlyFile as File
use libmw_core.Mmr.Index.{Index, LeafIndex, get_next}
use libmw_core.Mmr.Node.{Hash, Leaf, create_leaf}
use libmw_core.Mmr.Backend.{Backend, add_parents, parents_fuel}

-- `struct PosEntry`
pub record PosEntry : Type 0 where
  pub position : ℕ
  pub size : ℕ

-- `PosEntry::LENGTH` and `HASH::LENGTH`
abbrev pub entry_length : ℕ
entry_length = 10

abbrev pub hash_length : ℕ
hash_length = 32

-- `class FileBackend`. m_pPositionFile may be a null pointer. A fixed length of 0 without a
-- position file, by which `GetNumLeaves` divides, is left out.
pub record FileBackend : Type 0 where
  pub hash_file : AppendOnlyFile
  pub data_file : AppendOnlyFile
  pub position_file : Option AppendOnlyFile
  pub fixed_length : ℕ

-- `Open`, of the bytes of the three files: the position file is opened if there is no fixed length.
unfoldable pub open_backend : Bytes → Bytes → Bytes → Option ℕ → FileBackend
unfolding File.load
open_backend hashes datas positions fixed_length = record {
  hash_file = File.load hashes;
  data_file = File.load datas;
  position_file = elim fixed_length [ none ↦ some (File.load positions) | some n ↦ none ];
  fixed_length = elim fixed_length [ none ↦ 0 | some n ↦ n ];
}

-- An operation on the position file, `if (m_pPositionFile != nullptr)`.
abbrev pub if_open :
    (AppendOnlyFile → AppendOnlyFile) → Option AppendOnlyFile → Option AppendOnlyFile
if_open f none = none
if_open f (some positions) = some (f positions)

module _ ⦃p : Platform⦄ where
  -- The fields of an entry, read one after the other.
  pub read_entry : Read PosEntry
  read_entry = Serialization.◌>>=◌ (read_int 8) λ position.
      Serialization.◌>>=◌ (read_int 2) λ size. pure (record { position = position; size = size })

  -- `GetPosEntry`: without a position file it goes through the null pointer.
  unfoldable pub get_pos_entry : ℕ → FileBackend → Result PosEntry
  unfolding read_entry
  get_pos_entry leaf_index s = elim s.position_file [
    | none ↦ undefined
    | some positions ↦ do
      bs ← read (mul64 leaf_index entry_length) entry_length positions
      elim (read_entry (record { index = 0; bytes = bs })) [
        | ok (entry, d) ↦ ok entry
        | err e ↦ err e
        | undefined ↦ undefined
      ]
  ]

  -- What `AppendData` writes to the position file.
  unfoldable pub entry_bytes : ℕ → ℕ → Bytes
  entry_bytes position size = append_int 2 (size % 2 ^ 16) (append_int 8 position [])

  unfoldable pub append_data : Bytes → FileBackend → FileBackend
  unfolding append get_size entry_bytes
  append_data vec s = record s {
    data_file = append vec s.data_file;
    position_file =
        if_open (append (entry_bytes (get_size s.data_file) (length vec))) s.position_file;
  }

unfoldable pub add_hash : Hash → FileBackend → Result FileBackend
unfolding append
add_hash hash s = ok (record s { hash_file = append hash s.hash_file })

unfoldable pub get_hash : Index → FileBackend → Result Hash
unfolding read
get_hash idx s = read (mul64 idx.position hash_length) hash_length s.hash_file

module _ ⦃p : Platform⦄ ⦃c : Hashing⦄ where
  unfoldable pub add_leaf : Leaf → FileBackend → Result FileBackend
  unfolding append_data add_hash get_hash
  add_leaf leaf s = do
    s' ← add_hash leaf.hash (append_data leaf.vec s)
    add_parents get_hash add_hash parents_fuel (get_next leaf.index.node_index) leaf.hash s'

  -- `GetLeaf`
  unfoldable pub get_leaf : LeafIndex → FileBackend → Result Leaf
  unfolding get_pos_entry read create_leaf
  get_leaf idx s = elim s.position_file [
    | some positions ↦ do
      entry ← get_pos_entry idx.leaf_index s
      vec ← read entry.position entry.size s.data_file
      ok (create_leaf idx vec)
    | none ↦ do
      vec ← read (mul64 idx.leaf_index s.fixed_length) s.fixed_length s.data_file
      ok (create_leaf idx vec)
  ]

-- `GetNumLeaves`
unfoldable pub num_leaves : FileBackend → ℕ
unfolding get_size
num_leaves s = elim s.position_file [
  | some positions ↦ get_size positions / entry_length
  | none ↦ get_size s.data_file / s.fixed_length
]

module _ ⦃p : Platform⦄ where
  -- `Rewind` of the three files, in the order of the code.
  unfoldable pub rewind : LeafIndex → FileBackend → Result FileBackend
  unfolding get_pos_entry File.rewind
  rewind next s = do
    entry ← get_pos_entry (sub64 next.leaf_index 1) s
    elim s.position_file [
      | none ↦ undefined
      | some positions ↦ do
        positions' ← File.rewind next.leaf_index positions
        datas' ← File.rewind (add64 entry.position entry.size) s.data_file
        hashes' ← File.rewind next.node_index.position s.hash_file
        ok (record s { hash_file = hashes'; data_file = datas'; position_file = some positions' })
    ]

unfoldable pub commit : FileBackend → Result FileBackend
commit s = do
  hashes' ← File.commit s.hash_file
  datas' ← File.commit s.data_file
  elim s.position_file [
    | none ↦ ok (record s { hash_file = hashes'; data_file = datas' })
    | some positions ↦ do
      positions' ← File.commit positions
      ok (record s { hash_file = hashes'; data_file = datas'; position_file = some positions' })
  ]

unfoldable pub rollback : FileBackend → FileBackend
rollback s = record s {
  hash_file = File.rollback s.hash_file;
  data_file = File.rollback s.data_file;
  position_file = if_open File.rollback s.position_file;
}

module _ ⦃p : Platform⦄ ⦃c : Hashing⦄ where
  abbrev pub file_backend : Backend FileBackend
  file_backend = record {
    add_leaf = add_leaf;
    add_hash = add_hash;
    rewind = rewind;
    num_leaves = num_leaves;
    get_hash = get_hash;
    get_leaf = get_leaf;
    commit = commit;
    rollback = rollback;
  }
