-- ===== src/Mmr/FileBackend/Tests.antt =====
-- The theorems on `FileBackend` at files with one leaf, with a position file.
use mathlib.Core.List.{flatten}
use libmw_core.Common.{ℕ, ◌<◌, ◌≡◌, refl, arith, none, [], ◌∷◌, ◌++◌, length, take}
use libmw_core.Common.{replicate, length-take, length-append}
use libmw_core.Exceptions.{ok}
use libmw_core.Crypto.{Hashing}
use libmw_core.Util.EndianUtil.{Bytes}
use libmw_core.Samples.{little_endian}
use libmw_core.File.AppendOnlyFile.Segments.{load-Segments}
use libmw_core.Mmr.Index.{at, leaf_at}
use libmw_core.Mmr.Node.{Hash}
use libmw_core.Mmr.VectorBackend.{VectorBackend, empty_backend, vector_backend}
use libmw_core.Mmr.VectorBackend.Valid.{IsValid, empty_backend-IsValid, hash_at, leaf_at_index}
use libmw_core.Mmr.Mountain.{add, num_nodes, root}
use libmw_core.Mmr.FileBackend.{FileBackend, file_backend, open_backend, commit, rollback}
use libmw_core.Mmr.FileBackend.{get_leaf, get_hash, num_leaves}
use libmw_core.Mmr.FileBackend.Shown.{Shows}
use libmw_core.Mmr.FileBackend.Adding.{add-Shows}
use libmw_core.Mmr.FileBackend.Reading.{reads-Shows}
use libmw_core.Mmr.FileBackend.Durable.{reopened, commit-Shows}

-- A function in the place of the hash, with results of 32 bytes.
instance abbrev padded_hashing : Hashing
padded_hashing = record { blake2b = λ bs. take 32 (bs ++ replicate 32 0) }

padded_size : (bs : Bytes) → length (padded_hashing.blake2b bs) ≡ 32
padded_size bs =
    omega (arith, length-take 32 (bs ++ replicate 32 0), length-append bs (replicate 32 0))

abbrev fresh_files : FileBackend
unfolding open_backend
fresh_files = open_backend [] [] [] none

fresh_files-Shows : Shows fresh_files empty_backend empty_backend
unfolding open_backend flatten
fresh_files-Shows = record {
  extends = record { more_leaves = []; leaves = refl; more_nodes = []; nodes = refl };
  hashes = load-Segments [] (omega arith);
  hash_sizes = tt;
  datas = load-Segments [] (omega arith);
  data_sizes = tt;
  placed = load-Segments [] (omega arith);
}

-- Files with one leaf that is not committed yet.
one_leaf :
    (s' : FileBackend) × (v' : VectorBackend) × (add file_backend (7 ∷ 8 ∷ []) fresh_files ≡ ok s')
    × (add vector_backend (7 ∷ 8 ∷ []) empty_backend ≡ ok v')
    × IsValid v'
    × Shows s' empty_backend v'
unfolding flatten fresh_files
one_leaf =
    add-Shows padded_size (7 ∷ 8 ∷ []) fresh_files empty_backend empty_backend fresh_files-Shows
      empty_backend-IsValid (omega arith) (omega arith) (omega arith)

add-Shows_example :
    (s' : FileBackend) × (v' : VectorBackend) × (add file_backend (7 ∷ 8 ∷ []) fresh_files ≡ ok s')
    × (add vector_backend (7 ∷ 8 ∷ []) empty_backend ≡ ok v')
    × IsValid v'
    × Shows s' empty_backend v'
unfolding flatten fresh_files
add-Shows_example =
    add-Shows padded_size (7 ∷ 8 ∷ []) fresh_files empty_backend empty_backend fresh_files-Shows
      empty_backend-IsValid (omega arith) (omega arith) (omega arith)

reads-Shows_example :
    let s = one_leaf.0 in
    let v = one_leaf.1 in
    ((i : ℕ) → i < length v.leaves → get_leaf (leaf_at i) s ≡ ok (leaf_at_index v.leaves i))
    × ((i : ℕ) → i < length v.nodes → get_hash (at i) s ≡ ok (hash_at v.nodes i))
    × (num_leaves s ≡ length v.leaves)
    × (num_nodes file_backend s ≡ num_nodes vector_backend v)
    × ((result : Hash) → root vector_backend v ≡ ok result → root file_backend s ≡ ok result)
reads-Shows_example = reads-Shows one_leaf.0 empty_backend one_leaf.1 one_leaf.5 one_leaf.4

commit-Shows_example :
    let s = one_leaf.0 in
    let v = one_leaf.1 in
    ((s' : FileBackend) × (commit s ≡ ok s') × Shows s' v v)
    × Shows (rollback s) empty_backend empty_backend
    × Shows (reopened s) empty_backend empty_backend
commit-Shows_example = commit-Shows empty_backend one_leaf.1 one_leaf.0 one_leaf.5
