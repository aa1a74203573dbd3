-- ===== src/Mmr/FileBackend/Reading.antt =====
-- What a `FileBackend` reads back: the leaves, the hashes and the root that its files show.
use mathlib.Core.List.{flatten, reverse}
use libmw_core.Common.{ℕ, ◌*◌, ◌^◌, ◌<◌, ◌≡◌, refl, sym, ap, ◌∙◌, arith, Option, none, some}
use libmw_core.Common.{List, [], ◌∷◌, ◌++◌, length, mul64, offset, segment}
use libmw_core.Common.{offset-Uniform, segment-Uniform, offset-within, All-get_or, ◌==◌}
use libmw_core.Common.{Bool-cases, inl, inr, bytes_eq, if◌then◌else◌}
use libmw_core.Exceptions.{ok, ◌>>=◌}
use libmw_core.Crypto.{Hashing}
use libmw_core.Util.EndianUtil.{Platform}
use libmw_core.File.AppendOnlyFile.{AppendOnlyFile, read}
use libmw_core.File.AppendOnlyFile.Segments.{total-Segments, read-Segments}
use libmw_core.Mmr.Index.{at, leaf_at}
use libmw_core.Mmr.Node.{Hash, zero_hash, create_leaf, create_parent}
use libmw_core.Exceptions.{ok_bind}
use libmw_core.Mmr.VectorBackend.{VectorBackend, vector_backend}
use libmw_core.Mmr.VectorBackend
use libmw_core.Mmr.VectorBackend.Valid.{IsValid, hash_at, leaf_at_index}
use libmw_core.Mmr.Index.Relatives.{position-at}
use libmw_core.Mmr.Mountain.{num_nodes, peak_indices, bag, root}
use libmw_core.Mmr.FileBackend.{FileBackend, file_backend, get_pos_entry, entry_bytes}
use libmw_core.Mmr.FileBackend
use libmw_core.Mmr.FileBackend.Entries.{entry, entries, entries-Uniform, length-entries}
use libmw_core.Mmr.FileBackend.Entries.{segment-entries, read_entry-entry_bytes}
use libmw_core.Mmr.FileBackend.Shown.{Shows, vecs, vecs_shown, entries_shown}
use libmw_core.Mmr.FileBackend.Shown.{num_leaves_shown, segment-vecs}
use libmw_core.Mmr.FileBackend.Adding.{get_hash-Shows, get_hash-same, num_leaves-Shows}

module _ ⦃p : Platform⦄ (c v : VectorBackend) (i : ℕ) (small : i < length v.leaves) where
  module _ (s : FileBackend) (w : Shows s c v) where
    inside : i < length (vecs c.leaves ++ vecs w.extends.more_leaves)
    inside = rw (vecs_shown s c v w, num_leaves_shown s c v w) small

    -- The data of a leaf, from where it stands.
    read_data :
        read (offset (vecs v.leaves) i) (length (segment (vecs v.leaves) i)) s.data_file
        ≡ ok (segment (vecs v.leaves) i)
    read_data =
        rw (vecs_shown s c v w) at
          (read-Segments s.data_file (vecs c.leaves) (vecs w.extends.more_leaves) w.datas i inside)

    data_place : offset (vecs v.leaves) i < 2 ^ 64
    data_place = omega (
      arith,
      offset-within (vecs v.leaves) i (rw (num_leaves_shown s c v w) small),
      total-Segments s.data_file (vecs c.leaves) (vecs w.extends.more_leaves) w.datas,
      ap (λ t. length (flatten t)) (vecs_shown s c v w),
    )

  -- The entry of a leaf.
  get_pos_entry-Shows :
      (s : FileBackend) (f : AppendOnlyFile)
      → Shows (record s { position_file = some f }) c v
      → get_pos_entry i (record s { position_file = some f })
        ≡ ok (entry (offset (vecs v.leaves) i) (length (segment (vecs v.leaves) i)))
  unfolding get_pos_entry
  get_pos_entry-Shows s f w =
      let s' : FileBackend = record s { position_file = some f } in
      let all = entries 0 (vecs v.leaves) in
      let leaves = num_leaves_shown s' c v w in
      let count = length-entries 0 (vecs v.leaves) in
      let here : i < length all = omega arith in
      let start = length (flatten (vecs c.leaves)) in
      let got = rw (entries_shown s' c v w) at (
        read-Segments f (entries 0 (vecs c.leaves)) (entries start (vecs w.extends.more_leaves))
          w.placed i) in
      let total = rw (entries_shown s' c v w) at (
        total-Segments f (entries 0 (vecs c.leaves)) (entries start (vecs w.extends.more_leaves))
          w.placed) in
      let uniform = entries-Uniform 0 (vecs v.leaves) in
      let size = segment-Uniform 10 all i uniform here in
      let place = offset-Uniform 10 all i uniform (omega arith) in
      let within = offset-within all i here in
      let product : mul64 i 10 ≡ i * 10 = omega arith in
      let bytes : segment all i
          ≡ entry_bytes (offset (vecs v.leaves) i) (length (segment (vecs v.leaves) i)) =
        segment-entries 0 (vecs v.leaves) i (omega arith)
        ∙ ap (λ n. entry_bytes n (length (segment (vecs v.leaves) i))) (omega arith) in
      let short : length (segment (vecs v.leaves) i) < 65536 =
        All-get_or (λ x. length x < 65536) (vecs v.leaves) i [] w.data_sizes (omega arith) in
      let (d, decoded) =
        read_entry-entry_bytes (offset (vecs v.leaves) i) (length (segment (vecs v.leaves) i))
          (data_place s' w) short in
      rw (product, rw (size, place, bytes) at (got here), ◌>>=◌, decoded) refl

  module _ ⦃h : Hashing⦄ (valid : IsValid v) where
    made : create_leaf (leaf_at i) (segment (vecs v.leaves) i) ≡ leaf_at_index v.leaves i
    made =
        ap (create_leaf (leaf_at i)) (segment-vecs v.leaves i small)
        ∙ sym (valid.leaves_hashed i small).0

    get_leaf_by :
        (o : Option AppendOnlyFile) (s : FileBackend)
        → Shows (record s { position_file = o }) c v
        → FileBackend.get_leaf (leaf_at i) (record s { position_file = o })
          ≡ ok (leaf_at_index v.leaves i)
    unfolding FileBackend.get_leaf leaf_at
    get_leaf_by none s w =
        let s' : FileBackend = record s { position_file = none } in
        let leaves = num_leaves_shown s' c v w in
        let here : i < length (vecs v.leaves) = omega arith in
        let size = segment-Uniform s.fixed_length (vecs v.leaves) i w.data_sizes here in
        let place = offset-Uniform s.fixed_length (vecs v.leaves) i w.data_sizes (omega arith) in
        let bound = data_place s' w in
        let product : mul64 i s.fixed_length ≡ i * s.fixed_length = omega arith in
        rw (product, rw (size, place) at (read_data s' w)) (ap ok made)
    get_leaf_by (some f) s w =
        let s' : FileBackend = record s { position_file = some f } in
        rw (get_pos_entry-Shows s f w, read_data s' w) (ap ok made)

    pub get_leaf-Shows :
        (s : FileBackend)
        → Shows s c v
        → FileBackend.get_leaf (leaf_at i) s ≡ ok (leaf_at_index v.leaves i)
    get_leaf-Shows s w = get_leaf_by s.position_file s w

module _ ⦃p : Platform⦄ ⦃h : Hashing⦄ (s : FileBackend) (c v : VectorBackend)
    (w : Shows s c v) where
  num_nodes-Shows : num_nodes file_backend s ≡ num_nodes vector_backend v
  unfolding num_nodes VectorBackend.num_leaves
  num_nodes-Shows = rw (num_leaves-Shows s c v w) refl

  bag-Shows :
      (size : ℕ) (peaks : List ℕ) (hash result : Hash)
      → bag vector_backend size peaks hash v ≡ ok result
      → bag file_backend size peaks hash s ≡ ok result
  unfolding bag
  bag-Shows size [] hash result run = run
  bag-Shows size (peak ∷ peaks) hash result run =
      let (got, e, run') = ok_bind (VectorBackend.get_hash (at peak) v) _ result run in
      rw (get_hash-same s c v w (at peak) got e, ◌>>=◌)
        (bag-Shows size peaks
          (if bytes_eq hash zero_hash then got else create_parent (at size) got hash) result run')

  root-Shows : (result : Hash) → root vector_backend v ≡ ok result → root file_backend s ≡ ok result
  unfolding root
  root-Shows result run =
      let size = num_nodes vector_backend v in
      elim (Bool-cases (size == 0)) [
        | inl e ↦ rw (num_nodes-Shows, e) (rw e at run)
        | inr e ↦
            rw (num_nodes-Shows, e)
              (bag-Shows size (reverse (peak_indices size).0) zero_hash result (rw e at run))
      ]

  -- Whatever is committed and whatever is pending, files that show a valid state read back each of
  -- its leaves and nodes, count its leaves and nodes, and have its root.
  pub reads-Shows :
      IsValid v
      → ((i : ℕ)
          → i < length v.leaves
          → FileBackend.get_leaf (leaf_at i) s ≡ ok (leaf_at_index v.leaves i))
        × ((i : ℕ) → i < length v.nodes → FileBackend.get_hash (at i) s ≡ ok (hash_at v.nodes i))
        × (FileBackend.num_leaves s ≡ length v.leaves)
        × (num_nodes file_backend s ≡ num_nodes vector_backend v)
        × ((result : Hash) → root vector_backend v ≡ ok result → root file_backend s ≡ ok result)
  reads-Shows valid = (
    (λ i small. get_leaf-Shows c v i small valid s w),
    (λ i small.
        get_hash-Shows s c v w (at i) (rw (position-at i) small)
        ∙ ap (λ k. ok (hash_at v.nodes k)) (position-at i)),
    num_leaves-Shows s c v w,
    num_nodes-Shows,
    root-Shows,
  )
