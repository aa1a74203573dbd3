-- ===== src/Mmr/FileBackend/Adding.antt =====
-- `MMR::Add` over a `FileBackend` does what it does over a `VectorBackend`.
use mathlib.Core.Path.{subst}
use native.Mathlib.Nat.{mul-div_cancel}
use mathlib.Core.List.{flatten}
use libmw_core.Common.{ℕ, ◌+◌, ◌*◌, ◌/◌, ◌^◌, ◌<◌, ◌≡◌, refl, ap, ◌∙◌, arith}
use libmw_core.Common.{Option, none, some, inl, inr, Bool-cases, List, [], ◌∷◌, ◌++◌}
use libmw_core.Common.{length, length-append, u64_mod, mul64, ltb, ltb→lt}
use libmw_core.Common.{
  offset-Uniform, segment-Uniform, length-Uniform, get_or-inside, All, All-append,
}
use libmw_core.Exceptions.{ok, ok_inj}
use libmw_core.Crypto.{Hashing}
use libmw_core.Util.EndianUtil.{Bytes, Platform}
use libmw_core.File.AppendOnlyFile.{AppendOnlyFile, append, get_size}
use libmw_core.File.AppendOnlyFile.Segments.{size-Segments, total-Segments, read-Segments}
use libmw_core.Mmr.Index.{Index, leaf_at, get_next}
use libmw_core.Mmr.Index.Leaves.{leaf_pos-le}
use libmw_core.Mmr.Node.{Hash, zero_hash, create_leaf, create_parent}
use libmw_core.Mmr.Backend.{add_parents, parents_fuel}
use libmw_core.Mmr.Backend.Simulation.{add_parents-Shows}
use libmw_core.Mmr.VectorBackend.{VectorBackend, vector_backend}
use libmw_core.Mmr.VectorBackend
use libmw_core.Mmr.VectorBackend.Valid.{IsValid, hash_at}
use libmw_core.Mmr.Mountain.{add}
use libmw_core.Mmr.Mountain.Adding.{add-IsValid}
use libmw_core.Mmr.FileBackend.Entries.{entries, entries-Uniform, length-entries}
use libmw_core.Mmr.FileBackend.{FileBackend, file_backend, append_data}
use libmw_core.Mmr.FileBackend
use libmw_core.Mmr.FileBackend.Shown.{
  Placed, vecs_shown, num_leaves_shown, Shows, Fits, vecs, nodes_shown, Shows-add_hash,
}
use libmw_core.Mmr.FileBackend.Shown.{Shows-append_data}

module _ ⦃p : Platform⦄ where
  leaves_counted :
      (o : Option AppendOnlyFile) (n : ℕ) (old more : List Bytes) (datas : AppendOnlyFile)
      → Placed o n old more
      → All (Fits o n) (old ++ more)
      → get_size datas ≡ length (flatten (old ++ more))
      → elim o [ some positions ↦ get_size positions / 10 | none ↦ get_size datas / n ]
        ≡ length (old ++ more)
  leaves_counted none n old more datas w h e =
      ap (λ k. k / n) (e ∙ length-Uniform n (old ++ more) h)
      ∙ mul-div_cancel (length (old ++ more)) w
  leaves_counted (some positions) n old more datas w h e =
      let start = length (flatten old) in
      let all = entries 0 old ++ entries start more in
      let size =
        size-Segments positions (entries 0 old) (entries start more) w
        ∙ length-Uniform 10 all (
            All-append (λ x. length x ≡ 10) (entries 0 old) (entries start more)
              (entries-Uniform 0 old) (entries-Uniform start more)) in
      omega (
        arith,
        size,
        length-append (entries 0 old) (entries start more),
        length-entries 0 old,
        length-entries start more,
        length-append old more,
      )

  module _ (s : FileBackend) (c v : VectorBackend) (w : Shows s c v) where
    nodes_total : length v.nodes * 32 < u64_mod
    nodes_total = omega (
      arith,
      total-Segments s.hash_file c.nodes w.extends.more_nodes w.hashes,
      ap (λ t. length (flatten t)) (nodes_shown s c v w),
      length-Uniform 32 v.nodes w.hash_sizes,
    )

    -- The hash of a node is read from its 32 bytes of the file.
    pub get_hash-Shows :
        (idx : Index)
        → idx.position < length v.nodes
        → FileBackend.get_hash idx s ≡ ok (hash_at v.nodes idx.position)
    unfolding FileBackend.get_hash
    get_hash-Shows idx h =
        let i = idx.position in
        let size = segment-Uniform 32 v.nodes i w.hash_sizes h in
        let place = offset-Uniform 32 v.nodes i w.hash_sizes (omega arith) in
        let total = nodes_total in
        let product : mul64 i 32 ≡ i * 32 = omega arith in
        let got =
          rw (nodes_shown s c v w, size, place) at
            (read-Segments s.hash_file c.nodes w.extends.more_nodes w.hashes i
              (rw (nodes_shown s c v w) h)) in
        rw product got ∙ ap ok (get_or-inside v.nodes i [] zero_hash h)

    pub get_hash-same :
        (idx : Index) (h : Hash)
        → VectorBackend.get_hash idx v ≡ ok h
        → FileBackend.get_hash idx s ≡ ok h
    unfolding VectorBackend.get_hash
    get_hash-same idx h e = elim (Bool-cases (ltb idx.position (length v.nodes))) [
      | inl t ↦ get_hash-Shows idx (ltb→lt idx.position (length v.nodes) t) ∙ rw t at e
      | inr f ↦ absurd (let e' = rw f at e in cc)
    ]

    -- `GetNumLeaves` by the size of the position file, or of the data file.
    pub num_leaves-Shows : FileBackend.num_leaves s ≡ length v.leaves
    unfolding FileBackend.num_leaves
    num_leaves-Shows =
        leaves_counted s.position_file s.fixed_length (vecs c.leaves) (vecs w.extends.more_leaves)
          s.data_file w.placed (rw (vecs_shown s c v w) w.data_sizes)
          (size-Segments s.data_file (vecs c.leaves) (vecs w.extends.more_leaves) w.datas)
        ∙ ap length (vecs_shown s c v w)
        ∙ num_leaves_shown s c v w

module _ ⦃p : Platform⦄ ⦃c : Hashing⦄ (hash_size : (bs : Bytes) → length (c.blake2b bs) ≡ 32) where
  -- A shown state with room for `k` more hashes.
  abbrev Roomy : VectorBackend → ℕ → FileBackend → VectorBackend → Type 0
  Roomy b k s v = Shows s b v × ((length v.nodes + k) * 32 + 32 < u64_mod)

  loop-Shows :
      (fuel : ℕ) (idx : Index) (right : Hash) (s : FileBackend) (b v v' : VectorBackend)
      → Roomy b fuel s v
      → add_parents VectorBackend.get_hash VectorBackend.add_hash fuel idx right v ≡ ok v'
      → (k : ℕ) × (s' : FileBackend) × (add_parents FileBackend.get_hash FileBackend.add_hash fuel
            idx right s
          ≡ ok s')
        × Roomy b k s' v'
  unfolding FileBackend.add_hash VectorBackend.add_hash create_parent
  loop-Shows fuel idx right s b v v' w run =
      add_parents-Shows FileBackend.get_hash FileBackend.add_hash VectorBackend.get_hash
        VectorBackend.add_hash (Roomy b) (λ k s v idx h (w, room). get_hash-same s b v w idx h)
        (λ k s v v' idx l r (w, room) e.
          let h = create_parent idx l r in
          let w' = Shows-add_hash s b v h w (hash_size _) (omega arith) in
          let len = length-append v.nodes (h ∷ []) in
          (
            record s { hash_file = append h s.hash_file },
            refl,
            subst (Roomy b k (record s { hash_file = append h s.hash_file })) (ok_inj e)
                (w', omega arith),
          ))
        fuel idx right s v v' w run

  -- `Add` over files that show a valid state, with room in them for the data and the hashes, returns
  -- if the data has the fixed length, or less than 2^16 bytes where the position file is used. The
  -- result shows what `Add` makes of the state over vectors, and nothing is written to the disk.
  pub add-Shows :
      (vec : Bytes) (s : FileBackend) (b v : VectorBackend)
      → Shows s b v
      → IsValid v
      → length v.leaves < 2 ^ 57
      → Fits s.position_file s.fixed_length vec
      → length (flatten (vecs v.leaves)) + length vec < u64_mod
      → (s' : FileBackend) × (v' : VectorBackend) × (add file_backend vec s ≡ ok s')
        × (add vector_backend vec v ≡ ok v')
        × IsValid v'
        × Shows s' b v'
  unfolding create_leaf append_data add FileBackend.add_leaf VectorBackend.add_leaf
      VectorBackend.num_leaves
  add-Shows vec s b v w valid small fit room =
      let (v', run, valid', leaves, more) = add-IsValid vec v (omega arith) valid in
      let n = length v.leaves in
      let leaf = create_leaf (leaf_at n) vec in
      let le = leaf_pos-le n in
      let size = valid.size in
      let v1 : VectorBackend = record v { leaves = v.leaves ++ leaf ∷ [] } in
      let v2 : VectorBackend = record v1 { nodes = v.nodes ++ leaf.hash ∷ [] } in
      let s1 = append_data vec s in
      let s2 : FileBackend = record s1 { hash_file = append leaf.hash s1.hash_file } in
      let w1 : Shows s1 b v1 = Shows-append_data s b v leaf w fit room (omega arith) in
      let w2 : Shows s2 b v2 = Shows-add_hash s1 b v1 leaf.hash w1 (hash_size _) (omega arith) in
      let (k, s', run', (w', room')) =
        loop-Shows parents_fuel (get_next (leaf_at n).node_index) leaf.hash s2 b v2 v'
          (w2, omega (arith, length-append v.nodes (leaf.hash ∷ []))) run in
      (s', v', rw (num_leaves-Shows s b v w) run', run, valid', w')
