-- ===== src/Mmr/FileBackend/Shown.antt =====
-- A `FileBackend` that shows a `VectorBackend`, and what its disk shows: the state of the last
-- commit.
use mathlib.Core.List.{flatten, map-append}
use mathlib.Core.Path.{subst}
use libmw_core.Common.{
  ℕ, zero, suc, segment, ◌+◌, ◌*◌, ◌<◌, ◌≡◌, refl, sym, ap, ◌∙◌, arith, Option, none, some,
}
use libmw_core.Common.{List, [], ◌∷◌, ◌++◌, map, append_assoc, length, length-append}
use libmw_core.Common.{All, All-append, Uniform, length-flatten-append, length-Uniform, u64_mod}
use libmw_core.Util.EndianUtil.{Bytes, Platform}
use libmw_core.File.AppendOnlyFile.{AppendOnlyFile, append, get_size}
use libmw_core.File.AppendOnlyFile.Segments.{Segments, append-Segments, size-Segments}
use libmw_core.Mmr.Node.{Hash, Leaf}
use libmw_core.Mmr.VectorBackend.{VectorBackend}
use libmw_core.Mmr.VectorBackend.Valid.{leaf_at_index}
use libmw_core.Mmr.Mountain.Adding.{Extends}
use libmw_core.Mmr.FileBackend.{FileBackend, if_open, append_data, entry_bytes}
use libmw_core.Mmr.FileBackend.Entries.{entries, entries-append, length-entries, entries-Uniform}
use libmw_core.Mmr.FileBackend.Entries.{length-entry_bytes}

abbrev pub vecs : List Leaf → List Bytes
vecs leaves = map (λ l. l.vec) leaves

-- What the size of one leaf's data must be: the fixed length, or a number of 16 bits.
abbrev pub Fits : Option AppendOnlyFile → ℕ → Bytes → Type 0
Fits none fixed_length vec = length vec ≡ fixed_length
Fits (some positions) fixed_length vec = length vec < 65536

module _ ⦃p : Platform⦄ where
  -- How the places of the data are known: by the fixed length, or by the entries of the position
  -- file.
  abbrev pub Placed : Option AppendOnlyFile → ℕ → List Bytes → List Bytes → Type 0
  Placed none fixed_length old more = 0 < fixed_length
  Placed (some positions) fixed_length old more =
      Segments positions (entries 0 old) (entries (length (flatten old)) more)

  -- `s` shows `v`, and `c` is what was shown at the last commit.
  pub record Shows (s : FileBackend) (c v : VectorBackend) : Type 0 where
    pub extends : Extends c v
    pub hashes : Segments s.hash_file c.nodes extends.more_nodes
    pub hash_sizes : Uniform 32 v.nodes
    pub datas : Segments s.data_file (vecs c.leaves) (vecs extends.more_leaves)
    pub data_sizes : All (Fits s.position_file s.fixed_length) (vecs v.leaves)
    pub placed : Placed s.position_file s.fixed_length (vecs c.leaves) (vecs extends.more_leaves)

  length-map : (xs : List Leaf) → length (vecs xs) ≡ length xs
  length-map [] = refl
  length-map (x ∷ xs) = ap suc (length-map xs)

  pub segment-vecs :
      (xs : List Leaf) (i : ℕ) → i < length xs → segment (vecs xs) i ≡ (leaf_at_index xs i).vec
  segment-vecs [] i h = elim h [ ]
  segment-vecs (x ∷ xs) zero h = refl
  segment-vecs (x ∷ xs) (suc i) h = segment-vecs xs i (omega arith)

  vecs-append : (xs ys : List Leaf) → vecs (xs ++ ys) ≡ vecs xs ++ vecs ys
  vecs-append xs ys = map-append (λ l. l.vec) xs ys

  module _ (s : FileBackend) (c v : VectorBackend) (w : Shows s c v) where
    pub nodes_shown : c.nodes ++ w.extends.more_nodes ≡ v.nodes
    nodes_shown = sym w.extends.nodes

    pub vecs_shown : vecs c.leaves ++ vecs w.extends.more_leaves ≡ vecs v.leaves
    vecs_shown = sym (ap vecs w.extends.leaves ∙ vecs-append c.leaves w.extends.more_leaves)

    pub entries_shown :
        entries 0 (vecs c.leaves)
          ++ entries (length (flatten (vecs c.leaves))) (vecs w.extends.more_leaves)
        ≡ entries 0 (vecs v.leaves)
    entries_shown =
        ap (λ n. entries 0 (vecs c.leaves) ++ entries n (vecs w.extends.more_leaves)) (omega arith)
        ∙ sym (entries-append 0 (vecs c.leaves) (vecs w.extends.more_leaves))
        ∙ ap (entries 0) vecs_shown

    pub num_leaves_shown : length (vecs v.leaves) ≡ length v.leaves
    num_leaves_shown = length-map v.leaves

    -- The sizes of the files.
    pub hashes_size : get_size s.hash_file ≡ length v.nodes * 32
    hashes_size =
        size-Segments s.hash_file c.nodes w.extends.more_nodes w.hashes
        ∙ ap (λ t. length (flatten t)) nodes_shown
        ∙ length-Uniform 32 v.nodes w.hash_sizes

    pub datas_size : get_size s.data_file ≡ length (flatten (vecs v.leaves))
    datas_size =
        size-Segments s.data_file (vecs c.leaves) (vecs w.extends.more_leaves) w.datas
        ∙ ap (λ t. length (flatten t)) vecs_shown

  abbrev Extends-push :
      (c v : VectorBackend) (h : Hash)
      → Extends c v
      → Extends c (record v { nodes = v.nodes ++ h ∷ [] })
  Extends-push c v h e = record {
    more_leaves = e.more_leaves;
    leaves = e.leaves;
    more_nodes = e.more_nodes ++ h ∷ [];
    nodes = ap (λ t. t ++ h ∷ []) e.nodes ∙ append_assoc c.nodes e.more_nodes (h ∷ []);
  }

  -- One more hash.
  pub Shows-add_hash :
      (s : FileBackend) (c v : VectorBackend) (h : Hash)
      → Shows s c v
      → length h ≡ 32
      → length v.nodes * 32 + 32 < u64_mod
      → Shows
          (record s { hash_file = append h s.hash_file })
          c
          (record v { nodes = v.nodes ++ h ∷ [] })
  Shows-add_hash s c v h w size room = record {
    extends = Extends-push c v h w.extends;
    hashes = append-Segments s.hash_file c.nodes w.extends.more_nodes w.hashes h (
        omega (
          arith,
          ap (λ t. length (flatten t)) (nodes_shown s c v w),
          length-Uniform 32 v.nodes w.hash_sizes,
        ));
    hash_sizes = All-append (λ x. length x ≡ 32) v.nodes (h ∷ []) w.hash_sizes (size, tt);
    datas = w.datas;
    data_sizes = w.data_sizes;
    placed = w.placed;
  }

  pub Fits-if_open :
      (f : AppendOnlyFile → AppendOnlyFile) (o : Option AppendOnlyFile) (n : ℕ) (xs : List Bytes)
      → All (Fits o n) xs
      → All (Fits (if_open f o) n) xs
  Fits-if_open f none n xs h = h
  Fits-if_open f (some positions) n xs h = h

  -- The entry of one more leaf.
  Placed-append :
      (o : Option AppendOnlyFile) (n : ℕ) (old more : List Bytes) (x : Bytes) (size : ℕ)
      → Placed o n old more
      → size ≡ length (flatten (old ++ more))
      → (length (old ++ more) + 1) * 10 < u64_mod
      → Placed (if_open (append (entry_bytes size (length x))) o) n old (more ++ x ∷ [])
  Placed-append none n old more x size w e room = w
  Placed-append (some positions) n old more x size w e room =
      let start = length (flatten old) in
      let entry = entry_bytes size (length x) in
      let all = entries 0 old ++ entries start more in
      let counts : length all ≡ length (old ++ more) = omega (
        arith,
        length-append (entries 0 old) (entries start more),
        length-entries 0 old,
        length-entries start more,
        length-append old more,
      ) in
      let sizes = length-Uniform 10 all (
        All-append (λ x. length x ≡ 10) (entries 0 old) (entries start more) (entries-Uniform 0 old)
          (entries-Uniform start more)) in
      let appended =
        append-Segments positions (entries 0 old) (entries start more) w entry
          (omega (arith, length-entry_bytes size (length x))) in
      let place : entry ∷ [] ≡ entries (start + length (flatten more)) (x ∷ []) =
        ap (λ n. entry_bytes n (length x) ∷ []) (e ∙ length-flatten-append old more) in
      subst (Segments (append entry positions) (entries 0 old))
        (ap (λ t. entries start more ++ t) place ∙ sym (entries-append start more (x ∷ [])))
        appended

  -- One more leaf's data.
  pub Shows-append_data :
      (s : FileBackend) (c v : VectorBackend) (leaf : Leaf)
      → Shows s c v
      → Fits s.position_file s.fixed_length leaf.vec
      → length (flatten (vecs v.leaves)) + length leaf.vec < u64_mod
      → (length v.leaves + 1) * 10 < u64_mod
      → Shows (append_data leaf.vec s) c (record v { leaves = v.leaves ++ leaf ∷ [] })
  unfolding append_data
  Shows-append_data s c v leaf w fit room room' =
      let old = vecs c.leaves in
      let e = w.extends in
      let more = vecs e.more_leaves in
      let grown : vecs (e.more_leaves ++ leaf ∷ []) ≡ more ++ leaf.vec ∷ [] =
        vecs-append e.more_leaves (leaf ∷ []) in
      let shown = vecs_shown s c v w in
      let positions : Option AppendOnlyFile =
        if_open (append (entry_bytes (get_size s.data_file) (length leaf.vec))) s.position_file in
      record {
        extends = record {
          more_leaves = e.more_leaves ++ leaf ∷ [];
          leaves =
              ap (λ t. t ++ leaf ∷ []) e.leaves ∙ append_assoc c.leaves e.more_leaves (leaf ∷ []);
          more_nodes = e.more_nodes;
          nodes = e.nodes;
        };
        hashes = w.hashes;
        hash_sizes = w.hash_sizes;
        datas = subst (Segments (append leaf.vec s.data_file) old) (sym grown) (
            append-Segments s.data_file old more w.datas leaf.vec
              (omega (arith, ap (λ t. length (flatten t)) shown)));
        data_sizes =
            subst (All (Fits positions s.fixed_length)) (sym (vecs-append v.leaves (leaf ∷ []))) (
              Fits-if_open _ s.position_file s.fixed_length (vecs v.leaves ++ leaf.vec ∷ []) (
                All-append (Fits s.position_file s.fixed_length) (vecs v.leaves) (leaf.vec ∷ [])
                  w.data_sizes (fit, tt)));
        placed = subst (Placed positions s.fixed_length old) (sym grown) (
            Placed-append s.position_file s.fixed_length old more leaf.vec (get_size s.data_file)
              w.placed (datas_size s c v w ∙ ap (λ t. length (flatten t)) (sym shown))
              (omega (arith, ap length shown, num_leaves_shown s c v w)));
      }
