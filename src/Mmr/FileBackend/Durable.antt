-- ===== src/Mmr/FileBackend/Durable.antt =====
-- `Commit`, `Rollback` and `Open` of a `FileBackend`.
use mathlib.Core.Path.{subst}
use mathlib.Core.List.{flatten}
use libmw_core.Common.{ℕ, ◌≡◌, refl, sym, Option, none, some, List, []}
use libmw_core.Common.{arith, length-flatten-append, Uniform, All-prefix, append-nil, length, All}
use libmw_core.Exceptions.{ok, ◌>>=◌}
use libmw_core.Util.EndianUtil.{Bytes, Platform}
use libmw_core.File.AppendOnlyFile.{AppendOnlyFile}
use libmw_core.File.AppendOnlyFile
use libmw_core.File.AppendOnlyFile.Segments.{Segments, load-Segments, commit-Segments}
use libmw_core.File.AppendOnlyFile.Segments.{rollback-Segments, total-Segments}
use libmw_core.Mmr.VectorBackend.{VectorBackend}
use libmw_core.Mmr.Mountain.Adding.{Extends}
use libmw_core.Mmr.FileBackend.{FileBackend, open_backend, if_open, commit, rollback}
use libmw_core.Mmr.FileBackend.Entries.{entries}
use libmw_core.Mmr.FileBackend.Shown.{Shows, Placed, Fits, vecs, vecs_shown, nodes_shown}
use libmw_core.Mmr.FileBackend.Shown.{entries_shown, Fits-if_open}

-- The program starts again with the bytes that are on the disk.
abbrev pub reopened : FileBackend → FileBackend
reopened s =
    open_backend s.hash_file.file s.data_file.file
      (elim s.position_file [ none ↦ [] | some positions ↦ positions.file ])
      (elim s.position_file [ none ↦ some s.fixed_length | some positions ↦ none ])

abbrev Extends-none : (v : VectorBackend) → Extends v v
Extends-none v = record {
  more_leaves = [];
  leaves = sym (append-nil v.leaves);
  more_nodes = [];
  nodes = sym (append-nil v.nodes);
}

-- What is on the disk is there again when the file is loaded.
load-stored :
    (f : AppendOnlyFile) (old more : List Bytes)
    → Segments f old more
    → Segments (AppendOnlyFile.load f.file) old []
load-stored f old more g =
    let total = total-Segments f old more g in
    rw g.stored (load-Segments old (omega (arith, length-flatten-append old more)))

module _ ⦃p : Platform⦄ (s : FileBackend) (c v : VectorBackend) where
  committed_nodes : Shows s c v → Uniform 32 c.nodes
  committed_nodes w =
      All-prefix (λ x. length x ≡ 32) c.nodes w.extends.more_nodes
        (rw (nodes_shown s c v w) w.hash_sizes)

  committed_leaves : Shows s c v → All (Fits s.position_file s.fixed_length) (vecs c.leaves)
  committed_leaves w =
      All-prefix (Fits s.position_file s.fixed_length) (vecs c.leaves) (vecs w.extends.more_leaves)
        (rw (vecs_shown s c v w) w.data_sizes)

  -- The two files that every backend has.
  commit_files :
      Shows s c v
      → (hashes : AppendOnlyFile) × (datas : AppendOnlyFile) × (AppendOnlyFile.commit s.hash_file
          ≡ ok hashes)
        × (AppendOnlyFile.commit s.data_file ≡ ok datas)
        × Segments hashes v.nodes []
        × Segments datas (vecs v.leaves) []
  commit_files w =
      let e = w.extends in
      let (hashes, run, kept) = commit-Segments s.hash_file c.nodes e.more_nodes w.hashes in
      let (datas, run', kept') =
        commit-Segments s.data_file (vecs c.leaves) (vecs e.more_leaves) w.datas in
      (
        hashes,
        datas,
        run,
        run',
        subst (λ t. Segments hashes t []) (nodes_shown s c v w) kept,
        subst (λ t. Segments datas t []) (vecs_shown s c v w) kept',
      )

module _ ⦃p : Platform⦄ (c v : VectorBackend) where
  commit_by :
      (o : Option AppendOnlyFile) (s : FileBackend)
      → Shows (record s { position_file = o }) c v
      → (s' : FileBackend) × (commit (record s { position_file = o }) ≡ ok s') × Shows s' v v
  unfolding commit
  commit_by none s w =
      let s1 : FileBackend = record s { position_file = none } in
      let (hashes, datas, run, run', kept, kept') = commit_files s1 c v w in
      (
        record s1 { hash_file = hashes; data_file = datas },
        rw (run, run') refl,
        record {
          extends = Extends-none v;
          hashes = kept;
          hash_sizes = w.hash_sizes;
          datas = kept';
          data_sizes = w.data_sizes;
          placed = w.placed;
        },
      )
  commit_by (some f) s w =
      let s1 : FileBackend = record s { position_file = some f } in
      let (hashes, datas, run, run', kept, kept') = commit_files s1 c v w in
      let e = w.extends in
      let (positions, run'', kept'') =
        commit-Segments f (entries 0 (vecs c.leaves))
          (entries (length (flatten (vecs c.leaves))) (vecs e.more_leaves)) w.placed in
      (
        record {
          hash_file = hashes;
          data_file = datas;
          position_file = some positions;
          fixed_length = s.fixed_length;
        },
        rw (run, run', ◌>>=◌, run'') refl,
        record {
          extends = Extends-none v;
          hashes = kept;
          hash_sizes = w.hash_sizes;
          datas = kept';
          data_sizes = w.data_sizes;
          placed = subst (λ t. Segments positions t []) (entries_shown s1 c v w) kept'';
        },
      )

  Placed-rollback :
      (o : Option AppendOnlyFile) (n : ℕ) (old more : List Bytes)
      → Placed o n old more
      → Placed (if_open AppendOnlyFile.rollback o) n old []
  Placed-rollback none n old more w = w
  Placed-rollback (some f) n old more w =
      rollback-Segments f (entries 0 old) (entries (length (flatten old)) more) w

  rollback-Shows : (s : FileBackend) → Shows s c v → Shows (rollback s) c c
  unfolding rollback
  rollback-Shows s w =
      let e = w.extends in
      record {
        extends = Extends-none c;
        hashes = rollback-Segments s.hash_file c.nodes e.more_nodes w.hashes;
        hash_sizes = committed_nodes s c v w;
        datas = rollback-Segments s.data_file (vecs c.leaves) (vecs e.more_leaves) w.datas;
        data_sizes =
            Fits-if_open AppendOnlyFile.rollback s.position_file s.fixed_length (vecs c.leaves)
              (committed_leaves s c v w);
        placed =
            Placed-rollback s.position_file s.fixed_length (vecs c.leaves) (vecs e.more_leaves)
              w.placed;
      }

  reopened_by :
      (o : Option AppendOnlyFile) (s : FileBackend)
      → Shows (record s { position_file = o }) c v
      → Shows (reopened (record s { position_file = o })) c c
  unfolding open_backend
  reopened_by none s w =
      let s1 : FileBackend = record s { position_file = none } in
      let e = w.extends in
      record {
        extends = Extends-none c;
        hashes = load-stored s.hash_file c.nodes e.more_nodes w.hashes;
        hash_sizes = committed_nodes s1 c v w;
        datas = load-stored s.data_file (vecs c.leaves) (vecs e.more_leaves) w.datas;
        data_sizes = committed_leaves s1 c v w;
        placed = w.placed;
      }
  reopened_by (some f) s w =
      let s1 : FileBackend = record s { position_file = some f } in
      let e = w.extends in
      record {
        extends = Extends-none c;
        hashes = load-stored s.hash_file c.nodes e.more_nodes w.hashes;
        hash_sizes = committed_nodes s1 c v w;
        datas = load-stored s.data_file (vecs c.leaves) (vecs e.more_leaves) w.datas;
        data_sizes = committed_leaves s1 c v w;
        placed =
            load-stored f (entries 0 (vecs c.leaves))
              (entries (length (flatten (vecs c.leaves))) (vecs e.more_leaves)) w.placed;
      }

  -- Of files that show a state: `Commit` returns, and then the shown state is the committed one.
  -- `Rollback` shows the committed state again, and so does a backend that is opened on what is on
  -- the disk.
  pub commit-Shows :
      (s : FileBackend)
      → Shows s c v
      → ((s' : FileBackend) × (commit s ≡ ok s') × Shows s' v v)
        × Shows (rollback s) c c
        × Shows (reopened s) c c
  commit-Shows s w =
      (commit_by s.position_file s w, rollback-Shows s w, reopened_by s.position_file s w)
