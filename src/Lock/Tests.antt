-- ===== src/Lock/Tests.antt =====
-- The theorems on the lock at a `BitmapFile`.
use mathlib.Core.Path.{subst}
use mathlib.Core.Option.{some-injective}
use libmw_core.Common.{◌≡◌, refl, true, false, Option, some, List, [], ◌∷◌, ◌++◌}
use libmw_core.Exceptions.{ok}
use libmw_core.File.BitmapFile.{BitmapFile, commit, set, unset}
use libmw_core.File.BitmapFile.Locking.{bitmap_batchable}
use libmw_core.Lock.{Batchable, Locked, create_reader, create_writer, read, write}
use libmw_core.Lock.System.{Handle, reader, writer, System, Step, Steps, Reach, reads, writes, here}
use libmw_core.Lock.System.{later}
use libmw_core.Lock.Exclusion.{IsExclusive, Reach-IsExclusive}
use libmw_core.Lock.Progress.{Reach-can_write}

abbrev bitmap : BitmapFile
bitmap = record { file = 65 ∷ []; modified = []; mapped = 65 ∷ []; dirty = false }

abbrev lockable : Option (Batchable BitmapFile)
lockable = some bitmap_batchable

-- Two readers hold the file.
abbrev two_readers : System BitmapFile
two_readers = record {
  locked = record { object = bitmap; exclusive = false; sharing = 2 };
  handles = reader ∷ reader ∷ [];
  views = 0;
}

two_readers-Reach : Reach lockable bitmap two_readers
unfolding create_reader
two_readers-Reach = later (later here (reads refl)) (reads refl)

-- A writer holds the file.
abbrev one_writer : System BitmapFile
one_writer = record {
  locked = record { object = record bitmap { dirty = true }; exclusive = true; sharing = 0 };
  handles = writer false ∷ [];
  views = 0;
}

one_writer-Reach : Reach lockable bitmap one_writer
unfolding create_writer
one_writer-Reach = later here (writes refl)

Reach-IsExclusive_example :
    IsExclusive two_readers
    × ((s' : System BitmapFile) (before after : List Handle)
        → two_readers.handles ≡ before ++ reader ∷ after
        → Step lockable two_readers s'
        → s'.locked.object ≡ bitmap)
Reach-IsExclusive_example = Reach-IsExclusive lockable bitmap two_readers two_readers-Reach

bitmap_returns :
    (b : Batchable BitmapFile)
    → lockable ≡ some b
    → (t : BitmapFile) → (t' : BitmapFile) × (b.commit t ≡ ok t')
bitmap_returns b e t =
    subst (λ (c : Batchable BitmapFile). (t' : BitmapFile) × (c.commit t ≡ ok t'))
      (some-injective bitmap_batchable b e) (commit t, refl)

Reach-can_write_example :
    (u : System BitmapFile) × Steps lockable one_writer u
    × (u.handles ≡ [])
    × ((l : Locked BitmapFile) × (read lockable u.locked ≡ some l))
    × ((l : Locked BitmapFile) × (write lockable u.locked ≡ some l))
Reach-can_write_example = Reach-can_write lockable bitmap_returns bitmap one_writer one_writer-Reach

abbrev uses : List (BitmapFile → BitmapFile)
uses = set 3 ∷ unset 7 ∷ []
