-- ===== src/Lock/System.antt =====
-- The readers and writers of one `Locked` object, that come and go in any order.
use libmw_core.Common.{ℕ, suc, ◌≡◌, Bool, true, false, Option, some, List, [], ◌∷◌, ◌++◌}
use libmw_core.Exceptions.{ok}
use libmw_core.Lock.{Batchable, Locked, make_locked, destroy_reader, destroy_writer, read, write}
use libmw_core.Lock.{create_reader, mutex_lock, mutex_lock_shared, read_adopt, write_adopt}
use libmw_core.Lock.{batch_write}

-- A `Reader` or a `Writer` that is held somewhere, the writer with m_batched. A handle is what
-- `Read`, `Write` or `BatchWrite` made, with all its copies: they share it.
pub data Handle : Type 0 where
  reader : Handle
  writer : Bool → Handle

-- The `Reader` that every `Writer` is neither locks nor unlocks. `views` counts the copies of such
-- readers, which may be kept for longer than their writer.
pub record System (T : Type 0) : Type 0 where
  pub locked : Locked T
  pub handles : List Handle
  pub views : ℕ

-- A handle is made where its lock is had, and destroyed at any time. Only the holder of a writer
-- gets at the object to change it. A step stands for the code from one call to the mutex to the
-- next, which nobody else sees. With `std::adopt_lock` the caller has locked the mutex, and hands it
-- over in the same step: until then it can only wait.
pub data Step {T : Type 0} (batchable : Option (Batchable T)) (s : System T)
    : System T → Type 0 where
  reads :
      {l : Locked T}
      → read batchable s.locked ≡ some l
      → Step batchable s (record s { locked = l; handles = reader ∷ s.handles })
  writes :
      {l : Locked T}
      → write batchable s.locked ≡ some l
      → Step batchable s (record s { locked = l; handles = writer false ∷ s.handles })
  batch_writes :
      {l : Locked T}
      → batch_write batchable true s.locked ≡ ok (some l)
      → Step batchable s (record s { locked = l; handles = writer true ∷ s.handles })
  adopts_read :
      {l l' : Locked T}
      → mutex_lock_shared s.locked ≡ some l
      → read_adopt batchable l ≡ some l'
      → Step batchable s (record s { locked = l'; handles = reader ∷ s.handles })
  adopts_write :
      {l l' : Locked T}
      → mutex_lock s.locked ≡ some l
      → write_adopt batchable l ≡ some l'
      → Step batchable s (record s { locked = l'; handles = writer false ∷ s.handles })
  adopts_batch :
      {l l' : Locked T}
      → mutex_lock s.locked ≡ some l
      → batch_write batchable false l ≡ ok (some l')
      → Step batchable s (record s { locked = l'; handles = writer true ∷ s.handles })
  views_writer :
      (before after : List Handle) (batched : Bool) {l : Locked T}
      → s.handles ≡ before ++ writer batched ∷ after
      → create_reader false s.locked ≡ some l
      → Step batchable s (record s { locked = l; views = suc s.views })
  ends_view :
      {n : ℕ}
      → s.views ≡ suc n
      → Step batchable s (record s { locked = destroy_reader false s.locked; views = n })
  changes :
      (before after : List Handle) (batched : Bool) (t : T)
      → s.handles ≡ before ++ writer batched ∷ after
      → Step batchable s (record s { locked = record s.locked { object = t } })
  ends_read :
      (before after : List Handle)
      → s.handles ≡ before ++ reader ∷ after
      → Step batchable s
          (record s { locked = destroy_reader true s.locked; handles = before ++ after })
  ends_write :
      (before after : List Handle) (batched : Bool) {l : Locked T}
      → s.handles ≡ before ++ writer batched ∷ after
      → destroy_writer batchable batched s.locked ≡ ok l
      → Step batchable s (record s { locked = l; handles = before ++ after })

abbrev pub init : {T : Type 0} → T → System T
init object = record { locked = make_locked object; handles = []; views = 0 }

-- From one state to another in any number of steps.
pub data Steps {T : Type 0} (batchable : Option (Batchable T)) (s : System T)
    : System T → Type 0 where
  here : Steps batchable s s
  later : {t u : System T} → Steps batchable s t → Step batchable t u → Steps batchable s u

abbrev pub Reach : {T : Type 0} → Option (Batchable T) → T → System T → Type 0
Reach batchable object s = Steps batchable (init object) s
