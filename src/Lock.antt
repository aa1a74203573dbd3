-- ===== src/Lock.antt =====
-- include/mw/core/common/Lock.h and include/mw/core/traits/Batchable.h: an object behind a shared
-- mutex, and the readers and writers that hold it.
pub mod System
pub mod Exclusion
pub mod Progress
pub mod Sessions
pub mod Tests
use libmw_core.Common.{ℕ, ◌+◌, ◌-◌, ◌≡◌, Bool, true, false, not, ◌||◌, Option, none, some}
use libmw_core.Common.{List, [], ◌∷◌, ◌++◌, ◌==◌, if◌then◌else◌}
use libmw_core.Exceptions.{Result, ok, err, undefined, unimplemented_exception, ◌>>=◌}

-- `class IBatchable`, over the state of the class that implements it: m_dirty is part of it.
pub record Batchable (T : Type 0) : Type 0 where
  pub commit : T → Result T
  pub rollback : T → T
  pub on_init_write : T → T
  pub on_end_write : T → T
  pub is_dirty : T → Bool
  pub set_dirty : Bool → T → T

-- `class Locked`: m_pObject, and m_pMutex as who owns it.
pub record Locked (T : Type 0) : Type 0 where
  pub object : T
  pub exclusive : Bool
  pub sharing : ℕ

module _ {T : Type 0} where
  -- The constructor.
  abbrev pub make_locked : T → Locked T
  make_locked object = record { object = object; exclusive = false; sharing = 0 }

  -- The calls of `std::shared_mutex`: `none` where the call waits.
  abbrev pub mutex_lock_shared : Locked T → Option (Locked T)
  mutex_lock_shared l = if l.exclusive then none else some (record l { sharing = l.sharing + 1 })

  abbrev pub mutex_unlock_shared : Locked T → Locked T
  mutex_unlock_shared l = record l { sharing = l.sharing - 1 }

  abbrev pub mutex_lock : Locked T → Option (Locked T)
  mutex_lock l =
      if l.exclusive || not (l.sharing == 0) then none else some (record l { exclusive = true })

  abbrev pub mutex_unlock : Locked T → Locked T
  mutex_unlock l = record l { exclusive = false }

  -- `InnerReader` and its destructor.
  unfoldable pub create_reader : Bool → Locked T → Option (Locked T)
  create_reader lock l = if lock then mutex_lock_shared l else some l

  unfoldable pub destroy_reader : Bool → Locked T → Locked T
  destroy_reader unlock l = if unlock then mutex_unlock_shared l else l

-- Whether the object is an `IBatchable`: what `GetBatchable` returns.
module _ {T : Type 0} (batchable : Option (Batchable T)) where
  -- `InnerWriter::OnInitWrite` and `InnerWriter::OnEndWrite`
  unfoldable pub writer_on_init : T → T
  writer_on_init t = elim batchable [ none ↦ t | some b ↦ b.on_init_write (b.set_dirty true t) ]

  unfoldable pub writer_on_end : T → T
  writer_on_end t = elim batchable [ none ↦ t | some b ↦ b.on_end_write t ]

  -- `InnerWriter::Commit` and `InnerWriter::Rollback`
  unfoldable pub writer_commit : T → Result T
  writer_commit t = elim batchable [
    | none ↦ ok t
    | some b ↦
        let written = (do t' ← b.commit t; ok (b.set_dirty false t')) in
        if b.is_dirty t then written else ok t
  ]

  unfoldable pub writer_rollback : T → T
  writer_rollback t = elim batchable [
    | none ↦ t
    | some b ↦ if b.is_dirty t then b.set_dirty false (b.rollback t) else t
  ]

  -- `InnerWriter`: `none` where it waits for the mutex.
  unfoldable pub create_writer : Bool → Locked T → Option (Locked T)
  unfolding writer_on_init
  create_writer lock l =
      let owned = if lock then mutex_lock l else some l in
      elim owned [ none ↦ none | some m ↦ some (record m { object = writer_on_init m.object }) ]

  -- What the destructor of `InnerWriter` does to the object. It does not return if `Commit` throws:
  -- a destructor is noexcept, and the program terminates.
  unfoldable pub settle : Bool → T → Result T
  unfolding writer_on_end writer_commit writer_rollback
  settle batched t = do
    t' ← (if batched then ok (writer_rollback t) else writer_commit t)
    ok (writer_on_end t')

  -- The destructor: `MutexUnlocker` unlocks at its end.
  unfoldable pub destroy_writer : Bool → Locked T → Result (Locked T)
  unfolding settle
  destroy_writer batched l = do
    t ← settle batched l.object
    ok (mutex_unlock (record l { object = t }))

  -- `Read` and `Write`, and with `std::adopt_lock` for a mutex that is held already.
  abbrev pub read : Locked T → Option (Locked T)
  read l = create_reader true l

  abbrev pub read_adopt : Locked T → Option (Locked T)
  read_adopt l = create_reader false l

  abbrev pub write : Locked T → Option (Locked T)
  write l = create_writer true l

  abbrev pub write_adopt : Locked T → Option (Locked T)
  write_adopt l = create_writer false l

  -- `BatchWrite`: it throws if the object is not batchable.
  unfoldable pub batch_write : Bool → Locked T → Result (Option (Locked T))
  unfolding create_writer
  batch_write lock l = elim batchable [
    | none ↦ err unimplemented_exception
    | some b ↦ ok (create_writer lock l)
  ]
