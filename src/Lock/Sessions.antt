-- ===== src/Lock/Sessions.antt =====
-- What a `Writer` makes of a batchable object, from its constructor to its destructor.
use libmw_core.Common.{◌≡◌, Bool, true, false}
use libmw_core.Common.{some, List, [], ◌∷◌}
use libmw_core.Exceptions.{Result, ok}
use libmw_core.Lock.{Batchable, settle, writer_on_init}

-- What the lock relies on in an `IBatchable`: two views, of the object as it is seen and of what is
-- durable, along its operations. `IsGood` is the invariant of the class.
pub record IsTransactional {T Query View : Type 0} (b : Batchable T) (IsGood : T → Type 0)
    (seen durable : T → Query → View) : Type 0 where
  pub on_init :
      (t : T)
      → IsGood t
      → let t' = b.on_init_write (b.set_dirty true t) in
        IsGood t'
        × ((q : Query) → seen t' q ≡ seen t q)
        × ((q : Query) → durable t' q ≡ durable t q)
  pub commits :
      (t : T)
      → IsGood t
      → (t' : T) × (b.commit t ≡ ok t')
        × IsGood (b.on_end_write (b.set_dirty false t'))
        × ((q : Query) → seen (b.on_end_write (b.set_dirty false t')) q ≡ seen t q)
        × ((q : Query) → durable (b.on_end_write (b.set_dirty false t')) q ≡ seen t q)
  pub rolls_back :
      (t : T)
      → IsGood t
      → let t' = b.on_end_write (b.set_dirty false (b.rollback t)) in
        IsGood t'
        × ((q : Query) → seen t' q ≡ durable t q)
        × ((q : Query) → durable t' q ≡ durable t q)
  pub clean :
      (t : T)
      → IsGood t
      → b.is_dirty t ≡ false
      → IsGood (b.on_end_write t)
        × ((q : Query) → seen (b.on_end_write t) q ≡ durable t q)
        × ((q : Query) → seen t q ≡ durable t q)
        × ((q : Query) → durable (b.on_end_write t) q ≡ durable t q)

module _ {T Query View : Type 0} (b : Batchable T) (IsGood : T → Type 0)
    (seen durable : T → Query → View) (laws : IsTransactional b IsGood seen durable) where
  -- A use of the object by the holder of the writer: it writes nothing to the disk.
  abbrev pub IsUse : (T → T) → Type 0
  IsUse f = (t : T) → IsGood t → IsGood (f t) × ((q : Query) → durable (f t) q ≡ durable t q)

  abbrev pub run_all : List (T → T) → T → T
  run_all [] t = t
  run_all (f ∷ fs) t = run_all fs (f t)

  -- The whole life of a writer.
  abbrev pub session : Bool → List (T → T) → T → Result T
  session batched fs t = settle (some b) batched (run_all fs (writer_on_init (some b) t))
