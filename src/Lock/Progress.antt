-- ===== src/Lock/Progress.antt =====
-- The lock is always given back in the end.
use libmw_core.Common.{ℕ, zero, suc, ◌+◌, ◌≡◌, refl, ap, ◌∙◌, arith, Bool, true, false, Bool-cases}
use libmw_core.Common.{inl, inr, Option, none, some, [], replicate}
use libmw_core.Exceptions.{ok, ◌>>=◌}
use libmw_core.Lock.{
  Batchable, Locked, create_reader, create_writer, destroy_reader, destroy_writer,
}
use libmw_core.Lock.{settle, mutex_unlock, writer_on_init, read, write, writer_commit}
use libmw_core.Lock.System.{ends_read, ends_write, here, later}
use libmw_core.Lock.System.{reader, System, Steps, Reach}
use libmw_core.Lock.Exclusion.{IsExclusive, shared, alone, Reach-IsExclusive}

module _ {T : Type 0} where
  free_read :
      (batchable : Option (Batchable T)) (l : Locked T)
      → l.exclusive ≡ false
      → (l' : Locked T) × (read batchable l ≡ some l')
  unfolding create_reader
  free_read batchable l e = (
    record l { exclusive = false; sharing = l.sharing + 1 },
    ap (λ x. create_reader true (record l { exclusive = x })) e,
  )

  free_write :
      (batchable : Option (Batchable T)) (l : Locked T)
      → l.exclusive ≡ false
      → l.sharing ≡ 0
      → (l' : Locked T) × (write batchable l ≡ some l')
  unfolding create_writer
  free_write batchable l e n = (
    record l { exclusive = true; sharing = 0; object = writer_on_init batchable l.object },
    ap (λ x. create_writer batchable true (record l { exclusive = x })) e
        ∙ ap (λ k. create_writer batchable true (record l { exclusive = false; sharing = k })) n,
  )

  -- The destructor of a writer returns if `Commit` does.
  settle_returns :
      (batchable : Option (Batchable T)) (batched : Bool) (t : T)
      → ((b : Batchable T) → batchable ≡ some b → (t : T) → (t' : T) × (b.commit t ≡ ok t'))
      → (t' : T) × (settle batchable batched t ≡ ok t')
  unfolding settle writer_commit
  settle_returns batchable true t returns = (_, refl)
  settle_returns none false t returns = (_, refl)
  settle_returns (some b) false t returns = elim (Bool-cases (b.is_dirty t)) [
    | inl e ↦
        let (t', run) = returns b refl t in
        (b.on_end_write (b.set_dirty false t'), rw (e, run) refl)
    | inr e ↦ (b.on_end_write t, rw e refl)
  ]

module _ {T : Type 0} (batchable : Option (Batchable T)) where
  Steps-append :
      (s t u : System T) → Steps batchable s t → Steps batchable t u → Steps batchable s u
  Steps-append s t u first here = first
  Steps-append s t u first (later {t = v} before last) =
      later (Steps-append s t v first before) last

  -- A state that nobody holds a handle in.
  IsFree : System T → Type 0
  IsFree u = (u.handles ≡ []) × (u.locked.exclusive ≡ false) × (u.locked.sharing ≡ 0)

  readers_end :
      (n : ℕ) (s : System T)
      → s.locked.exclusive ≡ false
      → s.locked.sharing ≡ n
      → s.handles ≡ replicate n reader
      → (u : System T) × Steps batchable s u × IsFree u
  unfolding IsFree destroy_reader
  readers_end zero s free count all = (s, here, (all, free, count))
  readers_end (suc n) s free count all =
      let s' : System T = record s {
        locked = destroy_reader true s.locked;
        handles = replicate n reader;
      } in
      let (u, rest, done) = readers_end n s' free (omega arith) refl in
      (u, Steps-append s s' u (later here (ends_read [] (replicate n reader) all)) rest, done)

  -- From every state that is reached, some run gives all handles back, and then the mutex can be had
  -- for reading and for writing, if `Commit` of the object always returns.
  pub Reach-can_write :
      ((b : Batchable T) → batchable ≡ some b → (t : T) → (t' : T) × (b.commit t ≡ ok t'))
      → (object : T) (s : System T) → Reach batchable object s
      → (u : System T) × Steps batchable s u
        × (u.handles ≡ [])
        × ((l : Locked T) × (read batchable u.locked ≡ some l))
        × ((l : Locked T) × (write batchable u.locked ≡ some l))
  unfolding IsFree destroy_writer
  Reach-can_write returns object s r =
      let (u, run, (none_held, free, unshared)) =
        all_end s (Reach-IsExclusive batchable object s r).0 in
      (
        u,
        run,
        none_held,
        free_read batchable u.locked free,
        free_write batchable u.locked free unshared,
      )
    where
      all_end : (s : System T) → IsExclusive s → (u : System T) × Steps batchable s u × IsFree u
      all_end s (shared free all) = readers_end s.locked.sharing s free refl all
      all_end s (alone b owned unshared all) =
          let (t, settled) = settle_returns batchable b s.locked.object returns in
          let ended : destroy_writer batchable b s.locked
              ≡ ok (record s.locked { object = t; exclusive = false }) =
            ap (λ r. r >>= λ t. ok (mutex_unlock (record s.locked { object = t }))) settled in
          let s' : System T = record s {
            locked = record s.locked { object = t; exclusive = false };
            handles = [];
          } in
          (s', later here (ends_write [] [] b all ended), (refl, refl, unshared))
