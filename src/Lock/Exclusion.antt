-- ===== src/Lock/Exclusion.antt =====
-- A writer is alone, and what a reader reads does not change under it.
use mathlib.Core.Option.{some-injective}
use libmw_core.Common.{ℕ, zero, suc, ◌+◌, ◌≡◌, refl, sym, ap, ◌∙◌, arith, Bool, true, false}
use libmw_core.Common.{Option, none, some, List, [], ◌∷◌, ◌++◌, length}
use libmw_core.Common.{length-append, replicate, ◌==◌}
use libmw_core.Exceptions.{ok, ok_inj}
use libmw_core.Lock.{
  Batchable, Locked, create_reader, create_writer, destroy_reader, destroy_writer,
}
use libmw_core.Lock.{mutex_lock, mutex_lock_shared, settle, batch_write, writer_on_init}
use libmw_core.Exceptions.{ok_bind}
use libmw_core.Lock.System.{
  reads, writes, batch_writes, adopts_read, adopts_write, adopts_batch, views_writer, ends_view,
  changes, ends_read, ends_write, here, later,
}
use libmw_core.Lock.System.{Handle, reader, writer, System, Step, init, Steps, Reach}

-- Either readers share the mutex, and nobody else holds a handle, or one writer owns it alone.
pub data IsExclusive {T : Type 0} (s : System T) : Type 0 where
  shared :
      s.locked.exclusive ≡ false → s.handles ≡ replicate s.locked.sharing reader → IsExclusive s
  alone :
      (batched : Bool)
      → s.locked.exclusive ≡ true
      → s.locked.sharing ≡ 0
      → s.handles ≡ writer batched ∷ []
      → IsExclusive s

module _ {A : Type 0} where
  cons_inj : (x y : A) (xs ys : List A) → Path (List A) (x ∷ xs) (y ∷ ys) → (x ≡ y) × (xs ≡ ys)
  cons_inj x y xs ys e = (ap (head x) e, ap tail e)
    where
      head : A → List A → A
      head d [] = d
      head d (z ∷ zs) = z

      tail : List A → List A
      tail [] = []
      tail (z ∷ zs) = zs

  -- One element taken out of a list of one.
  take_single :
      (x y : A) (before after : List A)
      → Path (List A) (x ∷ []) (before ++ y ∷ after)
      → (x ≡ y) × (before ++ after ≡ [])
  take_single x y [] after e = let (h, t) = cons_inj x y [] after e in (h, sym t)
  take_single x y (b ∷ before) after e =
      let (h, t) = cons_inj x b [] (before ++ y ∷ after) e in
      absurd (omega (arith, ap length t, length-append before (y ∷ after)))

  -- One element taken out of equal ones.
  take_replicate :
      (n : ℕ) (x y : A) (before after : List A)
      → replicate n x ≡ before ++ y ∷ after
      → (x ≡ y) × ((m : ℕ) × (n ≡ suc m) × (before ++ after ≡ replicate m x))
  take_replicate zero x y before after e =
      absurd (omega (arith, ap length e, length-append before (y ∷ after)))
  take_replicate (suc n) x y [] after e =
      let (h, t) = cons_inj x y (replicate n x) after e in (h, (n, refl, sym t))
  take_replicate (suc n) x y (b ∷ before) after e =
      let (h, t) = cons_inj x b (replicate n x) (before ++ y ∷ after) e in
      let (same, (m, size, rest)) = take_replicate n x y before after t in
      (same, (suc m, ap suc size, ap (λ t. b ∷ t) rest ∙ ap (λ z. z ∷ replicate m x) (sym h)))

not_reader : (b : Bool) → writer b ≡ reader → ⊥
not_reader b e = cc

module _ {T : Type 0} where
  read_by :
      (exclusive : Bool) (object : T) (sharing : ℕ) (l : Locked T)
      → let l0 : Locked T = record { object = object; exclusive = exclusive; sharing = sharing } in
        create_reader true l0 ≡ some l
        → (exclusive ≡ false) × (l ≡ record l0 { sharing = sharing + 1 })
  unfolding create_reader
  read_by true object sharing l e = cc
  read_by false object sharing l e = (refl, sym (some-injective _ _ e))

  write_by :
      (batchable : Option (Batchable T)) (exclusive : Bool) (object : T) (sharing : ℕ)
      (l : Locked T)
      → let l0 : Locked T = record { object = object; exclusive = exclusive; sharing = sharing } in
        create_writer batchable true l0 ≡ some l
        → (exclusive ≡ false)
          × (sharing ≡ 0)
          × (l ≡ record l0 { exclusive = true; object = writer_on_init batchable object })
  unfolding create_writer
  write_by batchable true object sharing l e = cc
  write_by batchable false object zero l e = (refl, refl, sym (some-injective _ _ e))
  write_by batchable false object (suc n) l e =
      let used : (suc n == 0) ≡ false = ground arith in
      absurd (let clash = rw (create_writer, used) at e in cc)

  batch_write_by :
      (batchable : Option (Batchable T)) (lock : Bool) (l l' : Locked T)
      → batch_write batchable lock l ≡ ok (some l')
      → create_writer batchable lock l ≡ some l'
  unfolding batch_write
  batch_write_by none lock l l' e = cc
  batch_write_by (some b) lock l l' e = ok_inj e

  -- To lock the mutex and to hand it over is to make a handle that locks it.
  adopt_reader :
      (l l1 l2 : Locked T)
      → mutex_lock_shared l ≡ some l1
      → create_reader false l1 ≡ some l2
      → create_reader true l ≡ some l2
  unfolding create_reader
  adopt_reader l l1 l2 e e' = e ∙ e'

  adopt_writer :
      (batchable : Option (Batchable T)) (l l1 l2 : Locked T)
      → mutex_lock l ≡ some l1
      → create_writer batchable false l1 ≡ some l2
      → create_writer batchable true l ≡ some l2
  unfolding create_writer
  adopt_writer batchable l l1 l2 e e' =
      ap
        (λ owned. elim owned [
          | none ↦ none
          | some m ↦ some (record m { object = writer_on_init batchable m.object })
        ])
        e
      ∙ e'

  destroyed :
      (batchable : Option (Batchable T)) (batched : Bool) (l l' : Locked T)
      → destroy_writer batchable batched l ≡ ok l'
      → (t : T) × (settle batchable batched l.object ≡ ok t)
        × (l' ≡ record l { object = t; exclusive = false })
  unfolding destroy_writer
  destroyed batchable batched l l' e =
      let (t, settled, e') = ok_bind (settle batchable batched l.object) _ l' e in
      (t, settled, sym (ok_inj e'))

module _ {T : Type 0} (batchable : Option (Batchable T)) where
  -- Where the mutex is free for a writer, no handle is held.
  free_of_handles :
      (s : System T)
      → IsExclusive s
      → s.locked.exclusive ≡ false
      → s.locked.sharing ≡ 0
      → s.handles ≡ []
  free_of_handles s (shared free all) e n = all ∙ ap (λ k. replicate k reader) n
  free_of_handles s (alone batched owned unshared all) e n =
      absurd (let clash = sym owned ∙ e in cc)

  new_writer :
      (batched : Bool) (s : System T) (l : Locked T)
      → IsExclusive s
      → create_writer batchable true s.locked ≡ some l
      → IsExclusive (record s { locked = l; handles = writer batched ∷ s.handles })
  new_writer batched s l x e =
      let (free, unshared, got) =
        write_by batchable s.locked.exclusive s.locked.object s.locked.sharing l e in
      alone batched (ap (λ l. l.exclusive) got) (ap (λ l. l.sharing) got ∙ unshared)
        (ap (λ hs. writer batched ∷ hs) (free_of_handles s x free unshared))

  new_reader :
      (s : System T) (l : Locked T)
      → IsExclusive s
      → create_reader true s.locked ≡ some l
      → IsExclusive (record s { locked = l; handles = reader ∷ s.handles })
  new_reader s l (shared free all) e =
      let (_, got) = read_by s.locked.exclusive s.locked.object s.locked.sharing l e in
      let count : suc s.locked.sharing ≡ l.sharing = omega (arith, ap (λ l. l.sharing) got) in
      shared (ap (λ l. l.exclusive) got ∙ free)
        (ap (λ hs. reader ∷ hs) all ∙ ap (λ k. replicate k reader) count)
  new_reader s l (alone batched owned unshared all) e =
      let (free, got) = read_by s.locked.exclusive s.locked.object s.locked.sharing l e in
      absurd (let clash = sym owned ∙ free in cc)

  view_by : (l l' : Locked T) → create_reader false l ≡ some l' → l ≡ l'
  unfolding create_reader
  view_by l l' e = some-injective l l' e

  -- A reader that takes no lock leaves the mutex as it is.
  viewed :
      (s : System T) (l : Locked T)
      → IsExclusive s
      → create_reader false s.locked ≡ some l
      → IsExclusive (record s { locked = l; views = suc s.views })
  viewed s l (shared free all) e =
      let same = view_by s.locked l e in
      shared (ap (λ l. l.exclusive) (sym same) ∙ free)
        (all ∙ ap (λ l. replicate l.sharing reader) same)
  viewed s l (alone b owned unshared all) e =
      let same = view_by s.locked l e in
      alone b (ap (λ l. l.exclusive) (sym same) ∙ owned) (ap (λ l. l.sharing) (sym same) ∙ unshared)
        all

  Step-IsExclusive : (s s' : System T) → IsExclusive s → Step batchable s s' → IsExclusive s'
  unfolding destroy_reader
  Step-IsExclusive s s' x (reads {l = l} e) = new_reader s l x e
  Step-IsExclusive s s' x (writes {l = l} e) = new_writer false s l x e
  Step-IsExclusive s s' x (batch_writes {l = l} e) =
      new_writer true s l x (batch_write_by batchable true s.locked l e)
  Step-IsExclusive s s' x (adopts_read {l = l} {l' = l'} e e') =
      new_reader s l' x (adopt_reader s.locked l l' e e')
  Step-IsExclusive s s' x (adopts_write {l = l} {l' = l'} e e') =
      new_writer false s l' x (adopt_writer batchable s.locked l l' e e')
  Step-IsExclusive s s' x (adopts_batch {l = l} {l' = l'} e e') =
      new_writer true s l' x
        (adopt_writer batchable s.locked l l' e (batch_write_by batchable false l l' e'))
  Step-IsExclusive s s' (shared free all) (views_writer before after b {l = l} e e') =
      viewed s l (shared free all) e'
  Step-IsExclusive s s' (alone b owned unshared all) (views_writer before after c {l = l} e e') =
      viewed s l (alone b owned unshared all) e'
  Step-IsExclusive s s' (shared free all) (ends_view e) = shared free all
  Step-IsExclusive s s' (alone b owned unshared all) (ends_view e) = alone b owned unshared all
  Step-IsExclusive s s' (shared free all) (changes before after b t e) = shared free all
  Step-IsExclusive s s' (alone b owned unshared all) (changes before after c t e) =
      alone b owned unshared all
  Step-IsExclusive s s' (shared free all) (ends_read before after e) =
      let (_, (m, size, rest)) =
        take_replicate s.locked.sharing reader reader before after (sym all ∙ e) in
      let count : m ≡ (destroy_reader true s.locked).sharing = omega arith in
      shared free (rest ∙ ap (λ k. replicate k reader) count)
  Step-IsExclusive s s' (alone b owned unshared all) (ends_read before after e) =
      absurd (not_reader b (take_single (writer b) reader before after (sym all ∙ e)).0)
  Step-IsExclusive s s' (shared free all) (ends_write before after b e d) = absurd (
      not_reader b
        (sym (take_replicate s.locked.sharing reader (writer b) before after (sym all ∙ e)).0))
  Step-IsExclusive s s' (alone b owned unshared all) (ends_write before after c {l = l} e d) =
      let (t, settled, got) = destroyed batchable c s.locked l d in
      let rest = (take_single (writer b) (writer c) before after (sym all ∙ e)).1 in
      shared (ap (λ l. l.exclusive) got)
        (rest ∙ ap (λ k. replicate k reader) (sym (ap (λ l. l.sharing) got ∙ unshared)))

  -- A reader and a writer are not held at once.
  not_both :
      (s : System T) (before after before' after' : List Handle) (b : Bool)
      → IsExclusive s
      → s.handles ≡ before ++ reader ∷ after
      → s.handles ≡ before' ++ writer b ∷ after'
      → ⊥
  not_both s before after before' after' b (shared free all) r w =
      not_reader b
        (sym (take_replicate s.locked.sharing reader (writer b) before' after' (sym all ∙ w)).0)
  not_both s before after before' after' b (alone c owned unshared all) r w =
      not_reader c (take_single (writer c) reader before after (sym all ∙ r)).0

  no_new_writer :
      (s : System T) (l : Locked T) (before after : List Handle)
      → IsExclusive s
      → s.handles ≡ before ++ reader ∷ after
      → create_writer batchable true s.locked ≡ some l
      → ⊥
  no_new_writer s l before after x r e =
      let (free, unshared, got) =
        write_by batchable s.locked.exclusive s.locked.object s.locked.sharing l e in
      let none_held = sym (free_of_handles s x free unshared) ∙ r in
      omega (arith, ap length none_held, length-append before (reader ∷ after))

  Step-keeps_object :
      (s s' : System T) (before after : List Handle)
      → IsExclusive s
      → s.handles ≡ before ++ reader ∷ after
      → Step batchable s s'
      → s'.locked.object ≡ s.locked.object
  unfolding destroy_reader
  Step-keeps_object s s' before after x r (reads {l = l} e) =
      ap (λ l. l.object) (read_by s.locked.exclusive s.locked.object s.locked.sharing l e).1
  Step-keeps_object s s' before after x r (writes {l = l} e) =
      absurd (no_new_writer s l before after x r e)
  Step-keeps_object s s' before after x r (batch_writes {l = l} e) =
      absurd (no_new_writer s l before after x r (batch_write_by batchable true s.locked l e))
  Step-keeps_object s s' before after x r (adopts_read {l = l} {l' = l'} e e') =
      let made = adopt_reader s.locked l l' e e' in
      ap (λ l. l.object) (read_by s.locked.exclusive s.locked.object s.locked.sharing l' made).1
  Step-keeps_object s s' before after x r (adopts_write {l = l} {l' = l'} e e') =
      absurd (no_new_writer s l' before after x r (adopt_writer batchable s.locked l l' e e'))
  Step-keeps_object s s' before after x r (adopts_batch {l = l} {l' = l'} e e') = absurd (
      no_new_writer s l' before after x r
        (adopt_writer batchable s.locked l l' e (batch_write_by batchable false l l' e')))
  Step-keeps_object s s' before after x r (views_writer before' after' b {l = l} e e') =
      ap (λ l. l.object) (sym (view_by s.locked l e'))
  Step-keeps_object s s' before after x r (ends_view e) = refl
  Step-keeps_object s s' before after x r (changes before' after' b t e) =
      absurd (not_both s before after before' after' b x r e)
  Step-keeps_object s s' before after x r (ends_read before' after' e) = refl
  Step-keeps_object s s' before after x r (ends_write before' after' b e d) =
      absurd (not_both s before after before' after' b x r e)

  pub Steps-IsExclusive : (s s' : System T) → IsExclusive s → Steps batchable s s' → IsExclusive s'
  Steps-IsExclusive s s' x here = x
  Steps-IsExclusive s s' x (later {t = t} before last) =
      Step-IsExclusive t s' (Steps-IsExclusive s t x before) last

  -- Whatever readers and writers are made by `Read`, `Write` and `BatchWrite`, with or without
  -- `std::adopt_lock`, and come and go, a writer is the only one that holds a handle, and
  -- where readers hold handles, the mutex counts them. No step changes the object while a reader is
  -- held by one of these. The readers that are copied from writers take no lock, and count for
  -- neither.
  pub Reach-IsExclusive :
      (object : T) (s : System T)
      → Reach batchable object s
      → IsExclusive s
        × ((s' : System T) (before after : List Handle)
            → s.handles ≡ before ++ reader ∷ after
            → Step batchable s s'
            → s'.locked.object ≡ s.locked.object)
  Reach-IsExclusive object s r =
      let x = Steps-IsExclusive (init object) s (shared refl refl) r in
      (x, λ s' before after held step. Step-keeps_object s s' before after x held step)
