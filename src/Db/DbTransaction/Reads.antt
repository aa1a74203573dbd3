-- ===== src/Db/DbTransaction/Reads.antt =====
-- What is read through a transaction, before and after its commit.
use libmw_core.Common.{
  ◌≡◌, ◌≢◌, refl, sym, ap, ◌∙◌, arith, Bool-cases, inl, inr, Option, none, some,
}
use libmw_core.Common.{List, [], ◌∷◌, ◌++◌, bytes_eq, bytes_eq_iff, bytes_eq_refl, if◌then◌else◌}
use libmw_core.Common.{Option-cases, drop}
use libmw_core.Exceptions.{Result, ok, err, database_exception}
use libmw_core.Util.EndianUtil.{Bytes}
use libmw_core.Serialization.{Deserializer}
use libmw_core.Db.{
  Operation, put_op, delete_op, LevelDb, Serializable, ItemType, DbEntry, DbTable, build_key,
}
use libmw_core.Db.OrderedMultimap.{insert, find_last, find_last-insert_self}
use libmw_core.Db.OrderedMultimap.{find_last-insert_other}
use libmw_core.Db.DbTransaction.{DbTransaction, empty_tx, put, get, get_stored, commit}

-- What a batch leaves at a key: its operations are done in order.
pub effect : Bytes → List Operation → Option Bytes → Option Bytes
effect key [] v = v
effect key (put_op k x ∷ ops) v = effect key ops (if bytes_eq key k then some x else v)
effect key (delete_op k ∷ ops) v = effect key ops (if bytes_eq key k then none else v)

-- The documented behaviour of `leveldb::DB::Write`: a batch that is written is applied in order.
pub record AppliesBatches {S : Type 0} (db : LevelDb S) : Type 0 where
  pub applies :
      (batch : List Operation) (s s' : S) (key : Bytes)
      → db.write batch s ≡ some s'
      → db.get s' key ≡ effect key batch (db.get s key)

effect-snoc :
    (key : Bytes) (ops : List Operation) (op : Operation) (v : Option Bytes)
    → effect key (ops ++ op ∷ []) v ≡ effect key (op ∷ []) (effect key ops v)
unfolding effect
effect-snoc key [] op v = refl
effect-snoc key (put_op k x ∷ ops) op v =
    effect-snoc key ops op (if bytes_eq key k then some x else v)
effect-snoc key (delete_op k ∷ ops) op v =
    effect-snoc key ops op (if bytes_eq key k then none else v)

-- A commit that returns has written.
written_of :
    {S : Type 0} (w : Option S) (s' : S)
    → Path (Result S) (elim w [ none ↦ err database_exception | some x ↦ ok x ]) (ok s')
    → w ≡ some s'
written_of none s' h = absurd (ground arith)
written_of (some x) s' h = ground (arith, h)

module _ (o : Serializable) where
  -- What the pending objects make of a stored value.
  abbrev pub pending : Option o.Object → Option Bytes → Option Bytes
  pending found v = elim found [ none ↦ v | some object ↦ some (o.serialize object []) ]

  -- The batch and the pending objects say the same of every key.
  abbrev pub IsSynced : DbTransaction o.Object → Type 0
  IsSynced tx =
      (key : Bytes) (v : Option Bytes) → effect key tx.batch v ≡ pending (find_last key tx.added) v

  pub empty_tx-IsSynced : IsSynced empty_tx
  unfolding effect find_last
  empty_tx-IsSynced key v = refl

  add-IsSynced :
      (k : Bytes) (object : o.Object) (tx : DbTransaction o.Object)
      → IsSynced tx
      → IsSynced (record {
        batch = tx.batch ++ put_op k (o.serialize object []) ∷ [];
        added = insert k object tx.added;
      })
  unfolding effect
  add-IsSynced k object tx h key v =
      let step = effect-snoc key tx.batch (put_op k (o.serialize object [])) v in
      elim (Bool-cases (bytes_eq key k)) [
        | inl e ↦
            let same = (bytes_eq_iff key k).0 e in
            step ∙ rw (same, bytes_eq_refl k, find_last-insert_self k object tx.added) refl
        | inr e ↦
            let away : key ≢ k = λ e'. absurd (ground (arith, sym e ∙ (bytes_eq_iff key k).1 e')) in
            step ∙ rw (e, find_last-insert_other k key object tx.added away) (h key v)
      ]

  module _ {T : Type 0} (item : ItemType o T) where
    pub put-IsSynced :
        (table : DbTable) (entries : List (DbEntry T)) (tx : DbTransaction o.Object)
        → IsSynced tx
        → IsSynced (put o item table entries tx)
    unfolding put
    put-IsSynced table [] tx h = h
    put-IsSynced table (entry ∷ entries) tx h =
        put-IsSynced table entries _
          (add-IsSynced (build_key table entry.key) (item.upcast entry.item) tx h)

    -- The last item that a list of entries has for a key.
    unfoldable pub last_item : Bytes → List (DbEntry T) → Option T
    last_item key [] = none
    last_item key (entry ∷ entries) = elim (last_item key entries) [
      | some t ↦ some t
      | none ↦ if bytes_eq key entry.key then some entry.item else none
    ]

    module _ {S : Type 0} (db : LevelDb S) where
      abbrev found_or : Bytes → Option T → Result (Option (DbEntry T)) → Result (Option (DbEntry T))
      found_or key found otherwise = elim found [
        | some t ↦ ok (some (record { key = key; item = t }))
        | none ↦ otherwise
      ]

      get_pending :
          (s : S) (table : DbTable) (key : Bytes) (t : T) (tx : DbTransaction o.Object)
          → find_last (build_key table key) tx.added ≡ some (item.upcast t)
          → item.dynamic_cast (item.upcast t) ≡ some t
          → get o item db s tx table key ≡ ok (some (record { key = key; item = t }))
      unfolding get
      get_pending s table key t tx e c = rw (get, e, c) refl

      get_same :
          (s : S) (table : DbTable) (key : Bytes) (tx tx' : DbTransaction o.Object)
          → find_last (build_key table key) tx.added ≡ find_last (build_key table key) tx'.added
          → get o item db s tx table key ≡ get o item db s tx' table key
      unfolding get
      get_same s table key tx tx' e = rw (get, e) refl

      -- A transaction reads its own writes: after `Put`, `Get` of a key in the same table returns the
      -- last item that was put under the key, and where none was put it returns what it returned
      -- before. The cast of an item to its base class and back is the item.
      pub get-put :
          (s : S) (table : DbTable) (key : Bytes) (entries : List (DbEntry T))
          (tx : DbTransaction o.Object)
          → ((t : T) → item.dynamic_cast (item.upcast t) ≡ some t)
          → get o item db s (put o item table entries tx) table key ≡ elim (last_item key entries) [
            | some t ↦ ok (some (record { key = key; item = t }))
            | none ↦ get o item db s tx table key
          ]
      unfolding put last_item
      get-put s table key [] tx casts = refl
      get-put s table key (entry ∷ entries) tx casts =
          let k = build_key table entry.key in
          let object = item.upcast entry.item in
          let tx' : DbTransaction o.Object = record {
            batch = tx.batch ++ put_op k (o.serialize object []) ∷ [];
            added = insert k object tx.added;
          } in
          let ih = get-put s table key entries tx' casts in
          elim (Option-cases (last_item key entries)) [
            | inr (t, e) ↦ ih ∙ rw e refl
            | inl e ↦
                let later = ih ∙ ap (λ x. found_or key x (get o item db s tx' table key)) e in
                elim (Bool-cases (bytes_eq key entry.key)) [
                  | inl here ↦
                      let same = (bytes_eq_iff key entry.key).0 here in
                      later
                      ∙ get_pending s table key entry.item tx'
                          (ap (λ x. find_last (build_key table x) tx'.added) same
                            ∙ find_last-insert_self k object tx.added)
                          (casts entry.item)
                      ∙ rw (e, here) refl
                  | inr there ↦
                      let away : build_key table key ≢ k = λ e'. absurd (
                        ground (
                          arith,
                          sym there ∙ (bytes_eq_iff key entry.key).1 (ap (λ l. drop 1 l) e'),
                        )) in
                      later
                      ∙ get_same s table key tx' tx
                          (find_last-insert_other k (build_key table key) object tx.added away)
                      ∙ rw (e, there) refl
                ]
          ]

      -- `Commit` writes what `Get` showed: once a transaction that holds the writes of `Put` is
      -- committed, the database returns for each key what `Get` of the transaction returned. The
      -- database applies batches, and a pending object under the key casts to the class of the
      -- item, which reads back what the object writes of itself.
      pub get_stored-commit :
          (s s' : S) (table : DbTable) (key : Bytes) (tx : DbTransaction o.Object)
          → AppliesBatches db
          → IsSynced tx
          → ((object : o.Object)
              → find_last (build_key table key) tx.added ≡ some object
              → (t : T) × (d : Deserializer) × (item.dynamic_cast object ≡ some t)
                × (item.deserialize (record { index = 0; bytes = o.serialize object [] })
                    ≡ ok (t, d)))
          → commit db tx s ≡ ok s'
          → get_stored o item db s' table key ≡ get o item db s tx table key
      unfolding get get_stored commit
      get_stored-commit s s' table key tx law synced reads run =
          let k = build_key table key in
          let written : db.get s' k ≡ pending (find_last k tx.added) (db.get s k) =
            law.applies tx.batch s s' k (written_of (db.write tx.batch s) s' run)
            ∙ synced k (db.get s k) in
          elim (Option-cases (find_last k tx.added)) [
            | inl e ↦ rw (get_stored, get, written, e) refl
            | inr (object, e) ↦
                let (t, d, cast, read) = reads object e in
                rw (get_stored, get, written, e, cast, read) refl
          ]
