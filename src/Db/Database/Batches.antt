-- ===== src/Db/Database/Batches.antt =====
-- A batch on the database: what is put between `OnInitWrite` and `Commit` or `Rollback`.
use libmw_core.Common.{All, ◌++◌, ◌≢◌, bytes_eq, bytes_eq_iff, Bool-cases, inl, inr, arith, false}
use libmw_core.Common.{◌≡◌, refl, sym, ap, ◌∙◌, Option, none, some, List, [], ◌∷◌}
use libmw_core.Exceptions.{Exception, Result-cases, Result, ok, err, undefined, ◌>>=◌}
use libmw_core.Util.EndianUtil.{Bytes}
use libmw_core.Serialization.{Deserializer}
use libmw_core.Db.{put_op, LevelDb, Serializable, ItemType, DbEntry, DbTable, build_key}
use libmw_core.Db.OrderedMultimap.{find_last, insert, find_last-insert_self, find_last-insert_other}
use libmw_core.Db.DbTransaction.{DbTransaction, empty_tx}
use libmw_core.Db.DbTransaction
use libmw_core.Db.DbTransaction.Reads.{AppliesBatches, IsSynced, empty_tx-IsSynced, put-IsSynced}
use libmw_core.Db.DbTransaction.Reads.{get_stored-commit}
use libmw_core.Db.Database.{Database, get, put, on_init_write, on_end_write, commit, rollback}

some_inj : {A : Type 0} {a b : A} → Path (Option A) (some a) (some b) → a ≡ b
some_inj {a = a} e = ap (λ x. elim x [ some y ↦ y | none ↦ a ]) e

err_ok : {A : Type 0} {a : A} {x : Exception} → ¬ Path (Result A) (err x) (ok a)
err_ok e = ground arith

undefined_ok : {A : Type 0} {a : A} → ¬ Path (Result A) undefined (ok a)
undefined_ok e = ground arith

bytes_ne : (a b : Bytes) → bytes_eq a b ≡ false → a ≢ b
bytes_ne a b e same = ground (arith, sym e ∙ (bytes_eq_iff a b).1 same)

module _ (o : Serializable) {S : Type 0} (db : LevelDb S) where
  -- Several calls of `Put` of one class of items, each with its table.
  abbrev pub put_all :
      {T : Type 0}
      → ItemType o T
      → List (DbTable × List (DbEntry T))
      → Database S o.Object
      → Result (Database S o.Object)
  put_all item [] d = ok d
  put_all item ((table, entries) ∷ calls) d = put o db item table entries d >>= put_all item calls

  abbrev put_all_tx :
      {T : Type 0}
      → ItemType o T
      → List (DbTable × List (DbEntry T))
      → DbTransaction o.Object
      → DbTransaction o.Object
  put_all_tx item [] tx = tx
  put_all_tx item ((table, entries) ∷ calls) tx =
      put_all_tx item calls (DbTransaction.put o item table entries tx)

  -- Each call has an entry, as the assert in `Put` asks.
  abbrev pub HaveEntries : {T : Type 0} → List (DbTable × List (DbEntry T)) → Type 0
  HaveEntries calls = All (λ call. call.1 ≢ []) calls

  module _ {T : Type 0} (item : ItemType o T) where
    put_all_run :
        (calls : List (DbTable × List (DbEntry T))) (s : S) (tx : DbTransaction o.Object)
        → HaveEntries calls
        → put_all item calls (record { store = s; tx = some tx })
          ≡ ok (record { store = s; tx = some (put_all_tx item calls tx) })
    unfolding put
    put_all_run [] s tx h = refl
    put_all_run ((table, []) ∷ calls) s tx (h, hs) = absurd (h refl)
    put_all_run ((table, entry ∷ entries) ∷ calls) s tx (h, hs) =
        put_all_run calls s (DbTransaction.put o item table (entry ∷ entries) tx) hs

    put_all_tx-IsSynced :
        (calls : List (DbTable × List (DbEntry T))) (tx : DbTransaction o.Object)
        → IsSynced o tx
        → IsSynced o (put_all_tx item calls tx)
    put_all_tx-IsSynced [] tx h = h
    put_all_tx-IsSynced ((table, entries) ∷ calls) tx h =
        put_all_tx-IsSynced calls (DbTransaction.put o item table entries tx)
          (put-IsSynced o item table entries tx h)

    -- Every pending object is an item.
    abbrev AreItems : DbTransaction o.Object → Type 0
    AreItems tx =
        (k : Bytes) (object : o.Object)
        → find_last k tx.added ≡ some object
        → (t : T) × (object ≡ item.upcast t)

    empty_tx-AreItems : AreItems empty_tx
    unfolding find_last
    empty_tx-AreItems k object e = absurd (ground arith)

    put-AreItems :
        (table : DbTable) (entries : List (DbEntry T)) (tx : DbTransaction o.Object)
        → AreItems tx
        → AreItems (DbTransaction.put o item table entries tx)
    unfolding DbTransaction.put
    put-AreItems table [] tx h = h
    put-AreItems table (entry ∷ entries) tx h =
        let key = build_key table entry.key in
        let object = item.upcast entry.item in
        let tx' : DbTransaction o.Object = record {
          batch = tx.batch ++ put_op key (o.serialize object []) ∷ [];
          added = insert key object tx.added;
        } in
        put-AreItems table entries tx' (λ k x e. elim (Bool-cases (bytes_eq k key)) [
          | inl here ↦
              let same = (bytes_eq_iff k key).0 here in
              (
                entry.item,
                some_inj (
                    sym e
                    ∙ ap (λ y. find_last y tx'.added) same
                    ∙ find_last-insert_self key object tx.added),
              )
          | inr there ↦
              h k x (sym (find_last-insert_other key k object tx.added (bytes_ne k key there)) ∙ e)
        ])

    put_all_tx-AreItems :
        (calls : List (DbTable × List (DbEntry T))) (tx : DbTransaction o.Object)
        → AreItems tx
        → AreItems (put_all_tx item calls tx)
    put_all_tx-AreItems [] tx h = h
    put_all_tx-AreItems ((table, entries) ∷ calls) tx h =
        put_all_tx-AreItems calls (DbTransaction.put o item table entries tx)
          (put-AreItems table entries tx h)

    -- An item is cast back from its base class, and is read back from what it writes of itself.
    pub record ReadsBack : Type 0 where
      pub casts : (t : T) → item.dynamic_cast (item.upcast t) ≡ some t
      pub reads :
          (t : T)
          → (d : Deserializer) × (item.deserialize
                (record { index = 0; bytes = o.serialize (item.upcast t) [] })
              ≡ ok (t, d))

    commit_get :
        (s : S) (tx : DbTransaction o.Object) (table : DbTable) (key : Bytes)
        → AppliesBatches db
        → ReadsBack
        → IsSynced o tx
        → AreItems tx
        → (d' : Database S o.Object)
        → commit o db (record { store = s; tx = some tx }) ≡ (ok tt, d')
        → get o db item table key (on_end_write o db d')
          ≡ get o db item table key (record { store = s; tx = some tx })
    unfolding commit on_end_write get DbTransaction.get_stored DbTransaction.get
    commit_get s tx table key law back synced items d' run =
        elim (Result-cases (DbTransaction.commit db tx s)) [
          | inl (s', e) ↦
              let new : Path (Database S o.Object) (record { store = s'; tx = some tx }) d' =
                ap (λ r. r.1) (rw (commit, e) at run) in
              rw (sym new, on_end_write, get)
                (get_stored-commit o item db s s' table key tx law synced
                  (λ object found.
                    let (t, same) = items (build_key table key) object found in
                    let (d, read) = back.reads t in
                    (t, d, ap item.dynamic_cast same ∙ back.casts t, rw same read))
                  e)
          | inr (inl (x, e)) ↦ absurd (err_ok (ap (λ r. r.0) (rw (commit, e) at run)))
          | inr (inr e) ↦ absurd (undefined_ok (ap (λ r. r.0) (rw (commit, e) at run)))
        ]

    -- A batch: after `OnInitWrite` any number of `Put`s, each of
    -- some entries, returns. `Rollback` then gives the database of
    -- before back. If `Commit` returns, then after `OnEndWrite` each `Get` returns what it returned
    -- inside the batch. The store applies the batches that it is given, and the items of the class
    -- read back what they write.
    pub batch-get :
        (calls : List (DbTable × List (DbEntry T))) (s : S) (table : DbTable) (key : Bytes)
        → HaveEntries calls
        → AppliesBatches db
        → ReadsBack
        → let before : Database S o.Object = record { store = s; tx = none } in
          (d : Database S o.Object) × (put_all item calls (on_init_write o db before) ≡ ok d)
          × (rollback o db d ≡ before)
          × ((d' : Database S o.Object)
              → commit o db d ≡ (ok tt, d')
              → get o db item table key (on_end_write o db d') ≡ get o db item table key d)
    unfolding on_init_write rollback
    batch-get calls s table key some_entries law back =
        let tx = put_all_tx item calls empty_tx in
        (
          record { store = s; tx = some tx },
          put_all_run calls s empty_tx some_entries,
          refl,
          commit_get s tx table key law back
              (put_all_tx-IsSynced calls empty_tx (empty_tx-IsSynced o))
              (put_all_tx-AreItems calls empty_tx empty_tx-AreItems),
        )
