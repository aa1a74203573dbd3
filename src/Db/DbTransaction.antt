-- ===== src/Db/DbTransaction.antt =====
-- src/db/common/DBTransaction.h: the writes that wait for a commit, and what is read through them.
pub mod Reads
use libmw_core.Common.{ℕ, Option, none, some, List, [], ◌∷◌, ◌++◌}
use libmw_core.Exceptions.{Result, ok, err, undefined, ◌>>=◌, database_exception}
use libmw_core.Util.EndianUtil.{Bytes}
use libmw_core.Serialization.{Deserializer}
use libmw_core.Db.{
  Operation, put_op, delete_op, LevelDb, Serializable, ItemType, DbEntry, DbTable, build_key,
}
use libmw_core.Db.OrderedMultimap.{OrderedMultimap, insert, find_last, erase}

-- `class DBTransaction`: m_batch and m_added, over the database that m_pDB points to.
pub record DbTransaction (Object : Type 0) : Type 0 where
  pub batch : List Operation
  pub added : OrderedMultimap Object

abbrev pub empty_tx : {Object : Type 0} → DbTransaction Object
empty_tx = record { batch = []; added = [] }

module _ (o : Serializable) {T : Type 0} (item : ItemType o T) where
  -- `Put`
  unfoldable pub put : DbTable → List (DbEntry T) → DbTransaction o.Object → DbTransaction o.Object
  put table [] tx = tx
  put table (entry ∷ entries) tx =
      let key = build_key table entry.key in
      let object = item.upcast entry.item in
      put table entries (record {
        batch = tx.batch ++ put_op key (o.serialize object []) ∷ [];
        added = insert key object tx.added;
      })

  module _ {S : Type 0} (db : LevelDb S) where
    -- What both `Get`s do where nothing is pending: look the key up and deserialize the item. They are
    -- noexcept, so an exception of `Deserialize` terminates the program.
    unfoldable pub get_stored : S → DbTable → Bytes → Result (Option (DbEntry T))
    get_stored s table key = elim (db.get s (build_key table key)) [
      | none ↦ ok none
      | some item_str ↦ elim (item.deserialize (record { index = 0; bytes = item_str })) [
        | ok (t, d) ↦ ok (some (record { key = key; item = t }))
        | err e ↦ undefined
        | undefined ↦ undefined
      ]
    ]

    -- `Get`
    unfoldable pub get : S → DbTransaction o.Object → DbTable → Bytes → Result (Option (DbEntry T))
    get s tx table key =
        let stored = get_stored s table key in
        elim (find_last (build_key table key) tx.added) [
          | none ↦ stored
          | some object ↦ elim (item.dynamic_cast object) [
            | none ↦ stored
            | some t ↦ ok (some (record { key = key; item = t }))
          ]
        ]

-- `Delete`
unfoldable pub delete :
    {Object : Type 0} → DbTable → Bytes → DbTransaction Object → DbTransaction Object
delete table key tx = record {
  batch = tx.batch ++ delete_op (build_key table key) ∷ [];
  added = erase (build_key table key) tx.added;
}

-- `Commit`: the batch is written to the database.
unfoldable pub commit : {S Object : Type 0} → LevelDb S → DbTransaction Object → S → Result S
commit db tx s = elim (db.write tx.batch s) [ none ↦ err database_exception | some s' ↦ ok s' ]
