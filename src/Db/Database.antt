-- ===== src/Db/Database.antt =====
-- src/db/common/Database.h: the database with its open transaction.
pub mod Batches
use libmw_core.Common.{ℕ, Option, none, some, List, [], ◌∷◌}
use libmw_core.Exceptions.{Result, ok, err, undefined, ◌>>=◌}
use libmw_core.Util.EndianUtil.{Bytes}
use libmw_core.Db.{LevelDb, Serializable, ItemType, DbEntry, DbTable}
use libmw_core.Db.DbTransaction.{DbTransaction, empty_tx}
use libmw_core.Db.DbTransaction

-- `class Database`: the store behind m_pDB, and m_pTx.
pub record Database (S : Type 0) (Object : Type 0) : Type 0 where
  pub store : S
  pub tx : Option (DbTransaction Object)

module _ (o : Serializable) {S : Type 0} (db : LevelDb S) where
  -- `Get`
  unfoldable pub get :
      {T : Type 0}
      → ItemType o T
      → DbTable
      → Bytes
      → Database S o.Object
      → Result (Option (DbEntry T))
  get item table key d = elim d.tx [
    | some tx ↦ DbTransaction.get o item db d.store tx table key
    | none ↦ DbTransaction.get_stored o item db d.store table key
  ]

  -- `Put`: without a transaction the entries are written at once. The assert asks for an entry. If it
  -- throws, the database is as it was.
  unfoldable pub put :
      {T : Type 0}
      → ItemType o T
      → DbTable
      → List (DbEntry T)
      → Database S o.Object
      → Result (Database S o.Object)
  put item table [] d = undefined
  put item table (entry ∷ entries) d =
      let all = entry ∷ entries in
      elim d.tx [
        | some tx ↦ ok (record d { tx = some (DbTransaction.put o item table all tx) })
        | none ↦
            elim (DbTransaction.commit db (DbTransaction.put o item table all empty_tx) d.store) [
              | ok s ↦ ok (record d { store = s })
              | err e ↦ err e
              | undefined ↦ undefined
            ]
      ]

  -- `OnInitWrite` and `OnEndWrite`
  unfoldable pub on_init_write : Database S o.Object → Database S o.Object
  on_init_write d = record d { tx = some empty_tx }

  unfoldable pub on_end_write : Database S o.Object → Database S o.Object
  on_end_write d = record d { tx = none }

  -- `Commit`, with the database behind it: m_pTx stays set, also if the write throws. Without a
  -- transaction it is a null pointer.
  unfoldable pub commit : Database S o.Object → Result (Unit {0}) × Database S o.Object
  commit d = elim d.tx [
    | none ↦ (undefined, d)
    | some tx ↦ elim (DbTransaction.commit db tx d.store) [
      | ok s ↦ (ok tt, record d { store = s })
      | err e ↦ (err e, d)
      | undefined ↦ (undefined, d)
    ]
  ]

  -- `Rollback`
  unfoldable pub rollback : Database S o.Object → Database S o.Object
  rollback d = record d { tx = none }
