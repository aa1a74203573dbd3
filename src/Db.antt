-- ===== src/Db.antt =====
-- src/db: the block database, a batch of writes over a key-value store.
pub mod OrderedMultimap
pub mod DbTransaction
pub mod Database
pub mod BlockDb
pub mod Tests
use libmw_core.Common.{ℕ, Option, none, some, List, [], ◌∷◌, Bool}
use libmw_core.Exceptions.{Result, ok, err, undefined}
use libmw_core.Util.EndianUtil.{Bytes}
use libmw_core.Serialization.{Read}

-- An entry of a `leveldb::WriteBatch`.
pub data Operation : Type 0 where
  put_op : Bytes → Bytes → Operation
  delete_op : Bytes → Operation

-- `leveldb::DB` over its state: `get` finds a value, and `write` has no result where its status is
-- not OK.
pub record LevelDb (S : Type 0) : Type 0 where
  pub get : S → Bytes → Option Bytes
  pub write : List Operation → S → Option S

-- Objects that are `Traits::ISerializable`, and the virtual method that writes one.
pub record Serializable : Type 1 where
  pub Object : Type 0
  pub serialize : Object → Bytes → Bytes

-- A class derived from it: the two casts, and `T::Deserialize`.
pub record ItemType (o : Serializable) (T : Type 0) : Type 0 where
  pub upcast : T → o.Object
  pub dynamic_cast : o.Object → Option T
  pub deserialize : Read T

-- `struct DBEntry`
pub record DbEntry (T : Type 0) : Type 0 where
  pub key : Bytes
  pub item : T

-- `class DBTable`
pub record DbTable : Type 0 where
  pub prefix : ℕ
  pub allow_duplicates : Bool

-- `DBTable::BuildKey`
abbrev pub build_key : DbTable → Bytes → Bytes
build_key table item_key = table.prefix ∷ item_key
