-- ===== src/Db/Tests.antt =====
-- The theorems on the database at a store that is a function, with byte strings for items.
use libmw_core.Db.BlockDb.Headers.{last_header, get_header_by_hash-add_headers}
use libmw_core.Db.BlockDb.{Chain, add_headers, get_header_by_hash}
use libmw_core.Common.{false}
use libmw_core.Common.{◌≡◌, refl, sym, ap, arith, Option, none, some, List, [], ◌∷◌, ◌++◌}
use libmw_core.Exceptions.{ok}
use libmw_core.Util.EndianUtil.{Bytes}
use libmw_core.Db.{LevelDb, Serializable, ItemType, DbEntry, DbTable}
use libmw_core.Db.OrderedMultimap.{OrderedMultimap, insert, find_last, erase, values, erase-insert}
use libmw_core.Db.DbTransaction.{empty_tx, get, put}
use libmw_core.Db.DbTransaction.Reads.{effect, AppliesBatches, last_item, get-put}
use libmw_core.Db.Database.{Database, on_init_write, on_end_write, rollback}
use libmw_core.Db.Database
use libmw_core.Db.Database.Batches.{put_all, batch-get, ReadsBack}

abbrev Store : Type 0
Store = Bytes → Option Bytes

abbrev function_db : LevelDb Store
function_db = record {
  get = λ s key. s key;
  write = λ batch s. some (λ key. effect key batch (s key));
}

function_db-AppliesBatches : AppliesBatches function_db
function_db-AppliesBatches = record {
  applies = λ batch s s' key e.
      sym (ap (λ x. elim x [ some t ↦ t key | none ↦ effect key batch (s key) ]) e);
}

abbrev byte_strings : Serializable
byte_strings = record { Object = Bytes; serialize = λ bs s. s ++ bs }

abbrev byte_string : ItemType byte_strings Bytes
byte_string = record {
  upcast = λ bs. bs;
  dynamic_cast = λ bs. some bs;
  deserialize = λ d. ok (d.bytes, d);
}

byte_string-ReadsBack : ReadsBack byte_strings function_db byte_string
byte_string-ReadsBack = record { casts = λ t. refl; reads = λ t. (_, refl) }

abbrev header_table : DbTable
header_table = record { prefix = 72; allow_duplicates = false }

abbrev two_entries : List (DbEntry Bytes)
two_entries = record { key = 1 ∷ []; item = 5 ∷ [] } ∷ record { key = 1 ∷ []; item = 6 ∷ [] } ∷ []

abbrev empty_store : Store
empty_store key = none

abbrev two_values : OrderedMultimap Bytes
two_values = (1 ∷ [], (5 ∷ []) ∷ []) ∷ (2 ∷ [], []) ∷ []

erase-insert_example :
    (find_last (1 ∷ []) (insert (1 ∷ []) (6 ∷ []) two_values) ≡ some (6 ∷ []))
    × (values (1 ∷ []) (erase (1 ∷ []) (insert (1 ∷ []) (6 ∷ []) two_values))
        ≡ values (1 ∷ []) two_values)
    × (find_last (1 ∷ []) (erase (1 ∷ []) (insert (1 ∷ []) (6 ∷ []) two_values))
        ≡ find_last (1 ∷ []) two_values)
    × (find_last (2 ∷ []) (insert (1 ∷ []) (6 ∷ []) two_values) ≡ find_last (2 ∷ []) two_values)
    × (find_last (2 ∷ []) (erase (1 ∷ []) two_values) ≡ find_last (2 ∷ []) two_values)
erase-insert_example = erase-insert (1 ∷ []) (2 ∷ []) (6 ∷ []) two_values (λ e. ground arith)

get-put_example :
    get byte_strings byte_string function_db empty_store
      (put byte_strings byte_string header_table two_entries empty_tx)
      header_table
      (1 ∷ [])
    ≡ elim (last_item byte_strings byte_string (1 ∷ []) two_entries) [
      | some t ↦ ok (some (record { key = 1 ∷ []; item = t }))
      | none ↦ get byte_strings byte_string function_db empty_store empty_tx header_table (1 ∷ [])
    ]
get-put_example =
    get-put byte_strings byte_string function_db empty_store header_table (1 ∷ []) two_entries
      empty_tx (λ t. refl)

batch-get_example :
    let before : Database Store Bytes = record { store = empty_store; tx = none } in
    (d : Database Store Bytes) × (put_all byte_strings function_db byte_string
        ((header_table, two_entries) ∷ [])
        (on_init_write byte_strings function_db before)
      ≡ ok d)
    × (rollback byte_strings function_db d ≡ before)
    × ((d' : Database Store Bytes)
        → Database.commit byte_strings function_db d ≡ (ok tt, d')
        → Database.get byte_strings function_db byte_string header_table
            (1 ∷ [])
            (on_end_write byte_strings function_db d')
          ≡ Database.get byte_strings function_db byte_string header_table (1 ∷ []) d)
batch-get_example =
    batch-get byte_strings function_db byte_string ((header_table, two_entries) ∷ []) empty_store
      header_table (1 ∷ []) ((λ e. ground (arith, e)), tt) function_db-AppliesBatches
      byte_string-ReadsBack

-- A coin whose headers are their own hashes.
abbrev byte_chain : Chain byte_strings
byte_chain = record {
  Header = Bytes;
  header_item = byte_string;
  header_hash = λ h. h;
  Block = Bytes;
  block_item = byte_string;
  block_hash = λ b. b;
  Utxo = Bytes;
  utxo_item = byte_string;
}

get_header_by_hash-add_headers_example :
    let d : Database Store Bytes = record { store = empty_store; tx = some empty_tx } in
    (d' : Database Store Bytes) × (add_headers byte_chain function_db ((171 ∷ []) ∷ []) d ≡ ok d')
    × (get_header_by_hash byte_chain function_db (171 ∷ []) d'
        ≡ elim (last_header byte_chain function_db (171 ∷ []) ((171 ∷ []) ∷ [])) [
          | some header ↦ ok (some header)
          | none ↦ get_header_by_hash byte_chain function_db (171 ∷ []) d
        ])
get_header_by_hash-add_headers_example =
    get_header_by_hash-add_headers byte_chain function_db (171 ∷ []) ((171 ∷ []) ∷ []) empty_store
      empty_tx (λ e. ground (arith, e)) (omega arith, tt) ((omega arith, tt), tt) (λ h. refl)
