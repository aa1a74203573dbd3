-- ===== src/Db/BlockDb.antt =====
-- src/db/BlockDB.h, src/db/BlockDB.cpp and src/db/ChainStore.cpp: headers, blocks and UTXOs.
pub mod Headers
use libmw_core.Common.{
  ℕ, Option, none, some, List, [], ◌∷◌, ◌++◌, map, false, true, bytes_eq, if◌then◌else◌,
}
use libmw_core.Exceptions.{Result, ok, err, undefined, ◌>>=◌}
use libmw_core.Util.EndianUtil.{Bytes}
use libmw_core.Util.HexUtil.{to_hex}
use libmw_core.Models.Tx.{Hash, Commitment}
use libmw_core.Db.{LevelDb, Serializable, ItemType, DbEntry, DbTable}
use libmw_core.Db.Database.{Database}
use libmw_core.Db.Database

-- HEADER_TABLE, BLOCK_TABLE and UTXO_TABLE
abbrev pub header_table : DbTable
header_table = record { prefix = 72; allow_duplicates = false }

abbrev pub block_table : DbTable
block_table = record { prefix = 66; allow_duplicates = false }

abbrev pub utxo_table : DbTable
utxo_table = record { prefix = 85; allow_duplicates = true }

-- The classes of each coin: headers, blocks and UTXOs, with the hash of a header and of a block.
pub record Chain (o : Serializable) : Type 1 where
  pub Header : Type 0
  pub header_item : ItemType o Header
  pub header_hash : Header → Hash
  pub Block : Type 0
  pub block_item : ItemType o Block
  pub block_hash : Block → Hash
  pub Utxo : Type 0
  pub utxo_item : ItemType o Utxo

-- `ChainStore::GetHashByHeight`, which is still to be implemented.
abbrev pub get_hash_by_height : ℕ → Option Hash
get_hash_by_height height = none

abbrev pub item_of : {T : Type 0} → Option (DbEntry T) → Option T
item_of none = none
item_of (some entry) = some entry.item

-- `insert` of an `std::unordered_map`: an element with the same key stays.
unfoldable pub insert_utxo :
    {V : Type 0} → Commitment → V → List (Commitment × V) → List (Commitment × V)
insert_utxo key value [] = (key, value) ∷ []
insert_utxo key value ((k, v) ∷ utxos) =
    let rest = insert_utxo key value utxos in
    if bytes_eq key k then (k, v) ∷ utxos else (k, v) ∷ rest

module _ {o : Serializable} (chain : Chain o) {S : Type 0} (db : LevelDb S) where
  -- `GetHeaderByHash`
  unfoldable pub get_header_by_hash : Hash → Database S o.Object → Result (Option chain.Header)
  get_header_by_hash hash d =
      Database.get o db chain.header_item header_table (to_hex hash) d >>= λ entry.
      ok (item_of entry)

  -- The loop of `GetHeadersByHash`, which leaves out what it does not find.
  unfoldable pub get_headers_by_hash : List Hash → Database S o.Object → Result (List chain.Header)
  unfolding get_header_by_hash
  get_headers_by_hash [] d = ok []
  get_headers_by_hash (hash ∷ hashes) d = get_header_by_hash hash d >>= λ found.
      get_headers_by_hash hashes d >>= λ headers.
      ok (elim found [ none ↦ headers | some header ↦ header ∷ headers ])

  -- `ToHeaderEntry` and `ToBlockEntry`
  abbrev pub to_header_entry : chain.Header → DbEntry chain.Header
  to_header_entry header = record { key = to_hex (chain.header_hash header); item = header }

  abbrev pub to_block_entry : chain.Block → DbEntry chain.Block
  to_block_entry block = record { key = to_hex (chain.block_hash block); item = block }

  -- `AddHeader` and `AddHeaders`
  unfoldable pub add_headers :
      List chain.Header → Database S o.Object → Result (Database S o.Object)
  add_headers headers d =
      Database.put o db chain.header_item header_table (map to_header_entry headers) d

  unfoldable pub add_header : chain.Header → Database S o.Object → Result (Database S o.Object)
  add_header header d =
      Database.put o db chain.header_item header_table (to_header_entry header ∷ []) d

  -- `GetBlockByHash`
  unfoldable pub get_block_by_hash : Hash → Database S o.Object → Result (Option chain.Block)
  get_block_by_hash hash d =
      Database.get o db chain.block_item block_table (to_hex hash) d >>= λ entry. ok (item_of entry)

  -- `GetBlockByHeight`
  unfoldable pub get_block_by_height : ℕ → Database S o.Object → Result (Option chain.Block)
  unfolding get_block_by_hash
  get_block_by_height height d = elim (get_hash_by_height height) [
    | some hash ↦ get_block_by_hash hash d
    | none ↦ ok none
  ]

  -- `AddBlock`
  unfoldable pub add_block : chain.Block → Database S o.Object → Result (Database S o.Object)
  add_block block d = Database.put o db chain.block_item block_table (to_block_entry block ∷ []) d

  -- The loop of `GetUTXOs`, over the `std::unordered_map` that it fills.
  unfoldable pub utxos_loop :
      List Commitment
      → List (Commitment × chain.Utxo)
      → Database S o.Object
      → Result (List (Commitment × chain.Utxo))
  unfolding insert_utxo
  utxos_loop [] utxos d = ok utxos
  utxos_loop (commitment ∷ commitments) utxos d =
      Database.get o db chain.utxo_item utxo_table (to_hex commitment) d >>= λ entry.
      utxos_loop commitments
        (elim entry [ none ↦ utxos | some e ↦ insert_utxo commitment e.item utxos ]) d

  -- `GetUTXOs`
  unfoldable pub get_utxos :
      List Commitment → Database S o.Object → Result (List (Commitment × chain.Utxo))
  unfolding utxos_loop
  get_utxos commitments d = utxos_loop commitments [] d
