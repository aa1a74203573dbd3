-- ===== src/Db/BlockDb/Headers.antt =====
-- Headers that are added are found by their hash.
use libmw_core.Common.{
  ◌≢◌, ◌≡◌, refl, sym, ap, ◌∙◌, arith, Bool-cases, inl, inr, Option, none, some,
}
use libmw_core.Common.{List, [], ◌∷◌, map, bytes_eq, bytes_eq_iff, bytes_eq-false, All, IsByte}
use libmw_core.Common.{if◌then◌else◌, Option-cases}
use libmw_core.Exceptions.{ok}
use libmw_core.Util.EndianUtil.{Bytes}
use libmw_core.Util.HexUtil.{to_hex, from_hex, from_hex-to_hex}
use libmw_core.Models.Tx.{Hash}
use libmw_core.Db.{LevelDb, Serializable}
use libmw_core.Db.DbTransaction.{DbTransaction}
use libmw_core.Db.DbTransaction
use libmw_core.Db.DbTransaction.Reads.{last_item, get-put}
use libmw_core.Db.Database.{Database, get, put}
use libmw_core.Db.BlockDb.{Chain, header_table, get_header_by_hash, add_headers, to_header_entry}

-- Two hashes have the same key only if they are the same.
to_hex_inj : (a b : Bytes) → All IsByte a → All IsByte b → to_hex a ≡ to_hex b → a ≡ b
to_hex_inj a b ha hb e = sym (from_hex-to_hex a ha) ∙ ap from_hex e ∙ from_hex-to_hex b hb

bytes_eq-to_hex :
    (a b : Bytes) → All IsByte a → All IsByte b → bytes_eq (to_hex a) (to_hex b) ≡ bytes_eq a b
bytes_eq-to_hex a b ha hb = elim (Bool-cases (bytes_eq a b)) [
  | inl e ↦ (bytes_eq_iff (to_hex a) (to_hex b)).1 (ap to_hex ((bytes_eq_iff a b).0 e)) ∙ sym e
  | inr e ↦
      bytes_eq-false (to_hex a) (to_hex b)
        (λ same. absurd (ground (arith, sym e ∙ (bytes_eq_iff a b).1 (to_hex_inj a b ha hb same))))
      ∙ sym e
]

module _ {o : Serializable} (chain : Chain o) {S : Type 0} (db : LevelDb S) where
  -- The last of the headers that has the hash.
  pub last_header : Hash → List chain.Header → Option chain.Header
  last_header hash [] = none
  last_header hash (header ∷ headers) = elim (last_header hash headers) [
    | some h ↦ some h
    | none ↦ if bytes_eq hash (chain.header_hash header) then some header else none
  ]

  last_item-entries :
      (hash : Hash) (headers : List chain.Header)
      → All IsByte hash
      → All (λ h. All IsByte (chain.header_hash h)) headers
      → last_item o chain.header_item (to_hex hash) (map (to_header_entry chain db) headers)
        ≡ last_header hash headers
  unfolding last_item last_header
  last_item-entries hash [] hh hs = refl
  last_item-entries hash (header ∷ headers) hh (hx, hs) =
      let ih = last_item-entries hash headers hh hs in
      elim (Option-cases (last_header hash headers)) [
        | inr (h, e) ↦ rw (ih, e) refl
        | inl e ↦ rw (ih, e, bytes_eq-to_hex hash (chain.header_hash header) hh hx) refl
      ]

  -- In an open batch `AddHeaders` of some headers returns, and `GetHeaderByHash` then finds the last added header of
  -- a hash. A hash that none of them has is answered as before. The hashes are bytes, and a header
  -- is cast back from its base class.
  pub get_header_by_hash-add_headers :
      (hash : Hash) (headers : List chain.Header) (s : S) (tx : DbTransaction o.Object)
      → headers ≢ []
      → All IsByte hash
      → All (λ h. All IsByte (chain.header_hash h)) headers
      → ((h : chain.Header) → chain.header_item.dynamic_cast (chain.header_item.upcast h) ≡ some h)
      → let d : Database S o.Object = record { store = s; tx = some tx } in
        (d' : Database S o.Object) × (add_headers chain db headers d ≡ ok d')
        × (get_header_by_hash chain db hash d' ≡ elim (last_header hash headers) [
          | some header ↦ ok (some header)
          | none ↦ get_header_by_hash chain db hash d
        ])
  unfolding add_headers get_header_by_hash put get
  get_header_by_hash-add_headers hash [] s tx some_headers hh hs casts = absurd (some_headers refl)
  get_header_by_hash-add_headers hash (first ∷ rest) s tx some_headers hh hs casts =
      let headers = first ∷ rest in
      let entries = map (to_header_entry chain db) headers in
      let tx' = DbTransaction.put o chain.header_item header_table entries tx in
      let found = get-put o chain.header_item db s header_table (to_hex hash) entries tx casts in
      (
        record { store = s; tx = some tx' },
        refl,
        elim (Option-cases (last_header hash headers)) [
          | inl e ↦ rw (found, last_item-entries hash headers hh hs, e) refl
          | inr (h, e) ↦ rw (found, last_item-entries hash headers hh hs, e) refl
        ],
      )
