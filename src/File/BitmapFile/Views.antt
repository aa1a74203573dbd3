-- ===== src/File/BitmapFile/Views.antt =====
-- The bits that a `BitmapFile` shows, along its operations.
use libmw_core.Common.{
  ℕ, zero, suc, ◌/◌, ◌%◌, ◌<◌, ◌≡◌, ◌⊎◌, inl, inr, refl, sym, ◌∙◌, ap, arith, true, false,
}
use libmw_core.Common.{Bool-cases, not, ◌&&◌, ◌||◌, Option-cases, [], ◌∷◌}
use libmw_core.Common.{length, get_or, ltb, ◌==◌, if◌then◌else◌, All, IsByte}
use libmw_core.Util.EndianUtil.{Bytes}
use libmw_core.File.BitmapFile.{
  ModifiedBytes, is_empty, BitmapFile, find_byte, insert_byte, write_bytes, load_bitmap, commit,
}
use libmw_core.File.BitmapFile.{rollback, get_byte, is_set, set, unset}
use libmw_core.File.BitmapFile.Bits.{bit_of, set_bit, unset_bit, bit-set, bit-unset, bits_bound}
use libmw_core.File.BitmapFile.Writing.{IsOrdered, IsOrdered-insert_byte, byte_or, byte_or-IsByte}
use libmw_core.File.BitmapFile.Writing.{
  find_byte-insert_byte, get_or-write_bytes, write_bytes-IsByte,
}

-- The map shows the file, and everything is a byte.
pub record IsValid (s : BitmapFile) : Type 0 where
  pub mapped : s.mapped ≡ s.file
  pub ordered : IsOrdered s.modified
  pub bytes : All IsByte s.file

get_or_beyond :
    (i : ℕ) (bs : Bytes) → (if ltb i (length bs) then get_or bs i 0 else 0) ≡ get_or bs i 0
get_or_beyond i [] = ground arith
get_or_beyond zero (b ∷ bs) = ground arith
get_or_beyond (suc i) (b ∷ bs) = ground (arith, get_or_beyond i bs)

pub load_bitmap-IsValid : (file : Bytes) → All IsByte file → IsValid (load_bitmap file)
unfolding load_bitmap
load_bitmap-IsValid file h = record { mapped = refl; ordered = tt; bytes = h }

-- The state behind `Set` or `Unset` of a bit, with the byte that it stores.
abbrev stored : ℕ → ℕ → BitmapFile → BitmapFile
stored i byte s = record s { dirty = true; modified = insert_byte i byte s.modified }

module _ (s : BitmapFile) (v : IsValid s) where
  byte_at : (i : ℕ) → get_byte i s ≡ byte_or (find_byte i s.modified) (get_or s.file i 0)
  unfolding get_byte
  byte_at i = elim (Option-cases (find_byte i s.modified)) [
    | inl e ↦
        rw (get_byte, e)
          (ap (λ m. if ltb i (length m) then get_or m i 0 else 0) v.mapped ∙ get_or_beyond i s.file)
    | inr (byte, e) ↦ rw (get_byte, e) refl
  ]

  byte_at-IsByte : (i : ℕ) → get_byte i s < 256
  byte_at-IsByte i = rw (byte_at i) (byte_or-IsByte i s.modified s.file v.ordered v.bytes)

  byte_at-stored :
      (i byte j : ℕ) → get_byte j (stored i byte s) ≡ (if j == i then byte else get_byte j s)
  unfolding get_byte
  byte_at-stored i byte j = elim (Bool-cases (j == i)) [
    | inl e ↦ rw (get_byte, find_byte-insert_byte i byte j s.modified, e) refl
    | inr e ↦ rw (get_byte, find_byte-insert_byte i byte j s.modified, e) refl
  ]

  stored-IsValid : (i byte : ℕ) → IsByte byte → IsValid (stored i byte s)
  stored-IsValid i byte h = record {
    mapped = v.mapped;
    ordered = IsOrdered-insert_byte i byte s.modified h v.ordered;
    bytes = v.bytes;
  }

  same_bit : (p q : ℕ) → (q / 8 == p / 8) ≡ true → (q % 8 == p % 8) ≡ (q == p)
  same_bit p q e = ground arith

  other_bit : (p q : ℕ) → (q / 8 == p / 8) ≡ false → (q == p) ≡ false
  other_bit p q e = ground arith

  -- `Set` and `Unset` change the bit at their position and no other, and keep the file valid.
  pub is_set-set :
      (p q : ℕ)
      → (is_set q (set p s) ≡ (q == p || is_set q s))
        × (is_set q (unset p s) ≡ (not (q == p) && is_set q s))
        × IsValid (set p s)
        × IsValid (unset p s)
  unfolding is_set set unset
  is_set-set p q =
      let b = get_byte (p / 8) s in
      let bounds =
        bits_bound b (p % 8) (q % 8) (byte_at-IsByte (p / 8)) (omega arith) (omega arith) in
      let valid_set = stored-IsValid (p / 8) (set_bit b (p % 8)) bounds.0 in
      let valid_unset = stored-IsValid (p / 8) (unset_bit b (p % 8)) bounds.1 in
      elim (Bool-cases (q / 8 == p / 8)) [
        | inl e ↦
            let there : q / 8 ≡ p / 8 = ground arith in
            (
              rw (byte_at-stored (p / 8) (set_bit b (p % 8)) (q / 8), e, there)
                  (bit-set b (p % 8) (q % 8) (byte_at-IsByte (p / 8)) (omega arith) (omega arith)
                    ∙ ap (λ c. c || bit_of b (q % 8)) (same_bit p q e)),
              rw (byte_at-stored (p / 8) (unset_bit b (p % 8)) (q / 8), e, there)
                  (bit-unset b (p % 8) (q % 8) (byte_at-IsByte (p / 8)) (omega arith) (omega arith)
                    ∙ ap (λ c. not c && bit_of b (q % 8)) (same_bit p q e)),
              valid_set,
              valid_unset,
            )
        | inr e ↦ (
          rw (byte_at-stored (p / 8) (set_bit b (p % 8)) (q / 8), e, other_bit p q e) refl,
          rw (byte_at-stored (p / 8) (unset_bit b (p % 8)) (q / 8), e, other_bit p q e) refl,
          valid_set,
          valid_unset,
        )
      ]

is_empty-≡ : (ms : ModifiedBytes) → is_empty ms ≡ true → ms ≡ []
is_empty-≡ [] e = refl
is_empty-≡ (m ∷ ms) e = cc

module _ (s : BitmapFile) (v : IsValid s) where
  -- A commit writes the changed bytes in the order of the map.
  abbrev written : Bytes
  written = write_bytes s.modified s.file

  written-IsByte : All IsByte written
  written-IsByte = write_bytes-IsByte s.modified s.file v.ordered v.bytes

  pub commit-cases : ((s.modified ≡ []) × (commit s ≡ s)) ⊎ (commit s ≡ load_bitmap written)
  unfolding commit load_bitmap
  commit-cases = elim (Bool-cases (is_empty s.modified)) [
    | inl e ↦ inl (is_empty-≡ s.modified e, rw e refl)
    | inr e ↦ inr (rw e refl)
  ]

  byte_at-loaded : (j : ℕ) → get_byte j (load_bitmap written) ≡ get_byte j s
  unfolding load_bitmap find_byte
  byte_at-loaded j =
      byte_at (load_bitmap written) (load_bitmap-IsValid written written-IsByte) j
      ∙ get_or-write_bytes j s.modified s.file v.ordered
      ∙ sym (byte_at s v j)

  file_written : s.modified ≡ [] → s.file ≡ written
  unfolding write_bytes
  file_written e = sym (ap (λ ms. write_bytes ms s.file) e)

  pub commit-written : (commit s).file ≡ written
  unfolding load_bitmap
  commit-written = elim commit-cases [
    | inl (e, same) ↦ ap (λ t. t.file) same ∙ file_written e
    | inr e ↦ ap (λ t. t.file) e
  ]

  commit-IsValid : IsValid (commit s)
  commit-IsValid = elim commit-cases [
    | inl (e, same) ↦ rw same v
    | inr e ↦ rw e (load_bitmap-IsValid written written-IsByte)
  ]

  byte_at-commit : (j : ℕ) → get_byte j (commit s) ≡ get_byte j s
  byte_at-commit j = elim commit-cases [
    | inl (e, same) ↦ ap (get_byte j) same
    | inr e ↦ ap (get_byte j) e ∙ byte_at-loaded j
  ]

  rollback-IsValid : IsValid (rollback s)
  unfolding rollback
  rollback-IsValid = record { mapped = v.mapped; ordered = tt; bytes = v.bytes }

  -- A commit leaves every bit as it is shown, and the file that is loaded afterwards shows the same
  -- bits. A rollback shows the bits of the file again. Both keep the file valid.
  pub is_set-commit :
      (q : ℕ)
      → (is_set q (commit s) ≡ is_set q s)
        × (is_set q (load_bitmap (commit s).file) ≡ is_set q s)
        × (is_set q (rollback s) ≡ is_set q (load_bitmap s.file))
        × IsValid (commit s)
        × IsValid (rollback s)
  unfolding is_set rollback load_bitmap
  is_set-commit q =
      let shown : (b c : ℕ) → b ≡ c → bit_of b (q % 8) ≡ bit_of c (q % 8) =
        λ b c e. ap (λ b. bit_of b (q % 8)) e in
      (
        shown (get_byte (q / 8) (commit s)) (get_byte (q / 8) s) (byte_at-commit (q / 8)),
        shown (get_byte (q / 8) (load_bitmap (commit s).file)) (get_byte (q / 8) s)
            (ap (λ f. get_byte (q / 8) (load_bitmap f)) commit-written ∙ byte_at-loaded (q / 8)),
        shown (get_byte (q / 8) (rollback s)) (get_byte (q / 8) (load_bitmap s.file)) (
            byte_at (rollback s) rollback-IsValid (q / 8)
            ∙ sym (byte_at (load_bitmap s.file) (load_bitmap-IsValid s.file v.bytes) (q / 8))),
        commit-IsValid,
        rollback-IsValid,
      )
