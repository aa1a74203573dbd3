-- ===== src/Mmr/FileBackend/Entries.antt =====
-- The entries of the position file: where each leaf's data stands in the data file.
use mathlib.Core.List.{flatten}
use libmw_core.Common.{ℕ, zero, suc, ◌+◌, ◌^◌, ◌%◌, ◌<◌, ◌≡◌, refl, sym, ap, ◌∙◌, arith}
use libmw_core.Common.{List, [], ◌∷◌, ◌++◌, append-nil, length, length-append, offset, segment}
use libmw_core.Common.{offset-suc, Uniform}
use libmw_core.Exceptions.{ok}
use libmw_core.Util.EndianUtil.{Bytes, Platform, le_bytes}
use libmw_core.Serialization.{Deserializer, append_int, read_int, pure, ◌>>=◌}
use libmw_core.Serialization.Order.{be_bytes, append_int-be_bytes, length-reverse, length-le_bytes}
use libmw_core.Serialization.Appends.{RoundTrips-bind, RoundTrips-map}
use libmw_core.Serialization.RoundTrip.{standing}
use libmw_core.Serialization.Appends.{append_int-RoundTrips, RoundTrips-standing}
use libmw_core.Mmr.FileBackend.{PosEntry, read_entry, entry_bytes}

abbrev pub entry : ℕ → ℕ → PosEntry
entry position size = record { position = position; size = size }

module _ ⦃p : Platform⦄ where
  -- The entries of data that stand one behind the other, from a position on.
  abbrev pub entries : ℕ → List Bytes → List Bytes
  entries position [] = []
  entries position (v ∷ vs) = entry_bytes position (length v) ∷ entries (position + length v) vs

  pub entries-append :
      (o : ℕ) (xs ys : List Bytes)
      → entries o (xs ++ ys) ≡ entries o xs ++ entries (o + length (flatten xs)) ys
  unfolding flatten
  entries-append o [] ys = ap (λ n. entries n ys) (omega arith)
  entries-append o (x ∷ xs) ys =
      let sum : o + length x + length (flatten xs) ≡ o + length (x ++ flatten xs) =
        omega (arith, length-append x (flatten xs)) in
      ap (λ t. entry_bytes o (length x) ∷ t)
        (entries-append (o + length x) xs ys
          ∙ ap (λ n. entries (o + length x) xs ++ entries n ys) sum)

  pub length-entries : (o : ℕ) (xs : List Bytes) → length (entries o xs) ≡ length xs
  length-entries o [] = refl
  length-entries o (x ∷ xs) = ap suc (length-entries (o + length x) xs)

  length-be_bytes : (size v : ℕ) → length (be_bytes size v) ≡ size
  length-be_bytes size v = length-reverse (le_bytes size v) ∙ length-le_bytes size v

  pub length-entry_bytes : (position size : ℕ) → length (entry_bytes position size) ≡ 10
  unfolding entry_bytes
  length-entry_bytes position size =
      let first = append_int-be_bytes 8 position [] in
      let second = append_int-be_bytes 2 (size % 2 ^ 16) (append_int 8 position []) in
      omega (
        arith,
        ap length first,
        ap length second,
        length-append (append_int 8 position []) (be_bytes 2 (size % 2 ^ 16)),
        length-be_bytes 8 position,
        length-be_bytes 2 (size % 2 ^ 16),
      )

  pub entries-Uniform : (o : ℕ) (xs : List Bytes) → Uniform 10 (entries o xs)
  entries-Uniform o [] = tt
  entries-Uniform o (x ∷ xs) = (length-entry_bytes o (length x), entries-Uniform (o + length x) xs)

  pub segment-entries :
      (o : ℕ) (xs : List Bytes) (i : ℕ)
      → i < length xs
      → segment (entries o xs) i ≡ entry_bytes (o + offset xs i) (length (segment xs i))
  unfolding flatten
  segment-entries o [] i h = elim h [ ]
  segment-entries o (x ∷ xs) zero h =
      let e : o ≡ o + 0 = omega arith in ap (λ n. entry_bytes n (length x)) e
  segment-entries o (x ∷ xs) (suc i) h =
      let e : o + length x + offset xs i ≡ o + offset (x ∷ xs) (suc i) =
        omega (arith, offset-suc x xs i) in
      segment-entries (o + length x) xs i (omega arith)
      ∙ ap (λ n. entry_bytes n (length (segment xs i))) e

  -- An entry is read back from its bytes.
  pub read_entry-entry_bytes :
      (position size : ℕ)
      → position < 2 ^ 64
      → size < 2 ^ 16
      → (d : Deserializer) × (read_entry (record { index = 0; bytes = entry_bytes position size })
          ≡ ok (entry position size, d))
  unfolding read_entry entry_bytes
  read_entry-entry_bytes position size hp hs =
      let small : size % 2 ^ 16 ≡ size = omega arith in
      let write : Bytes → Bytes = λ s. append_int 2 size (append_int 8 position s) in
      let trip =
        RoundTrips-bind (append_int 8 position) (append_int 2 size) (read_int 8)
          (λ o. read_int 2 >>= λ n. pure (entry o n)) position (entry position size)
          (append_int-RoundTrips 8 position (omega arith))
          (RoundTrips-map (append_int 2 size) (read_int 2) (λ n. entry position n) size
            (append_int-RoundTrips 2 size (omega arith))) in
      let bytes = write [] in
      let len : length bytes ≡ 10 =
        ap (λ n. length (append_int 2 n (append_int 8 position []))) (sym small)
        ∙ length-entry_bytes position size in
      let fits : length (bytes ++ []) < 2 ^ 64 = rw (append-nil bytes) (omega arith) in
      let run =
        RoundTrips-standing {A = PosEntry} write read_entry (entry position size) [] [] trip fits in
      (standing bytes bytes, rw small (rw (append-nil bytes) at run))
