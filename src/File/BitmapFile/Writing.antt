-- ===== src/File/BitmapFile/Writing.antt =====
-- The changed bytes of `BitmapFile`, and what `File::WriteBytes` makes of them.
use libmw_core.Common.{ℕ, zero, suc, ◌<◌, ◌≡◌, inl, inr, refl, ◌∙◌, arith}
use libmw_core.Common.{Bool-cases, Option, Option-cases, none, some, [], ◌∷◌}
use libmw_core.Common.{get_or, ltb, ◌==◌, if◌then◌else◌, All, IsByte}
use libmw_core.Util.EndianUtil.{Bytes}
use libmw_core.File.BitmapFile.{ModifiedBytes, find_byte, insert_byte, write_byte, write_bytes}

-- All keys are larger than one number.
abbrev pub Above : ℕ → ModifiedBytes → Type 0
Above key ms = All (λ m. key < m.0) ms

-- The keys ascend, and the values are bytes.
abbrev pub IsOrdered : ModifiedBytes → Type 0
IsOrdered [] = Unit {0}
IsOrdered ((key, byte) ∷ rest) = IsByte byte × Above key rest × IsOrdered rest

pub find_byte-insert_byte :
    (key byte other : ℕ) (ms : ModifiedBytes)
    → find_byte other (insert_byte key byte ms)
      ≡ (if other == key then some byte else find_byte other ms)
unfolding find_byte insert_byte
find_byte-insert_byte key byte other [] = refl
find_byte-insert_byte key byte other ((key', byte') ∷ rest) =
    ground (arith, find_byte-insert_byte key byte other rest)

Above-weaken : (j k : ℕ) (ms : ModifiedBytes) → j < k → Above k ms → Above j ms
Above-weaken j k [] h a = tt
Above-weaken j k (m ∷ ms) h (a, rest_above) = (omega arith, Above-weaken j k ms h rest_above)

Above-insert_byte :
    (bound key byte : ℕ) (ms : ModifiedBytes)
    → bound < key
    → Above bound ms
    → Above bound (insert_byte key byte ms)
unfolding insert_byte
Above-insert_byte bound key byte [] h a = (h, tt)
Above-insert_byte bound key byte ((key', byte') ∷ rest) h (a, rest_above) =
    elim (Bool-cases (key == key')) [
      | inl e ↦ rw e (h, rest_above)
      | inr e ↦ elim (Bool-cases (ltb key key')) [
        | inl l ↦ rw (e, l) (h, (a, rest_above))
        | inr l ↦ rw (e, l) (a, Above-insert_byte bound key byte rest h rest_above)
      ]
    ]

pub IsOrdered-insert_byte :
    (key byte : ℕ) (ms : ModifiedBytes)
    → IsByte byte
    → IsOrdered ms
    → IsOrdered (insert_byte key byte ms)
unfolding insert_byte
IsOrdered-insert_byte key byte [] h o = (h, tt, tt)
IsOrdered-insert_byte key byte ((key', byte') ∷ rest) h (b, a, o) =
    elim (Bool-cases (key == key')) [
      | inl e ↦ let same : key ≡ key' = ground arith in rw (e, same) (h, a, o)
      | inr e ↦ elim (Bool-cases (ltb key key')) [
        | inl l ↦
            let less : key < key' = ground arith in
            rw (e, l) (h, (less, Above-weaken key key' rest less a), (b, a, o))
        | inr l ↦
            let less : key' < key = ground arith in
            rw (e, l)
              (
                b,
                Above-insert_byte key' key byte rest less a,
                IsOrdered-insert_byte key byte rest h o,
              )
      ]
    ]

find_byte-IsByte :
    (key byte : ℕ) (ms : ModifiedBytes) → IsOrdered ms → find_byte key ms ≡ some byte → IsByte byte
unfolding find_byte
find_byte-IsByte key byte [] o e = cc
find_byte-IsByte key byte ((key', byte') ∷ rest) (b, a, o) e =
    ground (arith, find_byte-IsByte key byte rest o, b)

get_or-write_byte :
    (i byte j : ℕ) (bs : Bytes)
    → get_or (write_byte i byte bs) j 0 ≡ (if j == i then byte else get_or bs j 0)
unfolding write_byte
get_or-write_byte zero byte zero [] = refl
get_or-write_byte zero byte (suc j) [] = ground arith
get_or-write_byte zero byte zero (b ∷ bs) = refl
get_or-write_byte zero byte (suc j) (b ∷ bs) = ground arith
get_or-write_byte (suc i) byte zero [] = ground arith
get_or-write_byte (suc i) byte (suc j) [] = ground (arith, get_or-write_byte i byte j [])
get_or-write_byte (suc i) byte zero (b ∷ bs) = ground arith
get_or-write_byte (suc i) byte (suc j) (b ∷ bs) = ground (arith, get_or-write_byte i byte j bs)

find_byte-Above : (key : ℕ) (ms : ModifiedBytes) → Above key ms → find_byte key ms ≡ none
unfolding find_byte
find_byte-Above key [] a = refl
find_byte-Above key ((key', byte) ∷ rest) (h, a) = ground (arith, find_byte-Above key rest a)

-- What is read at an index: the changed byte, or else the byte of the file.
abbrev pub byte_or : Option ℕ → ℕ → ℕ
byte_or none old = old
byte_or (some byte) old = byte

pub get_or-write_bytes :
    (j : ℕ) (ms : ModifiedBytes) (file : Bytes)
    → IsOrdered ms
    → get_or (write_bytes ms file) j 0 ≡ byte_or (find_byte j ms) (get_or file j 0)
unfolding write_bytes find_byte
get_or-write_bytes j [] file o = refl
get_or-write_bytes j ((key, byte) ∷ rest) file (b, a, o) =
    let ih = get_or-write_bytes j rest (write_byte key byte file) o in
    elim (Bool-cases (j == key)) [
      | inl e ↦
          let same : j ≡ key = ground arith in
          let later : find_byte j rest ≡ none = rw same (find_byte-Above key rest a) in
          ih ∙ rw (e, later, get_or-write_byte key byte j file, e) refl
      | inr e ↦ ih ∙ rw (e, get_or-write_byte key byte j file, e) refl
    ]

get_or-IsByte : (i : ℕ) (bs : Bytes) → All IsByte bs → IsByte (get_or bs i 0)
get_or-IsByte i [] h = omega arith
get_or-IsByte zero (b ∷ bs) (h, hs) = h
get_or-IsByte (suc i) (b ∷ bs) (h, hs) = get_or-IsByte i bs hs

write_byte-IsByte :
    (i byte : ℕ) (bs : Bytes) → IsByte byte → All IsByte bs → All IsByte (write_byte i byte bs)
unfolding write_byte
write_byte-IsByte zero byte [] h hs = (h, tt)
write_byte-IsByte zero byte (b ∷ bs) h (hb, hs) = (h, hs)
write_byte-IsByte (suc i) byte [] h hs = (omega arith, write_byte-IsByte i byte [] h tt)
write_byte-IsByte (suc i) byte (b ∷ bs) h (hb, hs) = (hb, write_byte-IsByte i byte bs h hs)

pub write_bytes-IsByte :
    (ms : ModifiedBytes) (file : Bytes)
    → IsOrdered ms
    → All IsByte file
    → All IsByte (write_bytes ms file)
unfolding write_bytes
write_bytes-IsByte [] file o h = h
write_bytes-IsByte ((key, byte) ∷ rest) file (b, a, o) h =
    write_bytes-IsByte rest (write_byte key byte file) o (write_byte-IsByte key byte file b h)

pub byte_or-IsByte :
    (j : ℕ) (ms : ModifiedBytes) (file : Bytes)
    → IsOrdered ms
    → All IsByte file
    → IsByte (byte_or (find_byte j ms) (get_or file j 0))
byte_or-IsByte j ms file o h = elim (Option-cases (find_byte j ms)) [
  | inl e ↦ rw e (get_or-IsByte j file h)
  | inr (byte, e) ↦ rw e (find_byte-IsByte j byte ms o e)
]
