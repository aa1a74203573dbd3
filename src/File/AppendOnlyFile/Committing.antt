-- ===== src/File/AppendOnlyFile/Committing.antt =====
-- `Commit` of an `AppendOnlyFile`: when the file holds afterwards what it held before.
use libmw_core.Common.{
  ℕ, ◌+◌, ◌-◌, ◌≤◌, ◌<◌, ◌≡◌, ◌⊎◌, inl, inr, refl, sym, ap, ◌∙◌, arith, true, false, Bool,
  Bool-cases,
}
use libmw_core.Common.{
  [], ◌∷◌, ◌++◌, append-nil, length, length-append, length-take, take, take-length,
}
use libmw_core.Common.{take-append_left, resize, u64_mod, ltb, ◌==◌, ◌&&◌}
use libmw_core.Exceptions.{ok}
use libmw_core.Util.EndianUtil.{Bytes}
use libmw_core.Serialization.Reads.{ltb_ge}
use libmw_core.File.{write_at}
use libmw_core.File.AppendOnlyFile.{AppendOnlyFile, load, commit}
use libmw_core.File.AppendOnlyFile.Contents.{IsValid, contents}

write_at-resize :
    (i : ℕ) (bs file : Bytes) → write_at i bs true file ≡ resize (i + length bs) 0 (file ++ bs)
unfolding write_at
write_at-resize i [] file = ap (resize (i + 0) 0) (sym (append-nil file))
write_at-resize i (b ∷ bs) file = refl

resize_within : (n : ℕ) (xs : Bytes) → n ≤ length xs → resize n 0 xs ≡ take n xs
resize_within n xs h =
    let none : n - length xs ≡ 0 = omega arith in rw none (append-nil (take n xs))

empty_of : (bs : Bytes) → (length bs == 0) ≡ true → bs ≡ []
empty_of [] e = refl
empty_of (b ∷ bs) e = absurd (ground arith)

and_left : (m n : ℕ) (c : Bool) → (m == n && c) ≡ true → m ≡ n
and_left m n c e = ground arith

and_right : (b c : Bool) → (b && c) ≡ true → c ≡ true
and_right b c e = ground arith

pub load-IsValid : (file : Bytes) → length file < u64_mod → IsValid (load file)
unfolding load
load-IsValid file h = record {
  mapped = refl;
  size = refl;
  within = omega arith;
  addressable = omega arith;
}

pub contents-load : (file : Bytes) → contents (load file) ≡ file
unfolding contents load
contents-load file = append-nil (take (length file) file) ∙ take-length file

module _ (s : AppendOnlyFile) (v : IsValid s) where
  -- The bytes that the file has after a commit.
  abbrev pub written : Bytes
  written = take (s.buffer_index + length s.buffer) (s.file ++ s.buffer)

  nothing_new : s.buffer_index ≡ length s.file → s.buffer ≡ [] → written ≡ s.file
  nothing_new e none =
      let sum : length s.file + 0 ≡ length s.file = omega arith in
      rw (none, e, append-nil s.file, sum) (take-length s.file)

  nothing_held : s.buffer_index ≡ length s.file → s.buffer ≡ [] → contents s ≡ s.file
  unfolding contents
  nothing_held e none = rw (none, e) (append-nil (take (length s.file) s.file) ∙ take-length s.file)

  write_at-written : write_at s.buffer_index s.buffer true s.file ≡ written
  write_at-written =
      write_at-resize s.buffer_index s.buffer s.file
      ∙ resize_within (s.buffer_index + length s.buffer) (s.file ++ s.buffer)
          (omega (arith, length-append s.file s.buffer, v.within))

  length-written : length written < u64_mod
  length-written = omega (
    arith,
    length-take (s.buffer_index + length s.buffer) (s.file ++ s.buffer),
    length-append s.file s.buffer,
    v.addressable,
  )

  pub commit_run :
      (s' : AppendOnlyFile) × (commit s ≡ ok s')
      × IsValid s'
      × (s'.file ≡ written)
      × (contents s' ≡ written)
      × (s'.buffer_index ≡ length s'.file)
      × (s'.buffer ≡ [])
  unfolding commit
  commit_run =
      let w = write_at s.buffer_index s.buffer true s.file in
      elim (Bool-cases (s.file_size == s.buffer_index && length s.buffer == 0)) [
        | inl e ↦
            let at_end : s.buffer_index ≡ length s.file =
              sym (and_left s.file_size s.buffer_index (length s.buffer == 0) e) ∙ v.size in
            let none : s.buffer ≡ [] =
              empty_of s.buffer
                (and_right (s.file_size == s.buffer_index) (length s.buffer == 0) e) in
            (
              s,
              rw e,
              v,
              sym (nothing_new at_end none),
              nothing_held at_end none ∙ sym (nothing_new at_end none),
              at_end,
              none,
            )
        | inr e ↦
            let fits : ltb s.file_size s.buffer_index ≡ false =
              ltb_ge s.file_size s.buffer_index (omega (arith, v.size, v.within)) in
            (
              load w,
              rw (e, fits) refl,
              load-IsValid w (rw write_at-written length-written),
              unfold load in write_at-written,
              contents-load w ∙ write_at-written,
              unfold load in refl,
              unfold load in refl,
            )
      ]

  pub contents-written : (s.buffer_index ≡ length s.file) ⊎ (s.buffer ≡ []) → contents s ≡ written
  unfolding contents
  contents-written (inl e) =
      rw (e, take-length s.file)
        (sym (
          ap (λ n. take n (s.file ++ s.buffer)) (sym (length-append s.file s.buffer))
          ∙ take-length (s.file ++ s.buffer)))
  contents-written (inr none) =
      let sum : s.buffer_index + 0 ≡ s.buffer_index = omega arith in
      rw (none, append-nil s.file, sum) (append-nil (take s.buffer_index s.file))

  -- `Commit` returns. If nothing is rewound into the file, or nothing is appended since, then the
  -- file has the bytes that were held before, and holds the same bytes. But if bytes are appended
  -- behind a rewind that was further, none of them is written: the file keeps its own old bytes up
  -- to the new size.
  pub contents-commit :
      (s' : AppendOnlyFile) × (commit s ≡ ok s')
      × IsValid s'
      × ((s.buffer_index ≡ length s.file) ⊎ (s.buffer ≡ [])
          → (s'.file ≡ contents s) × (contents s' ≡ contents s))
      × (s.buffer_index + length s.buffer ≤ length s.file
          → s'.file ≡ take (s.buffer_index + length s.buffer) s.file)
  contents-commit =
      let (s', run, valid, file, held, at_end, empty) = commit_run in
      (
        s',
        run,
        valid,
        (λ clean. (file ∙ sym (contents-written clean), held ∙ sym (contents-written clean))),
        (λ lost. file ∙ take-append_left (s.buffer_index + length s.buffer) s.file s.buffer lost),
      )
