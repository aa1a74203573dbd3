-- ===== src/File/AppendOnlyFile/Contents.antt =====
-- What an `AppendOnlyFile` holds: the file up to the buffer index, and then the buffer.
use libmw_core.Common.{ℕ, ◌+◌, ◌-◌, ◌≤◌, ◌<◌, ◌≡◌, ◌⊎◌, inl, inr, refl, sym, ap, ◌∙◌, arith}
use libmw_core.Common.{
  [], ◌++◌, append_assoc, append-nil, length, length-append, length-take, length-drop, take, drop,
}
use libmw_core.Common.{take-length, take-append_left, take-append_right, take-take, take-drop-take}
use libmw_core.Common.{drop-append_left, drop-append_right, u64_mod, add64, lt-or-le, lt→ltb}
use libmw_core.Common.{le→leb, lt→leb}
use libmw_core.Common.{==_iff, ◌==◌, true, false}
use libmw_core.Exceptions.{ok, err, undefined, file_exception}
use libmw_core.Util.EndianUtil.{Bytes}
use libmw_core.Serialization.{slice}
use libmw_core.Serialization.Reads.{ltb_ge}
use libmw_core.File.AppendOnlyFile.{AppendOnlyFile, rollback, append, rewind, get_size, read}

-- A rewind has moved the index back, or it stands at the end of the file.
pub record IsValid (s : AppendOnlyFile) : Type 0 where
  pub mapped : s.mapped ≡ s.file
  pub size : s.file_size ≡ length s.file
  pub within : s.buffer_index ≤ length s.file
  pub addressable : length s.file + length s.buffer < u64_mod

unfoldable pub contents : AppendOnlyFile → Bytes
contents s = take s.buffer_index s.file ++ s.buffer

module _ (s : AppendOnlyFile) (v : IsValid s) where
  index_length : length (take s.buffer_index s.file) ≡ s.buffer_index
  index_length = omega (arith, length-take s.buffer_index s.file, v.within)

  length-contents : length (contents s) ≡ s.buffer_index + length s.buffer
  unfolding contents
  length-contents =
      length-append (take s.buffer_index s.file) s.buffer
      ∙ ap (λ n. n + length s.buffer) index_length

  end_of_buffer : add64 s.buffer_index (length s.buffer) ≡ length (contents s)
  end_of_buffer = omega (arith, length-contents, v.within, v.addressable)

  -- `GetSize`, `Append` and `Rollback` on the bytes that the file holds: their number, more bytes
  -- behind them, and what is on the disk.
  pub contents-append :
      (bytes : Bytes)
      → (get_size s ≡ length (contents s))
        × (contents (append bytes s) ≡ contents s ++ bytes)
        × (contents (rollback s) ≡ s.file)
  unfolding contents append rollback get_size
  contents-append bytes = (
    end_of_buffer,
    sym (append_assoc (take s.buffer_index s.file) s.buffer bytes),
    rw v.size (append-nil (take (length s.file) s.file) ∙ take-length s.file),
  )

  rewind_index : (n : ℕ) → n ≤ s.buffer_index → take n (contents s) ≡ take n s.file ++ []
  unfolding contents
  rewind_index n h =
      take-append_left n (take s.buffer_index s.file) s.buffer (omega (arith, index_length))
      ∙ take-take n s.buffer_index s.file h
      ∙ sym (append-nil (take n s.file))

  rewind_buffer :
      (n : ℕ)
      → s.buffer_index ≤ n
      → take n (contents s) ≡ take s.buffer_index s.file ++ take (n - s.buffer_index) s.buffer
  unfolding contents
  rewind_buffer n h =
      let split : n ≡ length (take s.buffer_index s.file) + (n - s.buffer_index) =
        omega (arith, index_length) in
      ap (λ m. take m (take s.buffer_index s.file ++ s.buffer)) split
      ∙ take-append_right (n - s.buffer_index) (take s.buffer_index s.file) s.buffer

  rewind_unmoved :
      (n : ℕ)
      → (s.file_size == s.buffer_index) ≡ true
      → (n ≤ length (contents s)
          → (s' : AppendOnlyFile) × (rewind n s ≡ ok s')
            × IsValid s'
            × (contents s' ≡ take n (contents s)))
        × (length (contents s) < n → rewind n s ≡ err file_exception)
  unfolding rewind
  rewind_unmoved n unmoved =
      let within = v.within in
      let addressable = v.addressable in
      (
        λ reached. elim (lt-or-le s.buffer_index n) [
          | inr low ↦
              let s' : AppendOnlyFile = record s { buffer = []; buffer_index = n } in
              (
                s',
                rw
                    (
                      unmoved,
                      end_of_buffer,
                      ltb_ge (length (contents s)) n reached,
                      le→leb n s.buffer_index low,
                    )
                    refl,
                record {
                  mapped = v.mapped;
                  size = v.size;
                  within = omega arith;
                  addressable = omega arith;
                },
                unfold contents in sym (rewind_index n low),
              )
          | inl high ↦
              let kept = take (n - s.buffer_index) s.buffer in
              let s' : AppendOnlyFile = record s { buffer = kept } in
              (
                s',
                rw
                    (
                      unmoved,
                      end_of_buffer,
                      ltb_ge (length (contents s)) n reached,
                      lt→leb n s.buffer_index high,
                    )
                    refl,
                record {
                  mapped = v.mapped;
                  size = v.size;
                  within = within;
                  addressable = omega (arith, length-take (n - s.buffer_index) s.buffer);
                },
                unfold contents in sym (rewind_buffer n (omega arith)),
              )
        ],
        λ beyond. rw (unmoved, end_of_buffer, lt→ltb (length (contents s)) n beyond) refl,
      )

  -- `Rewind` to a size that the file has reached keeps that many of its bytes; beyond it throws. That
  -- is where the buffer index stands at the end of the file. Where an earlier `Rewind` has moved it
  -- back into the file, the assert fails.
  pub contents-rewind :
      (n : ℕ)
      → (s.buffer_index ≡ length s.file
          → (n ≤ length (contents s)
              → (s' : AppendOnlyFile) × (rewind n s ≡ ok s')
                × IsValid s'
                × (contents s' ≡ take n (contents s)))
            × (length (contents s) < n → rewind n s ≡ err file_exception))
        × (s.buffer_index < length s.file → rewind n s ≡ undefined)
  unfolding rewind
  contents-rewind n = (
    (λ at_end. rewind_unmoved n ((==_iff s.file_size s.buffer_index).1 (v.size ∙ sym at_end))),
    (λ moved.
        let apart : (s.file_size == s.buffer_index) ≡ false = (let size = v.size in ground arith) in
        rw apart refl),
  )

  read_file :
      (position n : ℕ)
      → position + n ≤ s.buffer_index
      → take n (drop position s.file) ≡ take n (drop position (contents s))
  unfolding contents
  read_file position n h =
      let inside : position + n ≤ length (take s.buffer_index s.file) =
        omega (arith, index_length) in
      let rest : n ≤ length (drop position (take s.buffer_index s.file)) =
        omega (arith, length-drop position (take s.buffer_index s.file)) in
      sym (take-drop-take n position s.buffer_index s.file h)
      ∙ sym (take-append_left n (drop position (take s.buffer_index s.file)) s.buffer rest)
      ∙ ap (take n)
          (sym (drop-append_left position (take s.buffer_index s.file) s.buffer (omega arith)))

  read_buffered :
      (position n : ℕ)
      → position + n < u64_mod
      → position + n ≤ length (contents s)
      → s.buffer_index ≤ position
      → read position n s ≡ ok (take n (drop position (contents s)))
  unfolding read slice
  read_buffered position n fits held after =
      let sum : add64 position n ≡ position + n = omega arith in
      let first = take s.buffer_index s.file in
      let split : length first + (position - s.buffer_index) ≡ position =
        omega (arith, index_length) in
      let same : drop position (contents s) ≡ drop (position - s.buffer_index) s.buffer =
        unfold contents in
        ap (λ m. drop m (first ++ s.buffer)) (sym split)
        ∙ drop-append_right (position - s.buffer_index) first s.buffer in
      rw
        (
          end_of_buffer,
          sum,
          ltb_ge (length (contents s)) (position + n) held,
          ltb_ge position s.buffer_index after,
          ltb_ge (length s.buffer) (position - s.buffer_index + n) (omega (arith, length-contents)),
          same,
        )
        refl

  -- `Read` of a range that the file holds returns it if the range does not cross the buffer index,
  -- and throws if the range passes the end (and its end is a 64-bit number).
  pub read-contents :
      (position n : ℕ)
      → position + n < u64_mod
      → (position + n ≤ length (contents s)
          → (position + n ≤ s.buffer_index) ⊎ (s.buffer_index ≤ position)
          → read position n s ≡ ok (take n (drop position (contents s))))
        × (length (contents s) < position + n → read position n s ≡ err file_exception)
  unfolding read slice contents
  read-contents position n fits =
      let within = v.within in
      let sum : add64 position n ≡ position + n = omega arith in
      (
        λ held side. elim side [
          | inl stored ↦ elim (lt-or-le position s.buffer_index) [
            | inl before ↦
                rw
                  (
                    end_of_buffer,
                    sum,
                    ltb_ge (length (contents s)) (position + n) held,
                    lt→ltb position s.buffer_index before,
                    v.mapped,
                    ltb_ge (length s.file) (position + n) (omega arith),
                  )
                  (ap ok (read_file position n stored))
            | inr after ↦ read_buffered position n fits held after
          ]
          | inr after ↦ read_buffered position n fits held after
        ],
        λ beyond. rw (end_of_buffer, sum, lt→ltb (length (contents s)) (position + n) beyond) refl,
      )
