-- ===== src/File/AppendOnlyFile/Segments.antt =====
-- An `AppendOnlyFile` that holds segments one behind the other, without a pending rewind.
use mathlib.Core.List.{flatten}
use libmw_core.Common.{ℕ, ◌+◌, ◌≤◌, ◌<◌, ◌≡◌, ◌⊎◌, inl, inr, refl, sym, ap, ◌∙◌, arith}
use libmw_core.Common.{List, [], ◌∷◌, ◌++◌, append-nil, length, length-append, take}
use libmw_core.Common.{take-length, drop, u64_mod, lt-or-le, offset, segment, segment-at}
use libmw_core.Common.{flatten-append, length-flatten-append, offset-within, offset-first}
use libmw_core.Common.{offset-second}
use libmw_core.Exceptions.{ok}
use libmw_core.Util.EndianUtil.{Bytes}
use libmw_core.File.AppendOnlyFile.{AppendOnlyFile, load, commit, rollback, append, get_size, read}
use libmw_core.File.AppendOnlyFile.Contents.{IsValid, contents, contents-append, read-contents}
use libmw_core.File.AppendOnlyFile.Committing.{load-IsValid, commit_run, contents-written}

-- The segments `old` are on the disk, and `more` are pending.
pub record Segments (f : AppendOnlyFile) (old more : List Bytes) : Type 0 where
  pub valid : IsValid f
  pub at_end : f.buffer_index ≡ length f.file
  pub stored : f.file ≡ flatten old
  pub pending : f.buffer ≡ flatten more

pub load-Segments :
    (old : List Bytes) → length (flatten old) < u64_mod → Segments (load (flatten old)) old []
unfolding load flatten
load-Segments old h = record {
  valid = load-IsValid (flatten old) h;
  at_end = refl;
  stored = refl;
  pending = refl;
}

module _ (f : AppendOnlyFile) (old more : List Bytes) (g : Segments f old more) where
  contents-Segments : contents f ≡ flatten (old ++ more)
  unfolding contents
  contents-Segments =
      ap (λ n. take n f.file ++ f.buffer) g.at_end
      ∙ ap (λ t. t ++ f.buffer) (take-length f.file ∙ g.stored)
      ∙ ap (λ t. flatten old ++ t) g.pending
      ∙ sym (flatten-append old more)

  pub size-Segments : get_size f ≡ length (flatten (old ++ more))
  size-Segments = (contents-append f g.valid []).0 ∙ ap length contents-Segments

  pub append-Segments :
      (x : Bytes)
      → length (flatten (old ++ more)) + length x < u64_mod
      → Segments (append x f) old (more ++ x ∷ [])
  unfolding append flatten
  append-Segments x room =
      let v = g.valid in
      let sizes : length f.file + length f.buffer ≡ length (flatten (old ++ more)) =
        omega (arith, ap length g.stored, ap length g.pending, length-flatten-append old more) in
      record {
        valid = record {
          mapped = v.mapped;
          size = v.size;
          within = v.within;
          addressable = omega (arith, length-append f.buffer x);
        };
        at_end = g.at_end;
        stored = g.stored;
        pending =
            ap (λ t. t ++ x) g.pending
            ∙ ap (λ t. flatten more ++ t) (sym (append-nil x))
            ∙ sym (flatten-append more (x ∷ []));
      }

  pub commit-Segments : (f' : AppendOnlyFile) × (commit f ≡ ok f') × Segments f' (old ++ more) []
  unfolding flatten
  commit-Segments =
      let (f', run, valid, file, held, at_end, empty) = commit_run f g.valid in
      (
        f',
        run,
        record {
          valid = valid;
          at_end = at_end;
          stored = file ∙ sym (contents-written f g.valid (inl g.at_end)) ∙ contents-Segments;
          pending = empty;
        },
      )

  pub rollback-Segments : Segments (rollback f) old []
  unfolding rollback flatten
  rollback-Segments =
      let v = g.valid in
      record {
        valid = record {
          mapped = v.mapped;
          size = v.size;
          within = omega (arith, v.size);
          addressable = omega (arith, v.addressable);
        };
        at_end = v.size;
        stored = g.stored;
        pending = refl;
      }

  pub total-Segments : length (flatten (old ++ more)) < u64_mod
  total-Segments = omega (
    arith,
    ap length g.stored,
    ap length g.pending,
    length-flatten-append old more,
    g.valid.addressable,
  )

  -- Each segment is read back by its place.
  pub read-Segments :
      (i : ℕ)
      → i < length (old ++ more)
      → read (offset (old ++ more) i) (length (segment (old ++ more) i)) f
        ≡ ok (segment (old ++ more) i)
  read-Segments i h =
      let v = g.valid in
      let xs = old ++ more in
      let within = offset-within xs i h in
      let size : length (contents f) ≡ length (flatten xs) = ap length contents-Segments in
      let index : f.buffer_index ≡ length (flatten old) = g.at_end ∙ ap length g.stored in
      let total = total-Segments in
      let side : (offset xs i + length (segment xs i) ≤ f.buffer_index)
          ⊎ (f.buffer_index ≤ offset xs i) =
        elim (lt-or-le i (length old)) [
          | inl first ↦ inl (omega (arith, offset-first old more i first))
          | inr second ↦ inr (omega (arith, offset-second old more i second))
        ] in
      (read-contents f v (offset xs i) (length (segment xs i)) (omega arith)).0 (omega arith) side
      ∙ ap (λ t. ok (take (length (segment xs i)) (drop (offset xs i) t))) contents-Segments
      ∙ ap ok (segment-at xs i h)
