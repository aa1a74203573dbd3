-- ===== src/File/BitmapFile/Locking.antt =====
-- A `BitmapFile` behind the lock: `IBatchable` as the class implements it.
use libmw_core.Common.{ℕ, ◌≡◌, refl, ap, ◌∙◌, Bool, true, false, inl, inr, []}
use libmw_core.Exceptions.{ok}
use libmw_core.File.BitmapFile.{BitmapFile, load_bitmap, commit, rollback, is_set, set, unset}
use libmw_core.File.BitmapFile.{get_byte}
use libmw_core.File.BitmapFile.Views.{IsValid, commit-cases, is_set-set, is_set-commit}
use libmw_core.Lock.{Batchable}
use libmw_core.Lock.Sessions.{IsTransactional, IsUse}

-- The class does not override `OnInitWrite` and `OnEndWrite`.
abbrev pub bitmap_batchable : Batchable BitmapFile
bitmap_batchable = record {
  commit = λ s. ok (commit s);
  rollback = rollback;
  on_init_write = λ s. s;
  on_end_write = λ s. s;
  is_dirty = λ s. s.dirty;
  set_dirty = λ dirty s. record s { dirty = dirty };
}

-- The bit that is seen, and the bit that is on the disk.
abbrev pub seen_bit : BitmapFile → ℕ → Bool
seen_bit s q = is_set q s

abbrev pub durable_bit : BitmapFile → ℕ → Bool
durable_bit s q = is_set q (load_bitmap s.file)

-- A file that is not dirty has nothing pending.
pub record IsTracked (s : BitmapFile) : Type 0 where
  pub valid : IsValid s
  pub clean : s.dirty ≡ false → s.modified ≡ []

marked-IsValid : (dirty : Bool) (s : BitmapFile) → IsValid s → IsValid (record s { dirty = dirty })
marked-IsValid dirty s v = record { mapped = v.mapped; ordered = v.ordered; bytes = v.bytes }

is_set_marked :
    (dirty : Bool) (s : BitmapFile) (q : ℕ) → is_set q (record s { dirty = dirty }) ≡ is_set q s
unfolding is_set get_byte
is_set_marked dirty s q = refl

committed : (s : BitmapFile) (v : IsValid s) → (commit s).modified ≡ []
unfolding load_bitmap
committed s v = elim (commit-cases s v) [
  | inl (e, same) ↦ ap (λ t. t.modified) same ∙ e
  | inr e ↦ ap (λ t. t.modified) e
]

seen_clean :
    (s : BitmapFile) → IsTracked s → s.dirty ≡ false → (q : ℕ) → is_set q s ≡ durable_bit s q
unfolding rollback is_set get_byte
seen_clean s t e q =
    ap (λ ms. is_set q (record s { modified = ms })) (t.clean e) ∙ (is_set-commit s t.valid q).2

pub bitmap-IsTransactional : IsTransactional bitmap_batchable IsTracked seen_bit durable_bit
unfolding rollback
bitmap-IsTransactional = record {
  on_init = λ s t. (
    record { valid = marked-IsValid true s t.valid; clean = λ e. absurd (let clash = e in cc) },
    (λ q. is_set_marked true s q),
    (λ q. refl),
  );
  commits = λ s t. (
    commit s,
    refl,
    record {
      valid = marked-IsValid false (commit s) (is_set-commit s t.valid 0).3;
      clean = λ e. committed s t.valid;
    },
    (λ q. is_set_marked false (commit s) q ∙ (is_set-commit s t.valid q).0),
    (λ q. (is_set-commit s t.valid q).1),
  );
  rolls_back = λ s t. (
    record {
      valid = marked-IsValid false (rollback s) (is_set-commit s t.valid 0).4;
      clean = λ e. refl;
    },
    (λ q. is_set_marked false (rollback s) q ∙ (is_set-commit s t.valid q).2),
    (λ q. refl),
  );
  clean = λ s t e. (t, seen_clean s t e, seen_clean s t e, (λ q. refl));
}

module _ (p : ℕ) where
  -- `Set` and `Unset` are uses of a bitmap file: they mark it dirty and write nothing.
  pub set-IsUse :
      IsUse bitmap_batchable IsTracked seen_bit durable_bit bitmap-IsTransactional (set p)
  unfolding set
  set-IsUse s t = (
    record { valid = (is_set-set s t.valid p 0).2; clean = λ e. absurd (let clash = e in cc) },
    (λ q. refl),
  )

  pub unset-IsUse :
      IsUse bitmap_batchable IsTracked seen_bit durable_bit bitmap-IsTransactional (unset p)
  unfolding unset
  unset-IsUse s t = (
    record { valid = (is_set-set s t.valid p 0).3; clean = λ e. absurd (let clash = e in cc) },
    (λ q. refl),
  )
