-- ===== src/File/BitmapFile/Tests.antt =====
-- The theorems on `BitmapFile` at a file of two bytes, with a changed byte behind them.
use libmw_core.Common.{◌≡◌, refl, arith, true, [], ◌∷◌, ◌==◌, ◌||◌, ◌&&◌, not}
use libmw_core.File.BitmapFile.{BitmapFile, is_set, set, unset, commit, rollback, load_bitmap}
use libmw_core.File.BitmapFile.Views.{IsValid, is_set-set, is_set-commit}

abbrev changed : BitmapFile
changed = record {
  file = 65 ∷ 0 ∷ [];
  modified = (1, 128) ∷ (3, 1) ∷ [];
  mapped = 65 ∷ 0 ∷ [];
  dirty = true;
}

changed-IsValid : IsValid changed
changed-IsValid = record {
  mapped = refl;
  ordered = (omega arith, (omega arith, tt), (omega arith, tt, tt));
  bytes = (omega arith, (omega arith, tt));
}

is_set-set_example :
    (is_set 9 (set 12 changed) ≡ (9 == 12 || is_set 9 changed))
    × (is_set 9 (unset 12 changed) ≡ (not (9 == 12) && is_set 9 changed))
    × IsValid (set 12 changed)
    × IsValid (unset 12 changed)
is_set-set_example = is_set-set changed changed-IsValid 12 9

is_set-commit_example :
    (is_set 31 (commit changed) ≡ is_set 31 changed)
    × (is_set 31 (load_bitmap (commit changed).file) ≡ is_set 31 changed)
    × (is_set 31 (rollback changed) ≡ is_set 31 (load_bitmap changed.file))
    × IsValid (commit changed)
    × IsValid (rollback changed)
is_set-commit_example = is_set-commit changed changed-IsValid 31
