-- ===== src/Crypto/Bulletproofs/Tests.antt =====
-- The theorem on range proofs at a list for the cache, and a proof that repeats its commitment.
use libmw_core.Common.{◌≡◌, ◌⊎◌, inl, inr, refl, Bool, Bool-cases, true, false, ◌&&◌, ◌||◌}
use libmw_core.Common.{List, [], ◌∷◌, All, bytes_eq, bytes_eq_iff}
use libmw_core.Common.{some}
use libmw_core.Exceptions.{ok}
use libmw_core.Util.EndianUtil.{Bytes}
use libmw_core.Crypto.Bulletproofs.{LruCache, RangeProofs, verify_bulletproofs}
use libmw_core.Crypto.Bulletproofs.Soundness.{IsChecked, AllProved, verify_bulletproofs-IsChecked}

has : Bytes → List Bytes → Bool
has c [] = false
has c (d ∷ s) = bytes_eq c d || has c s

abbrev list_cache : LruCache (List Bytes)
list_cache = record { put = λ k v s. k ∷ s; cached = has; get = λ k s. (k, s) }

all_equal : List (Bytes × Bytes) → Bool
all_equal [] = true
all_equal ((x, proof) ∷ items) = bytes_eq x proof && all_equal items

abbrev repeats : RangeProofs
repeats = record { Parsed = Bytes; parse = λ c. some c; verify_multi = λ items. all_equal items }

abbrev IsRepeat : Bytes → Bytes → Type 0
IsRepeat x proof = x ≡ proof

all_equal-IsRepeat :
    (items : List (Bytes × Bytes)) → all_equal items ≡ true → All (λ i. IsRepeat i.0 i.1) items
unfolding all_equal
all_equal-IsRepeat [] e = tt
all_equal-IsRepeat ((x, proof) ∷ items) e = elim (Bool-cases (bytes_eq x proof)) [
  | inl same ↦ ((bytes_eq_iff x proof).0 same, all_equal-IsRepeat items (rw same at e))
  | inr other ↦ absurd (let clash = rw other at e in cc)
]

has_put :
    (key value c : Bytes) (s : List Bytes) → has c (key ∷ s) ≡ true → (c ≡ key) ⊎ (has c s ≡ true)
unfolding has
has_put key value c s e = elim (Bool-cases (bytes_eq c key)) [
  | inl same ↦ inl ((bytes_eq_iff c key).0 same)
  | inr other ↦ inr (rw other at e)
]

abbrev checked : List Bytes
checked = (1 ∷ []) ∷ []

checked-AllProved :
    AllProved list_cache repeats IsRepeat all_equal-IsRepeat has_put (λ k c s h. h) checked
unfolding has
checked-AllProved c h = (c, c, refl, refl)

verify_bulletproofs-IsChecked_example :
    ((result : Bool) (s' : List Bytes)
      → verify_bulletproofs list_cache repeats ((2 ∷ [], 2 ∷ []) ∷ (1 ∷ [], []) ∷ []) checked
        ≡ ok (result, s')
      → AllProved list_cache repeats IsRepeat all_equal-IsRepeat has_put (λ k c s h. h) s'
        × (result ≡ true
            → All {A = Bytes × Bytes}
                (λ x.
                  (list_cache.cached x.0 checked ≡ true)
                  ⊎ IsChecked list_cache repeats IsRepeat all_equal-IsRepeat has_put
                      (λ k c s h. h)
                      1
                      x.0
                      x.1)
                ((2 ∷ [], 2 ∷ []) ∷ (1 ∷ [], []) ∷ [])))
    × ((c proof : Bytes)
        → list_cache.cached c checked ≡ true
        → (list_cache.get c checked).0 ≡ c
        → verify_bulletproofs list_cache repeats ((c, proof) ∷ []) checked
          ≡ ok (true, (list_cache.get c checked).1))
verify_bulletproofs-IsChecked_example =
    verify_bulletproofs-IsChecked list_cache repeats IsRepeat all_equal-IsRepeat has_put
      (λ k c s h. h) (2 ∷ [], 2 ∷ []) ((1 ∷ [], []) ∷ []) checked checked-AllProved
