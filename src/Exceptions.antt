-- ===== src/Exceptions.antt =====
-- include/mw/core/exceptions: what the code throws, as values.
use libmw_core.Common.{◌≡◌, ◌⊎◌, inl, inr, refl, ap}
use libmw_core.Common.{Bool, true, false}

-- `enum class EConsensusError`
pub data ConsensusError : Type 0 where
  cut_through block_weight kernel_sums kernel_sig bulletproof pegin_mismatch pegout_mismatch :
      ConsensusError

-- One constructor for each class derived from `GrinException`, and one for asio's `system_error`; the
-- messages are left out.
pub data Exception : Type 0 where
  file_exception crypto_exception network_exception unimplemented_exception : Exception
  deserialization_exception process_exception database_exception : Exception
  validation_exception : ConsensusError → Exception
  system_error : Exception

-- How a call ends: it returns, it throws, or the C++ standard leaves what it does undefined
-- (a read outside a buffer, a null pointer), or the program terminates (an exception in a noexcept
-- function).
pub data Result {ℓ} (A : Type ℓ) : Type ℓ where
  ok : A → Result A
  err : Exception → Result A
  undefined : Result A

infixl 5 ◌>>=◌
abbrev pub ◌>>=◌ {ℓ κ} : {A : Type ℓ} {B : Type κ} → Result A → (A → Result B) → Result B
ok a >>= f = f a
err e >>= f = err e
undefined >>= f = undefined

abbrev pub throw_if : Bool → Exception → Result (Unit {0})
throw_if true e = err e
throw_if false e = ok tt

pub Result-cases {ℓ} :
    {A : Type ℓ} (r : Result A)
    → ((a : A) × (r ≡ ok a)) ⊎ ((e : Exception) × (r ≡ err e)) ⊎ (r ≡ undefined)
Result-cases (ok a) = inl (a, refl)
Result-cases (err e) = inr (inl (e, refl))
Result-cases undefined = inr (inr refl)

pub ok_inj : {A : Type 0} {a b : A} → Path (Result A) (ok a) (ok b) → a ≡ b
ok_inj {a = a} e = ap (λ x. elim x [ ok y ↦ y | err z ↦ a | undefined ↦ a ]) e

-- A call that returns, taken apart.
pub ok_bind :
    {A B : Type 0} (r : Result A) (f : A → Result B) (b : B)
    → (r >>= f) ≡ ok b
    → (a : A) × (r ≡ ok a) × (f a ≡ ok b)
ok_bind (ok a) f b e = (a, refl, e)
ok_bind (err x) f b e = cc
ok_bind undefined f b e = cc
