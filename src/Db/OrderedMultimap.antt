-- ===== src/Db/OrderedMultimap.antt =====
-- src/db/common/OrderedMultimap.h: the values of each key, oldest first.
use libmw_core.Common.{
  ◌≡◌, ◌≢◌, refl, sym, ap, ◌∙◌, false, Bool-cases, inl, inr, Option, none, some,
}
use libmw_core.Common.{
  List, [], ◌∷◌, ◌++◌, bytes_eq, bytes_eq_iff, bytes_eq_refl, bytes_eq-false, if◌then◌else◌,
}
use libmw_core.Util.EndianUtil.{Bytes}

-- `std::unordered_map<K, std::vector<V>>`
abbrev pub OrderedMultimap : Type 0 → Type 0
OrderedMultimap V = List (Bytes × List V)

-- `back` of a vector, and the vector without its last element.
abbrev pub back : {V : Type 0} → List V → Option V
back [] = none
back (v ∷ []) = some v
back (v ∷ w ∷ vs) = back (w ∷ vs)

abbrev pub without_back : {V : Type 0} → List V → List V
without_back [] = []
without_back (v ∷ []) = []
without_back (v ∷ w ∷ vs) = v ∷ without_back (w ∷ vs)

module _ {V : Type 0} where
  -- `insert`
  unfoldable pub insert : Bytes → V → OrderedMultimap V → OrderedMultimap V
  insert key value [] = (key, value ∷ []) ∷ []
  insert key value ((k, vs) ∷ m) =
      let rest = insert key value m in
      if bytes_eq key k then (k, vs ++ value ∷ []) ∷ m else (k, vs) ∷ rest

  -- `find_last`: no value for an unknown key and for an empty vector.
  unfoldable pub find_last : Bytes → OrderedMultimap V → Option V
  find_last key [] = none
  find_last key ((k, vs) ∷ m) =
      let rest = find_last key m in if bytes_eq key k then back vs else rest

  -- `erase`
  unfoldable pub erase : Bytes → OrderedMultimap V → OrderedMultimap V
  erase key [] = []
  erase key ((k, vs) ∷ m) =
      let rest = erase key m in if bytes_eq key k then (k, without_back vs) ∷ m else (k, vs) ∷ rest

  -- The abstract view: each key has a stack of values.
  pub values : Bytes → OrderedMultimap V → List V
  values key [] = []
  values key ((k, vs) ∷ m) = let rest = values key m in if bytes_eq key k then vs else rest

  pub find_last-values :
      (key : Bytes) (m : OrderedMultimap V) → find_last key m ≡ back (values key m)
  unfolding find_last values
  find_last-values key [] = refl
  find_last-values key ((k, vs) ∷ m) = elim (Bool-cases (bytes_eq key k)) [
    | inl e ↦ rw e
    | inr e ↦ rw e (find_last-values key m)
  ]

  pub values-insert_self :
      (key : Bytes) (v : V) (m : OrderedMultimap V)
      → values key (insert key v m) ≡ values key m ++ v ∷ []
  unfolding values insert
  values-insert_self key v [] = rw (bytes_eq_refl key)
  values-insert_self key v ((k, vs) ∷ m) = elim (Bool-cases (bytes_eq key k)) [
    | inl e ↦ rw e (rw e refl)
    | inr e ↦ rw e (rw e (values-insert_self key v m))
  ]

  pub values-erase_self :
      (key : Bytes) (m : OrderedMultimap V) → values key (erase key m) ≡ without_back (values key m)
  unfolding values erase
  values-erase_self key [] = refl
  values-erase_self key ((k, vs) ∷ m) = elim (Bool-cases (bytes_eq key k)) [
    | inl e ↦ rw e (rw e refl)
    | inr e ↦ rw e (rw e (values-erase_self key m))
  ]

  pub values-insert_other :
      (key other : Bytes) (v : V) (m : OrderedMultimap V)
      → other ≢ key
      → values other (insert key v m) ≡ values other m
  unfolding values insert
  values-insert_other key other v [] h = rw (bytes_eq-false other key h)
  values-insert_other key other v ((k, vs) ∷ m) h = elim (Bool-cases (bytes_eq key k)) [
    | inl e ↦
        let same = (bytes_eq_iff key k).0 e in
        let away : bytes_eq other k ≡ false = bytes_eq-false other k (λ e'. h (e' ∙ sym same)) in
        rw e (rw away refl)
    | inr e ↦ rw (e, values-insert_other key other v m h) refl
  ]

  pub values-erase_other :
      (key other : Bytes) (m : OrderedMultimap V)
      → other ≢ key
      → values other (erase key m) ≡ values other m
  unfolding values erase
  values-erase_other key other [] h = refl
  values-erase_other key other ((k, vs) ∷ m) h = elim (Bool-cases (bytes_eq key k)) [
    | inl e ↦
        let same = (bytes_eq_iff key k).0 e in
        let away : bytes_eq other k ≡ false = bytes_eq-false other k (λ e'. h (e' ∙ sym same)) in
        rw e (rw away refl)
    | inr e ↦ rw (e, values-erase_other key other m h) refl
  ]

  back-snoc : (vs : List V) (v : V) → back (vs ++ v ∷ []) ≡ some v
  back-snoc [] v = refl
  back-snoc (w ∷ []) v = refl
  back-snoc (w ∷ x ∷ vs) v = back-snoc (x ∷ vs) v

  without_back-snoc : (vs : List V) (v : V) → without_back (vs ++ v ∷ []) ≡ vs
  without_back-snoc [] v = refl
  without_back-snoc (w ∷ []) v = refl
  without_back-snoc (w ∷ x ∷ vs) v = ap (λ t. w ∷ t) (without_back-snoc (x ∷ vs) v)

  pub find_last-insert_self :
      (key : Bytes) (v : V) (m : OrderedMultimap V) → find_last key (insert key v m) ≡ some v
  find_last-insert_self key v m =
      find_last-values key (insert key v m)
      ∙ ap back (values-insert_self key v m)
      ∙ back-snoc (values key m) v

  pub find_last-insert_other :
      (key other : Bytes) (v : V) (m : OrderedMultimap V)
      → other ≢ key
      → find_last other (insert key v m) ≡ find_last other m
  find_last-insert_other key other v m h =
      find_last-values other (insert key v m)
      ∙ ap back (values-insert_other key other v m h)
      ∙ sym (find_last-values other m)

  -- The multimap is a stack for each key: `insert` pushes a value that `find_last` then finds,
  -- `erase` takes it off again and the values before it are back, and neither touches another key.
  pub erase-insert :
      (key other : Bytes) (v : V) (m : OrderedMultimap V)
      → other ≢ key
      → (find_last key (insert key v m) ≡ some v)
        × (values key (erase key (insert key v m)) ≡ values key m)
        × (find_last key (erase key (insert key v m)) ≡ find_last key m)
        × (find_last other (insert key v m) ≡ find_last other m)
        × (find_last other (erase key m) ≡ find_last other m)
  erase-insert key other v m h =
      let back_again =
        values-erase_self key (insert key v m)
        ∙ ap without_back (values-insert_self key v m)
        ∙ without_back-snoc (values key m) v in
      (
        find_last-insert_self key v m,
        back_again,
        find_last-values key (erase key (insert key v m))
            ∙ ap back back_again
            ∙ sym (find_last-values key m),
        find_last-insert_other key other v m h,
        find_last-values other (erase key m)
            ∙ ap back (values-erase_other key other m h)
            ∙ sym (find_last-values other m),
      )
