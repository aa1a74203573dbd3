-- ===== src/Consensus/CutThrough.antt =====
-- `VerifyCutThrough` throws exactly when an input spends an output of the same body.
use mathlib.Core.Path.{subst}
use libmw_core.Common.{
  ℕ, ◌<◌, ◌≡◌, ◌↔◌, ◌⊎◌, inl, inr, refl, sym, ap, ◌∙◌, arith, Bool, true, false, not,
}
use libmw_core.Common.{◌&&◌, ◌||◌, List, [], ◌∷◌, All, IsByte, length, Bool-cases, lt-or-le}
use libmw_core.Exceptions.{ok, err, Exception, throw_if, validation_exception, cut_through}
use libmw_core.Models.BigInt.{big_int_lt}
use libmw_core.Models.BigInt.Order.{be_value, big_int_lt_iff, be_value_inj}
use libmw_core.Models.Tx.{Commitment, Input, Output}
use libmw_core.Consensus.{
  equivalent, find, insert, output_commitments, any_input, verify_cut_through,
}

-- 33 bytes.
pub record IsCommitment (c : Commitment) : Type 0 where
  pub size : length c ≡ 33
  pub bytes : All IsByte c

-- `P` of some element.
abbrev pub Any {ℓ} : {A : Type ℓ} → (A → Type 0) → List A → Type 0
Any P [] = ⊥
Any P (x ∷ xs) = P x ⊎ Any P xs

or_iff : {P Q : Type 0} (b c : Bool) → (b ≡ true) ↔ P → (c ≡ true) ↔ Q → (b || c ≡ true) ↔ (P ⊎ Q)
or_iff true c (f, g) h = ((λ e. inl (f refl)), (λ e. refl))
or_iff false c (f, g) (f', g') =
    ((λ e. inr (f' e)), (λ e. elim e [ inl p ↦ absurd (ground (arith, g p)) | inr q ↦ g' q ]))

-- If neither test holds the numbers are the same, and the other way round.
neither :
    (b c : Bool) (m n : ℕ) → (m < n → b ≡ true) → (n < m → c ≡ true) → not b && not c ≡ true → m ≡ n
neither b c m n f g e = elim (lt-or-le m n) [
  | inl below ↦ absurd (ground (arith, f below))
  | inr over ↦ elim (lt-or-le n m) [
    | inl above ↦ absurd (ground (arith, g above))
    | inr under ↦ omega arith
  ]
]

both :
    (b c : Bool) (m n : ℕ) → (b ≡ true → m < n) → (c ≡ true → n < m) → m ≡ n → not b && not c ≡ true
both true c m n f g e = absurd (omega (arith, f refl))
both false true m n f g e = absurd (omega (arith, g refl))
both false false m n f g e = refl

-- Two commitments are the same to a `std::set` if they have the same bytes.
equivalent_iff :
    (a b : Commitment) → IsCommitment a → IsCommitment b → (equivalent a b ≡ true) ↔ (a ≡ b)
unfolding equivalent
equivalent_iff a b ha hb =
    let same : length a ≡ length b = ha.size ∙ sym hb.size in
    let lt = big_int_lt_iff a b same ha.bytes hb.bytes in
    let gt = big_int_lt_iff b a (sym same) hb.bytes ha.bytes in
    (
      λ e.
          be_value_inj a b same ha.bytes hb.bytes
            (neither (big_int_lt a b) (big_int_lt b a) (be_value a) (be_value b) lt.1 gt.1 e),
      λ e.
          both (big_int_lt a b) (big_int_lt b a) (be_value a) (be_value b) lt.0 gt.0
            (ap be_value e),
    )

find_iff :
    (a : Commitment) (set : List Commitment)
    → IsCommitment a
    → All IsCommitment set
    → (find a set ≡ true) ↔ Any (λ b. a ≡ b) set
unfolding find
find_iff a [] ha hs = ((λ e. absurd (ground arith)), (λ e. absurd e))
find_iff a (b ∷ set) ha (hb, hs) =
    let here = equivalent_iff a b ha hb in
    let there = find_iff a set ha hs in or_iff (equivalent a b) (find a set) here there

insert-IsCommitment :
    (a : Commitment) (set : List Commitment)
    → IsCommitment a
    → All IsCommitment set
    → All IsCommitment (insert a set)
unfolding insert
insert-IsCommitment a set ha hs = elim (Bool-cases (find a set)) [
  | inl e ↦ rw e hs
  | inr e ↦ rw e (ha, hs)
]

-- An element of the set after an insertion is the new one or an old one.
insert_iff :
    (x a : Commitment) (set : List Commitment)
    → IsCommitment a
    → All IsCommitment set
    → Any (λ b. x ≡ b) (insert a set) ↔ ((x ≡ a) ⊎ Any (λ b. x ≡ b) set)
unfolding insert
insert_iff x a set ha hs = elim (Bool-cases (find a set)) [
  | inl e ↦
      let old = (find_iff a set ha hs).0 e in
      rw e (
        (λ m. inr m),
        (λ m. elim m [ inl same ↦ subst (λ y. Any (λ b. y ≡ b) set) (sym same) old | inr m' ↦ m' ]),
      )
  | inr e ↦ rw e ((λ m. m), (λ m. m))
]

abbrev CommitsTo : Commitment → Output → Type 0
CommitsTo x o = x ≡ o.commitment

output_commitments_iff :
    (x : Commitment) (outputs : List Output) (set : List Commitment)
    → All (λ o. IsCommitment o.commitment) outputs
    → All IsCommitment set
    → Any (λ b. x ≡ b) (output_commitments outputs set)
      ↔ (Any (CommitsTo x) outputs ⊎ Any (λ b. x ≡ b) set)
unfolding output_commitments
output_commitments_iff x [] set ho hs =
    ((λ m. inr m), (λ m. elim m [ inl outside ↦ absurd outside | inr m' ↦ m' ]))
output_commitments_iff x (o ∷ outputs) set (ho, hos) hs =
    let (to, from) =
      output_commitments_iff x outputs (insert o.commitment set) hos
        (insert-IsCommitment o.commitment set ho hs) in
    let (split, join) = insert_iff x o.commitment set ho hs in
    (
      (λ m. elim (to m) [
        | inl later ↦ inl (inr later)
        | inr m' ↦ elim (split m') [ inl here ↦ inl (inl here) | inr old ↦ inr old ]
      ]),
      (λ m. elim m [
        | inl (inl here) ↦ from (inr (join (inl here)))
        | inl (inr later) ↦ from (inl later)
        | inr old ↦ from (inr (join (inr old)))
      ]),
    )

output_commitments-IsCommitment :
    (outputs : List Output) (set : List Commitment)
    → All (λ o. IsCommitment o.commitment) outputs
    → All IsCommitment set
    → All IsCommitment (output_commitments outputs set)
unfolding output_commitments
output_commitments-IsCommitment [] set ho hs = hs
output_commitments-IsCommitment (o ∷ outputs) set (ho, hos) hs =
    output_commitments-IsCommitment outputs (insert o.commitment set) hos
      (insert-IsCommitment o.commitment set ho hs)

any_input_iff :
    (inputs : List Input) (set : List Commitment)
    → All (λ i. IsCommitment i.commitment) inputs
    → All IsCommitment set
    → (any_input inputs set ≡ true) ↔ Any (λ i. Any (λ b. i.commitment ≡ b) set) inputs
unfolding any_input
any_input_iff [] set hi hs = ((λ e. absurd (ground arith)), (λ e. absurd e))
any_input_iff (i ∷ inputs) set (hi, his) hs =
    or_iff (find i.commitment set) (any_input inputs set) (find_iff i.commitment set hi hs)
      (any_input_iff inputs set his hs)

Any-map :
    {A : Type 0} {P Q : A → Type 0} → ((x : A) → P x → Q x) → (xs : List A) → Any P xs → Any Q xs
Any-map f [] m = m
Any-map f (x ∷ xs) (inl p) = inl (f x p)
Any-map f (x ∷ xs) (inr m) = inr (Any-map f xs m)

-- A guard that throws exactly where `P` holds.
throw_iff :
    {P : Type 0} (c : Bool) (e : Exception)
    → (c ≡ true → P)
    → (P → c ≡ true)
    → ((throw_if c e ≡ err e) ↔ P) × ((throw_if c e ≡ ok tt) ↔ ¬ P)
throw_iff true e from to =
    (((λ h. from refl), (λ h. refl)), ((λ h. absurd (ground arith)), (λ h. absurd (h (from refl)))))
throw_iff false e from to = (
  ((λ h. absurd (ground arith)), (λ p. absurd (ground (arith, to p)))),
  ((λ h p. absurd (ground (arith, to p))), (λ h. refl)),
)

-- Some input has the commitment of some output.
abbrev pub SpendsOwn : List Input → List Output → Type 0
SpendsOwn inputs outputs = Any (λ i. Any (CommitsTo i.commitment) outputs) inputs

-- The test of the code finds such an input.
pub any_input-SpendsOwn :
    (inputs : List Input) (outputs : List Output)
    → All (λ i. IsCommitment i.commitment) inputs
    → All (λ o. IsCommitment o.commitment) outputs
    → (any_input inputs (output_commitments outputs []) ≡ true) ↔ SpendsOwn inputs outputs
any_input-SpendsOwn inputs outputs hi ho =
    let set = output_commitments outputs [] in
    let (found, shared) =
      any_input_iff inputs set hi (output_commitments-IsCommitment outputs [] ho tt) in
    (
      λ e.
          Any-map
            (λ i m. elim ((output_commitments_iff i.commitment outputs [] ho tt).0 m) [
              | inl m' ↦ m'
              | inr outside ↦ absurd outside
            ])
            inputs (found e),
      λ m. shared (
          Any-map (λ i m'. (output_commitments_iff i.commitment outputs [] ho tt).1 (inl m')) inputs
            m),
    )

-- On commitments of 33 bytes `VerifyCutThrough` throws CUT_THROUGH if some input has the commitment
-- of some output, and returns otherwise.
pub verify_cut_through_iff :
    (inputs : List Input) (outputs : List Output)
    → All (λ i. IsCommitment i.commitment) inputs
    → All (λ o. IsCommitment o.commitment) outputs
    → ((verify_cut_through inputs outputs ≡ err (validation_exception cut_through))
        ↔ SpendsOwn inputs outputs)
      × ((verify_cut_through inputs outputs ≡ ok tt) ↔ ¬ SpendsOwn inputs outputs)
unfolding verify_cut_through
verify_cut_through_iff inputs outputs hi ho =
    let (from, to) = any_input-SpendsOwn inputs outputs hi ho in
    throw_iff (any_input inputs (output_commitments outputs [])) (validation_exception cut_through)
      from to
