-- ===== src/Crypto/Bulletproofs/Soundness.antt =====
-- What `VerifyBulletproofs` vouches for.
use mathlib.Core.Path.{subst}
use libmw_core.Common.{ℕ, ◌≡◌, ◌⊎◌, inl, inr, refl, Bool, Bool-cases, true, List}
use libmw_core.Common.{◌≤◌, sym, ap, ◌∙◌, arith, some, Option-cases, take, ltb}
use libmw_core.Crypto.Bulletproofs.{parse_commitment, read_proofs}
use libmw_core.Common.{[], ◌∷◌, length, map, All, bytes_eq_refl}
use libmw_core.Exceptions.{ok, ok_inj, ok_bind}
use libmw_core.Util.EndianUtil.{Bytes}
use libmw_core.Crypto.Bulletproofs.{LruCache, RangeProofs, was_already_verified, add_to_cache}
use libmw_core.Crypto.Bulletproofs.{
  add_all_to_cache, Item, collect, verify_found, verify_bulletproofs,
}

module _ {S : Type 0} (cache : LruCache S) (secp : RangeProofs)
    (IsProof : secp.Parsed → Bytes → Type 0)
    (checks : (items : List (secp.Parsed × Bytes))
      → secp.verify_multi items ≡ true
      → All (λ i. IsProof i.0 i.1) items)
    (put_cached : (key value c : Bytes) (s : S)
      → cache.cached c (cache.put key value s) ≡ true
      → (c ≡ key) ⊎ (cache.cached c s ≡ true))
    (get_cached : (key c : Bytes) (s : S)
      → cache.cached c (cache.get key s).1 ≡ true
      → cache.cached c s ≡ true) where
  -- Some bytes are a valid proof for the commitment.
  abbrev pub IsProved : Bytes → Type 0
  IsProved c = (x : secp.Parsed) × (proof : Bytes) × (secp.parse c ≡ some x) × IsProof x proof

  -- The first `n` bytes of the proof are one.
  abbrev pub IsChecked : ℕ → Bytes → Bytes → Type 0
  IsChecked n c proof =
      (x : secp.Parsed) × (secp.parse c ≡ some x) × (n ≤ length proof) × IsProof x (take n proof)

  -- The cache holds proved commitments only.
  abbrev pub AllProved : S → Type 0
  AllProved s = (c : Bytes) → cache.cached c s ≡ true → IsProved c

  was_already_verified-cached :
      (c : Bytes) (s : S)
      → ((d : Bytes)
          → cache.cached d (was_already_verified cache c s).1 ≡ true
          → cache.cached d s ≡ true)
        × ((was_already_verified cache c s).0 ≡ true → cache.cached c s ≡ true)
  unfolding was_already_verified
  was_already_verified-cached c s = elim (Bool-cases (cache.cached c s)) [
    | inl e ↦ rw e ((λ d h. get_cached c d s h), (λ h. refl))
    | inr e ↦ rw e ((λ d h. h), (λ h. absurd (let clash = h in cc)))
  ]

  parse_commitment-some :
      (c : Bytes) (x : secp.Parsed) → parse_commitment cache secp c ≡ ok x → secp.parse c ≡ some x
  unfolding parse_commitment
  parse_commitment-some c x e = elim (Option-cases (secp.parse c)) [
    | inl none_parsed ↦ absurd (let clash = rw (parse_commitment, none_parsed) at e in cc)
    | inr (y, e') ↦ e' ∙ ap some (ok_inj (rw (parse_commitment, e') at e))
  ]

  -- What is still to be checked is parsed, and all that is left out was in the cache.
  record Collected (xs : List (Bytes × Bytes)) (s : S) (found : List (Item cache secp) × S)
      : Type 0 where
    old : (d : Bytes) → cache.cached d found.1 ≡ true → cache.cached d s ≡ true
    parsed : All (λ i. secp.parse i.0 ≡ some i.1.0) found.0
    enough :
        (n : ℕ)
        → All (λ i. IsChecked n i.0 i.1.1) found.0
        → All (λ x. (cache.cached x.0 s ≡ true) ⊎ IsChecked n x.0 x.1) xs

  -- What was in the cache later was there before.
  earlier :
      (n : ℕ) (xs : List (Bytes × Bytes)) (s s' : S)
      → ((d : Bytes) → cache.cached d s' ≡ true → cache.cached d s ≡ true)
      → All (λ x. (cache.cached x.0 s' ≡ true) ⊎ IsChecked n x.0 x.1) xs
      → All (λ x. (cache.cached x.0 s ≡ true) ⊎ IsChecked n x.0 x.1) xs
  earlier n [] s s' old h = tt
  earlier n (x ∷ xs) s s' old (inl c, h) = (inl (old x.0 c), earlier n xs s s' old h)
  earlier n (x ∷ xs) s s' old (inr c, h) = (inr c, earlier n xs s s' old h)

  collect-Collected :
      (xs : List (Bytes × Bytes)) (s : S) (found : List (Item cache secp) × S)
      → collect cache secp xs s ≡ ok found
      → Collected xs s found
  unfolding collect
  collect-Collected [] s found e =
      subst (Collected [] s) (ok_inj e) (record { old = λ d h. h; parsed = tt; enough = λ n h. tt })
  collect-Collected ((c, proof) ∷ xs) s found e =
      let was = was_already_verified cache c s in
      let (old, known) = was_already_verified-cached c s in
      elim (Bool-cases was.0) [
        | inl v ↦
            let rest = collect-Collected xs was.1 found (rw v at e) in
            record {
              old = λ d h. old d (rest.old d h);
              parsed = rest.parsed;
              enough = λ n h. (inl (known v), earlier n xs s was.1 old (rest.enough n h));
            }
        | inr v ↦
            let (x, px, e') = ok_bind (parse_commitment cache secp c) _ found (rw v at e) in
            let (later, run, e'') = ok_bind (collect cache secp xs was.1) _ found e' in
            let rest = collect-Collected xs was.1 later run in
            subst (Collected ((c, proof) ∷ xs) s) (ok_inj e'') (record {
              old = λ d h. old d (rest.old d h);
              parsed = (parse_commitment-some c x px, rest.parsed);
              enough = λ n h. (inr h.0, earlier n xs s was.1 old (rest.enough n h.1));
            })
      ]

  add_all-AllProved :
      (cs : List Bytes) (s : S)
      → AllProved s
      → All IsProved cs
      → AllProved (add_all_to_cache cache cs s)
  unfolding add_all_to_cache add_to_cache
  add_all-AllProved [] s a h = a
  add_all-AllProved (c ∷ cs) s a (h, hs) =
      add_all-AllProved cs (add_to_cache cache c s)
        (λ d e. elim (put_cached c c d s e) [ inl same ↦ rw same h | inr old ↦ a d old ]) hs

  -- Items whose bytes are read and checked.
  read_proofs-IsChecked :
      (n : ℕ) (items : List (Item cache secp)) (read : List (secp.Parsed × Bytes))
      → All (λ i. secp.parse i.0 ≡ some i.1.0) items
      → read_proofs cache secp n items ≡ ok read
      → All (λ i. IsProof i.0 i.1) read
      → All (λ i. IsChecked n i.0 i.1.1) items × All IsProved (map (λ i. i.0) items)
  unfolding read_proofs
  read_proofs-IsChecked n [] read p e h = (tt, tt)
  read_proofs-IsChecked n ((c, (x, proof)) ∷ items) read (px, p) e h =
      elim (Bool-cases (ltb (length proof) n)) [
        | inl short ↦ absurd (let clash = rw short at e in cc)
        | inr long ↦
            let (rest, run, e') = ok_bind (read_proofs cache secp n items) _ read (rw long at e) in
            let (hx, hs) = subst (All (λ i. IsProof i.0 i.1)) (sym (ok_inj e')) h in
            let (first, second) = read_proofs-IsChecked n items rest p run hs in
            (((x, px, ground arith, hx), first), ((x, take n proof, px, hx), second))
      ]

  verify_found-IsChecked :
      (xs : List (Bytes × Bytes)) (n : ℕ) (s : S) (found : List (Item cache secp) × S)
      (result : Bool) (s' : S)
      → AllProved s
      → Collected xs s found
      → verify_found cache secp n found.0 found.1 ≡ ok (result, s')
      → AllProved s'
        × (result ≡ true → All (λ x. (cache.cached x.0 s ≡ true) ⊎ IsChecked n x.0 x.1) xs)
  unfolding verify_found
  verify_found-IsChecked xs n s ([], t) result s' a g e =
      subst
        (λ (v : Bool × S).
          AllProved v.1
          × (v.0 ≡ true → All (λ x. (cache.cached x.0 s ≡ true) ⊎ IsChecked n x.0 x.1) xs))
        (ok_inj e) ((λ d h. a d (g.old d h)), (λ h. g.enough n tt))
  verify_found-IsChecked xs n s (item ∷ items, t) result s' a g e =
      let all = item ∷ items in
      let (read, run, e') = ok_bind (read_proofs cache secp n all) _ (result, s') e in
      let a' : AllProved t = λ d h. a d (g.old d h) in
      subst
        (λ (v : Bool × S).
          AllProved v.1
          × (v.0 ≡ true → All (λ x. (cache.cached x.0 s ≡ true) ⊎ IsChecked n x.0 x.1) xs))
        (ok_inj e')
        (elim (Bool-cases (secp.verify_multi read)) [
          | inl v ↦
              let (checked, proved) =
                read_proofs-IsChecked n all read g.parsed run (checks read v) in
              rw v (add_all-AllProved (map (λ i. i.0) all) t a' proved, (λ h. g.enough n checked))
          | inr v ↦ rw v (a', (λ h. absurd (let clash = h in cc)))
        ])

  -- A commitment in the cache is left out of the batch, with whatever proof.
  collect_cached :
      (c proof : Bytes) (s : S)
      → cache.cached c s ≡ true
      → (cache.get c s).0 ≡ c
      → collect cache secp ((c, proof) ∷ []) s ≡ ok ([], (cache.get c s).1)
  unfolding collect was_already_verified
  collect_cached c proof s e same = rw (known c s e same) refl
    where
      known :
          (c : Bytes) (s : S)
          → cache.cached c s ≡ true
          → (cache.get c s).0 ≡ c
          → was_already_verified cache c s ≡ (true, (cache.get c s).1)
      known c s e same = rw (was_already_verified, e, same, bytes_eq_refl c) refl

  -- Let secp256k1 accept valid proofs only, and the cache hold no more than what was put in. Then a
  -- call that returns leaves only proved commitments in the cache. If it accepts, each commitment was
  -- in the cache before, or its proof has as many bytes as the first one, and those are a valid
  -- proof. A commitment that is in the cache is accepted with any other proof.
  pub verify_bulletproofs-IsChecked :
      (first : Bytes × Bytes) (rest : List (Bytes × Bytes)) (s : S)
      → AllProved s
      → ((result : Bool) (s' : S)
          → verify_bulletproofs cache secp (first ∷ rest) s ≡ ok (result, s')
          → AllProved s'
            × (result ≡ true
                → All
                    (λ x. (cache.cached x.0 s ≡ true) ⊎ IsChecked (length first.1) x.0 x.1)
                    (first ∷ rest)))
        × ((c proof : Bytes)
            → cache.cached c s ≡ true
            → (cache.get c s).0 ≡ c
            → verify_bulletproofs cache secp ((c, proof) ∷ []) s ≡ ok (true, (cache.get c s).1))
  unfolding verify_bulletproofs
  verify_bulletproofs-IsChecked first rest s a = (
    (λ result s' e.
        let (found, run, e') = ok_bind (collect cache secp (first ∷ rest) s) _ (result, s') e in
        verify_found-IsChecked (first ∷ rest) (length first.1) s found result s' a
          (collect-Collected (first ∷ rest) s found run) e'),
    (λ c proof e same. rw (collect_cached c proof s e same) (unfold verify_found in refl)),
  )
