-- ===== src/Mmr/Backend/Simulation.antt =====
-- Two backends of which one does what the other does.
use libmw_core.Common.{ℕ, zero, suc, ◌≡◌, refl, Bool-cases, inl, inr}
use libmw_core.Exceptions.{Result, ok, ok_inj, ok_bind}
use libmw_core.Crypto.{Hashing}
use libmw_core.Util.EndianUtil.{Platform}
use libmw_core.Mmr.Index.{Index, is_leaf, get_next, get_left_child}
use libmw_core.Mmr.Node.{Hash, create_parent}
use libmw_core.Mmr.Backend.{add_parents}

module _ ⦃p : Platform⦄ ⦃c : Hashing⦄ {S T : Type 0} (get_hash : Index → S → Result Hash)
    (add_hash : Hash → S → Result S) (get_hash' : Index → T → Result Hash)
    (add_hash' : Hash → T → Result T) (Shows : ℕ → S → T → Type 0)
    (same_hash : (k : ℕ) (s : S) (t : T) (idx : Index) (h : Hash)
      → Shows k s t
      → get_hash' idx t ≡ ok h
      → get_hash idx s ≡ ok h)
    (same_add : (k : ℕ) (s : S) (t t' : T) (idx : Index) (l r : Hash)
      → Shows (suc k) s t
      → add_hash' (create_parent idx l r) t ≡ ok t'
      → (s' : S) × (add_hash (create_parent idx l r) s ≡ ok s') × Shows k s' t') where
  -- `s` shows `t` and has room for as many hashes as there is fuel: where the loop on `t` returns,
  -- the loop on `s` returns, and the results match.
  pub add_parents-Shows :
      (fuel : ℕ) (idx : Index) (right : Hash) (s : S) (t t' : T)
      → Shows fuel s t
      → add_parents get_hash' add_hash' fuel idx right t ≡ ok t'
      → (k : ℕ) × (s' : S) × (add_parents get_hash add_hash fuel idx right s ≡ ok s')
        × Shows k s' t'
  unfolding add_parents
  add_parents-Shows zero idx right s t t' w run = cc
  add_parents-Shows (suc fuel) idx right s t t' w run = elim (Bool-cases (is_leaf idx)) [
    | inl e ↦ let same : t ≡ t' = ok_inj (rw e at run) in (suc fuel, s, rw e refl, rw⁻¹ same w)
    | inr e ↦
        let (left, got, run') = ok_bind _ _ t' (rw e at run) in
        let (u, added, run'') = ok_bind _ _ t' run' in
        let (s', added', w') = same_add fuel s t u idx left right w added in
        let (k, s'', run''', w'') =
          add_parents-Shows fuel (get_next idx) (create_parent idx left right) s' u t' w' run'' in
        (
          k,
          s'',
          rw (e, same_hash (suc fuel) s t (get_left_child idx) left w got, added') run''',
          w'',
        )
  ]
