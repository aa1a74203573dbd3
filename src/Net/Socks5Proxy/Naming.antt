-- ===== src/Net/Socks5Proxy/Naming.antt =====
-- The address and the port that the proxy answers with.
use mathlib.Core.Path.{subst}
use libmw_core.Common.{ℕ, ◌+◌, ◌*◌, ◌≡◌, inl, inr, sym, ap, ◌∙◌, arith, Bool-cases}
use libmw_core.Common.{
  Option, some, none, [], ◌∷◌, ◌++◌, length, get_or, append_assoc, ◌==◌, ==_iff,
}
use libmw_core.Exceptions.{ok, ok_inj, ok_bind}
use libmw_core.Util.EndianUtil.{Bytes, Platform}
use libmw_core.Serialization.{read_int}
use libmw_core.Models.Net.{AsioAddress}
use libmw_core.Net.Socket.{Asio, Socket, read, read_array}
use libmw_core.Net.Socket.Session.{IsStream, Session, read-Session, read_array-Session}
use libmw_core.Net.Socks5Proxy.{Destination, read_domain, read_address, read_destination}
use libmw_core.Net.Socks5Proxy.Transcript.{Names, ipv4, ipv6, domain}
use libmw_core.Net.Socks5Proxy.Answers.{two, read_port}

module _ {N : Type 0} (asio : Asio N) (stream : IsStream asio) where
  read_domain-Session :
      (output input ns : Bytes) (s : Socket N) (got : Bytes × Socket N)
      → Session asio stream output input s
      → length ns ≡ 1
      → read_domain asio ns s ≡ ok got
      → (ns ≡ length got.0 ∷ []) × Session asio stream output (input ++ got.0) got.1
  unfolding read_domain
  read_domain-Session output input [] s got h one e = absurd (omega arith)
  read_domain-Session output input (n ∷ []) s got h one e =
      let (many, h1) = read-Session asio stream output input n s got h e in
      (ap (λ x. x ∷ []) (sym many), h1)
  read_domain-Session output input (n ∷ m ∷ ns) s got h one e = absurd (omega arith)

  module _ (address : AsioAddress) where
    -- The bytes of an address, whatever port stands behind them.
    abbrev Spells : ℕ → Bytes → Option address.Address × Option Bytes → Type 0
    Spells type bs found =
        (hi lo : ℕ)
        → Names address type (bs ++ hi ∷ lo ∷ [])
            (record { ip_address = found.0; domain_name = found.1; port = 256 * hi + lo })

    abbrev Found : Bytes → Bytes → ℕ → (Option address.Address × Option Bytes) × Socket N → Type 0
    Found output input type found =
        (bs : Bytes) × Spells type bs found.0 × Session asio stream output (input ++ bs) found.1

    read_v4 :
        (output input : Bytes) (s : Socket N) (got : Bytes × Socket N)
        → Session asio stream output input s
        → read_array asio 4 s ≡ ok got
        → Found output input 1 ((some (address.make_address_v4 got.0), none), got.1)
    read_v4 output input s got h run =
        let (many, h1) = read_array-Session asio stream output input 4 s got h run in
        (got.0, (λ hi lo. ipv4 got.0 hi lo many), h1)

    read_v6 :
        (output input : Bytes) (s : Socket N) (got : Bytes × Socket N)
        → Session asio stream output input s
        → read_array asio 16 s ≡ ok got
        → Found output input 4 ((some (address.make_address_v6 got.0), none), got.1)
    read_v6 output input s got h run =
        let (many, h1) = read_array-Session asio stream output input 16 s got h run in
        (got.0, (λ hi lo. ipv6 got.0 hi lo many), h1)

    read_name :
        (output input : Bytes) (s : Socket N) (count got : Bytes × Socket N)
        → Session asio stream output input s
        → read asio 1 s ≡ ok count
        → read_domain asio count.0 count.1 ≡ ok got
        → Found output input 3 ((none, some got.0), got.1)
    read_name output input s count got h run run' =
        let (one, h1) = read-Session asio stream output input 1 s count h run in
        let (named, h2) =
          read_domain-Session output (input ++ count.0) count.0 count.1 got h1 one run' in
        (
          length got.0 ∷ got.0,
          (λ hi lo. domain got.0 hi lo),
          subst (λ i. Session asio stream output i got.1)
              (append_assoc input count.0 got.0 ∙ ap (λ x. input ++ (x ++ got.0)) named) h2,
        )

    read_address-Found :
        (output input : Bytes) (type : ℕ) (s : Socket N)
        (found : (Option address.Address × Option Bytes) × Socket N)
        → Session asio stream output input s
        → read_address asio address type s ≡ ok found
        → Found output input type found
    unfolding read_address
    read_address-Found output input type s found h e = elim (Bool-cases (type == 1)) [
      | inl v4 ↦
          let (got, run, e') = ok_bind (read_array asio 4 s) _ found (rw v4 at e) in
          subst (λ t. Found output input t found) (sym ((==_iff type 1).0 v4))
            (subst (Found output input 1) (ok_inj e') (read_v4 output input s got h run))
      | inr not_v4 ↦ elim (Bool-cases (type == 4)) [
        | inl v6 ↦
            let (got, run, e') = ok_bind (read_array asio 16 s) _ found (rw (not_v4, v6) at e) in
            subst (λ t. Found output input t found) (sym ((==_iff type 4).0 v6))
              (subst (Found output input 4) (ok_inj e') (read_v6 output input s got h run))
        | inr not_v6 ↦ elim (Bool-cases (type == 3)) [
          | inl name ↦
              let (count, run, e1) =
                ok_bind (read asio 1 s) _ found (rw (not_v4, not_v6, name) at e) in
              let (got, run', e2) = ok_bind (read_domain asio count.0 count.1) _ found e1 in
              subst (λ t. Found output input t found) (sym ((==_iff type 3).0 name))
                (subst (Found output input 3) (ok_inj e2)
                  (read_name output input s count got h run run'))
          | inr other ↦ absurd (let clash = rw (not_v4, not_v6, other) at e in cc)
        ]
      ]
    ]

    module _ ⦃p : Platform⦄ where
      pub read_destination-Names :
          (output input : Bytes) (type : ℕ) (s : Socket N) (r : Destination address × Socket N)
          → Session asio stream output input s
          → read_destination asio address type s ≡ ok r
          → (bs : Bytes) × Names address type bs r.0 × Session asio stream output (input ++ bs) r.1
      unfolding read_destination
      read_destination-Names output input type s r h e =
          let (found, run, e1) = ok_bind (read_address asio address type s) _ r e in
          let (bs, spells, h1) = read_address-Found output input type s found h run in
          let (pair, run', e2) = ok_bind (read asio 2 found.1) _ r e1 in
          let (many, h2) = read-Session asio stream output (input ++ bs) 2 found.1 pair h1 run' in
          let (port, run'', e3) =
            ok_bind (read_int 2 (record { index = 0; bytes = pair.0 })) _ r e2 in
          let hi = get_or pair.0 0 0 in
          let lo = get_or pair.0 1 0 in
          subst
            (λ (q : Destination address × Socket N).
              (bs : Bytes) × Names address type bs q.0
              × Session asio stream output (input ++ bs) q.1)
            (ok_inj e3)
            (
              bs ++ hi ∷ lo ∷ [],
              subst
                  (λ v.
                    Names address type (bs ++ hi ∷ lo ∷ [])
                      (record { ip_address = found.0.0; domain_name = found.0.1; port = v }))
                  (sym (read_port pair.0 port many run'')) (spells hi lo),
              subst (λ i. Session asio stream output i pair.1)
                  (append_assoc input bs pair.0 ∙ ap (λ x. input ++ (bs ++ x)) (two pair.0 many))
                  h2,
            )
