-- ===== src/Net/Socks5Proxy/Handshake.antt =====
-- What was on the wire when a connection through the proxy stands.
use mathlib.Core.Path.{subst}
use libmw_core.Common.{ℕ, zero, suc, ◌<◌, ◌≤◌, ◌≡◌, inl, inr, refl, ap, ◌∙◌, arith, not, Option}
use libmw_core.Common.{some, none, [], ◌∷◌, ◌++◌, length, get_or, append_assoc, ltb, ◌==◌}
use libmw_core.Exceptions.{ok, err, ok_bind}
use libmw_core.Exceptions.{Result-cases, network_exception}
use libmw_core.Util.EndianUtil.{Bytes, Platform}
use libmw_core.Models.Net.{AsioAddress}
use libmw_core.Net.Socket.{Asio, Socket, connect, read_array, write}
use libmw_core.Net.Socket.Session.{IsStream, Session, connect-Session, read_array-Session}
use libmw_core.Net.Socket.Session.{write-Session}
use libmw_core.Net.Socks5Proxy.{
  ProxyCredentials, Destination, check_lengths, initialize, authenticate,
}
use libmw_core.Net.Socks5Proxy.{request, read_answer, handshake, attempts, connect_proxy}
use libmw_core.Net.Socks5Proxy.Transcript.{Chose, Names, greeting, request_bytes, request-bytes}
use libmw_core.Net.Socks5Proxy.Answers.{passes, equals, four, authenticate-Chose}
use libmw_core.Net.Socks5Proxy.Naming.{read_destination-Names}

check_lengths-short :
    (destination : Bytes) (auth_opt : Option ProxyCredentials)
    → check_lengths destination auth_opt ≡ ok tt
    → length destination ≤ 255
unfolding check_lengths
check_lengths-short destination none e = ground arith
check_lengths-short destination (some auth) e =
    let (short, e') = passes (ltb 255 (length destination)) _ _ tt e in ground arith

check_lengths-long :
    (destination : Bytes) (auth_opt : Option ProxyCredentials)
    → 255 < length destination
    → check_lengths destination auth_opt ≡ err network_exception
unfolding check_lengths
check_lengths-long destination none h = ground arith
check_lengths-long destination (some auth) h = ground arith

module _ ⦃p : Platform⦄ {N : Type 0} (asio : Asio N) (stream : IsStream asio)
    (address : AsioAddress) where
  initialize-greeting :
      (output input : Bytes) (auth_opt : Option ProxyCredentials) (s s' : Socket N)
      → Session asio stream output input s
      → initialize asio auth_opt s ≡ ok s'
      → Session asio stream (output ++ greeting auth_opt) input s'
  unfolding initialize
  initialize-greeting output input none s s' h e =
      write-Session asio stream output input (5 ∷ 1 ∷ 0 ∷ []) s s' h e
  initialize-greeting output input (some auth) s s' h e =
      write-Session asio stream output input (5 ∷ 2 ∷ 0 ∷ 2 ∷ []) s s' h e

  -- The answer to the request: it succeeded, and names an address.
  read_answer-Names :
      (output input : Bytes) (s : Socket N) (r : Destination address × Socket N)
      → Session asio stream output input s
      → read_answer asio address s ≡ ok r
      → (type : ℕ) × (bs : Bytes) × Names address type bs r.0
        × Session asio stream output (input ++ (5 ∷ 0 ∷ 0 ∷ type ∷ bs)) r.1
  unfolding read_answer
  read_answer-Names output input s r h e =
      let (got, run, e1) = ok_bind (read_array asio 4 s) _ r e in
      let (many, h1) = read_array-Session asio stream output input 4 s got h run in
      let (version, e2) = passes (not (get_or got.0 0 0 == 5)) _ _ r e1 in
      let (reply, e3) = passes (not (get_or got.0 1 0 == 0)) _ _ r e2 in
      let (reserved, e4) = passes (not (get_or got.0 2 0 == 0)) _ _ r e3 in
      let type = get_or got.0 3 0 in
      let (bs, names, h2) =
        read_destination-Names asio stream address output (input ++ got.0) type got.1 r h1 e4 in
      let head : got.0 ≡ 5 ∷ 0 ∷ 0 ∷ type ∷ [] =
        four got.0 many
        ∙ ap (λ x. x ∷ get_or got.0 1 0 ∷ get_or got.0 2 0 ∷ type ∷ []) (equals _ 5 version)
        ∙ ap (λ x. 5 ∷ x ∷ get_or got.0 2 0 ∷ type ∷ []) (equals _ 0 reply)
        ∙ ap (λ x. 5 ∷ 0 ∷ x ∷ type ∷ []) (equals _ 0 reserved) in
      (
        type,
        bs,
        names,
        subst (λ i. Session asio stream output i r.1)
            (append_assoc input got.0 bs ∙ ap (λ x. input ++ (x ++ bs)) head) h2,
      )

  -- The bytes that went over the connection in one handshake.
  abbrev pub Transcript :
      Bytes → ℕ → Option ProxyCredentials → Destination address × Socket N → Type 0
  Transcript destination port auth_opt r =
      (method : ℕ) × (w : Bytes) × (confirm : Bytes) × (type : ℕ) × (named : Bytes) × Chose auth_opt
        method w confirm
      × Names address type named r.0
      × Session asio stream ((greeting auth_opt ++ w) ++ request_bytes destination port)
          ((5 ∷ method ∷ confirm) ++ (5 ∷ 0 ∷ 0 ∷ type ∷ named)) r.1

  handshake-Transcript :
      (destination : Bytes) (port : ℕ) (auth_opt : Option ProxyCredentials) (s : Socket N)
      (r : Destination address × Socket N)
      → Session asio stream [] [] s
      → handshake asio address destination port auth_opt s ≡ ok r
      → Transcript destination port auth_opt r
  unfolding handshake
  handshake-Transcript destination port auth_opt s r h e =
      let (s1, run1, e1) = ok_bind (initialize asio auth_opt s) _ r e in
      let h1 = initialize-greeting [] [] auth_opt s s1 h run1 in
      let (s2, run2, e2) = ok_bind (authenticate asio auth_opt s1) _ r e1 in
      let (method, w, confirm, chose, h2) =
        authenticate-Chose asio stream (greeting auth_opt) [] auth_opt s1 s2 h1 run2 in
      let (s3, run3, e3) = ok_bind (write asio (request destination port) s2) _ r e2 in
      let h3 =
        write-Session asio stream (greeting auth_opt ++ w) (5 ∷ method ∷ confirm)
          (request destination port) s2 s3 h2 run3 in
      let (type, named, names, h4) =
        read_answer-Names ((greeting auth_opt ++ w) ++ request destination port)
          (5 ∷ method ∷ confirm) s3 r h3 e3 in
      (
        method,
        w,
        confirm,
        type,
        named,
        chose,
        names,
        subst
            (λ x.
              Session asio stream ((greeting auth_opt ++ w) ++ x)
                ((5 ∷ method ∷ confirm) ++ (5 ∷ 0 ∷ 0 ∷ type ∷ named)) r.1)
            (request-bytes destination port) h4,
      )

  attempts-Transcript :
      (left i : ℕ) (destination : Bytes) (port : ℕ) (auth_opt : Option ProxyCredentials)
      (r : Destination address × Socket N)
      → attempts asio address left i destination port auth_opt ≡ ok r
      → Transcript destination port auth_opt r
  unfolding attempts
  attempts-Transcript zero i destination port auth_opt r e = cc
  attempts-Transcript (suc left) i destination port auth_opt r e =
      let (s, run, e') = ok_bind (connect asio i) _ r e in
      elim (Result-cases (handshake asio address destination port auth_opt s)) [
        | inl (r', done) ↦
            handshake-Transcript destination port auth_opt s r (connect-Session asio stream i s run)
              (done ∙ (rw done at e'))
        | inr (inl (x, failed)) ↦
            attempts-Transcript left (suc i) destination port auth_opt r (rw failed at e')
        | inr (inr lost) ↦ absurd (let clash = rw lost at e' in cc)
      ]

  -- On connections that are streams, what is returned is what the proxy answered: the client sent the
  -- greeting, the name and password where the proxy chose that method, and the request, and the proxy
  -- took the version, confirmed the password, reported success and named the destination that is
  -- returned, and none of its bytes was lost. A destination of more than 255 bytes is refused.
  pub connect_proxy-Transcript :
      (destination : Bytes) (port : ℕ) (auth_opt : Option ProxyCredentials)
      → ((r : Destination address × Socket N)
          → connect_proxy asio address destination port auth_opt ≡ ok r
          → (length destination ≤ 255) × Transcript destination port auth_opt r)
        × (255 < length destination
            → connect_proxy asio address destination port auth_opt ≡ err network_exception)
  unfolding connect_proxy
  connect_proxy-Transcript destination port auth_opt = (
    (λ r e.
        let (u, run, e') = ok_bind (check_lengths destination auth_opt) _ r e in
        (
          check_lengths-short destination auth_opt run,
          attempts-Transcript 3 0 destination port auth_opt r e',
        )),
    (λ h. rw (check_lengths-long destination auth_opt h) refl),
  )
