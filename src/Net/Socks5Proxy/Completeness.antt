-- ===== src/Net/Socks5Proxy/Completeness.antt =====
-- A proxy that answers as it should gives a connection.
use mathlib.Core.Path.{subst}
use libmw_core.Common.{ℕ, suc, ◌+◌, ◌*◌, ◌≤◌, ◌≡◌, refl, ap, ◌∙◌, arith, Option, some, none}
use libmw_core.Common.{[], ◌∷◌, ◌++◌, append_assoc, length}
use libmw_core.Exceptions.{Result, ok, err, undefined, ◌>>=◌}
use libmw_core.Util.EndianUtil.{Bytes, Platform}
use libmw_core.Models.Net.{AsioAddress}
use libmw_core.Net.Socket.{Asio, Socket, connect, read_array}
use libmw_core.Net.Socket.Ready.{IsResponsive, Awaits, read-Awaits, read_array-Awaits, write-Awaits}
use libmw_core.Net.Socks5Proxy.{
  ProxyCredentials, Destination, check_lengths, initialize, authenticate,
}
use libmw_core.Net.Socks5Proxy.{authenticate_by, credentials, read_domain, read_address}
use libmw_core.Net.Socks5Proxy.{read_destination, request, read_answer, handshake, attempts}
use libmw_core.Net.Socks5Proxy.{connect_proxy}
use libmw_core.Net.Socks5Proxy.Transcript.{Chose, no_auth, user_pass, Names, ipv4, ipv6, domain}
use libmw_core.Net.Socks5Proxy.Answers.{read_int-port}

-- The lengths that SOCKS5 has room for.
abbrev pub IsShort : Bytes → Option ProxyCredentials → Type 0
IsShort destination none = length destination ≤ 255
IsShort destination (some auth) =
    (length destination ≤ 255) × (length auth.username ≤ 255) × (length auth.password ≤ 255)

check_lengths-IsShort :
    (destination : Bytes) (auth_opt : Option ProxyCredentials)
    → IsShort destination auth_opt
    → check_lengths destination auth_opt ≡ ok tt
unfolding check_lengths
check_lengths-IsShort destination none h = ground arith
check_lengths-IsShort destination (some auth) (h1, h2, h3) = ground arith

module _ ⦃p : Platform⦄ {N : Type 0} (asio : Asio N) (peer : IsResponsive asio) where
  initialize-Awaits :
      (bs : Bytes) (auth_opt : Option ProxyCredentials) (s : Socket N)
      → Awaits asio peer bs s
      → (s' : Socket N) × (initialize asio auth_opt s ≡ ok s') × Awaits asio peer bs s'
  unfolding initialize
  initialize-Awaits bs none s h = write-Awaits asio peer (5 ∷ 1 ∷ 0 ∷ []) bs s h
  initialize-Awaits bs (some auth) s h = write-Awaits asio peer (5 ∷ 2 ∷ 0 ∷ 2 ∷ []) bs s h

  authenticate_by-Awaits :
      (auth_opt : Option ProxyCredentials) (method : ℕ) (w confirm rest : Bytes) (s : Socket N)
      → Chose auth_opt method w confirm
      → Awaits asio peer (confirm ++ rest) s
      → (s' : Socket N) × (authenticate_by asio method auth_opt s ≡ ok s')
        × Awaits asio peer rest s'
  unfolding authenticate_by
  authenticate_by-Awaits _ _ _ _ rest s (no_auth none) h = (s, refl, h)
  authenticate_by-Awaits _ _ _ _ rest s (no_auth (some auth)) h = (s, refl, h)
  authenticate_by-Awaits _ _ _ _ rest s (user_pass auth) h =
      let (s1, wrote, h1) = write-Awaits asio peer (credentials auth) (1 ∷ 0 ∷ rest) s h in
      let (s2, run, h2) = read_array-Awaits asio peer (1 ∷ 0 ∷ []) rest s1 h1 in
      (s2, rw (wrote, run) refl, h2)

  authenticate-Awaits :
      (auth_opt : Option ProxyCredentials) (method : ℕ) (w confirm rest : Bytes) (s : Socket N)
      → Chose auth_opt method w confirm
      → Awaits asio peer (5 ∷ method ∷ (confirm ++ rest)) s
      → (s' : Socket N) × (authenticate asio auth_opt s ≡ ok s') × Awaits asio peer rest s'
  unfolding authenticate
  authenticate-Awaits auth_opt method w confirm rest s chose h =
      let (s1, run, h1) = read_array-Awaits asio peer (5 ∷ method ∷ []) (confirm ++ rest) s h in
      let (s2, run', h2) = authenticate_by-Awaits auth_opt method w confirm rest s1 chose h1 in
      (s2, rw run run', h2)

  module _ (address : AsioAddress) where
    -- The port behind an address.
    read_destination-port :
        (type hi lo : ℕ) (rest : Bytes) (s s1 : Socket N)
        (found : Option address.Address × Option Bytes)
        → read_address asio address type s ≡ ok (found, s1)
        → Awaits asio peer (hi ∷ lo ∷ rest) s1
        → (s' : Socket N) × (read_destination asio address type s
            ≡ ok (record { ip_address = found.0; domain_name = found.1; port = 256 * hi + lo }, s'))
          × Awaits asio peer rest s'
    unfolding read_destination
    read_destination-port type hi lo rest s s1 found run h =
        let (s2, run', h') = read-Awaits asio peer (hi ∷ lo ∷ []) rest s1 h in
        (s2, rw (run, run', read_int-port hi lo) refl, h')

    read_destination-Awaits :
        (type : ℕ) (named rest : Bytes) (d : Destination address) (s : Socket N)
        → Names address type named d
        → Awaits asio peer (named ++ rest) s
        → (s' : Socket N) × (read_destination asio address type s ≡ ok (d, s'))
          × Awaits asio peer rest s'
    unfolding read_address read_domain
    read_destination-Awaits _ _ rest _ s (ipv4 bs hi lo len) h =
        let (s1, run, h1) =
          read_array-Awaits asio peer bs (hi ∷ lo ∷ rest) s
            (h ∙ append_assoc bs (hi ∷ lo ∷ []) rest) in
        read_destination-port 1 hi lo rest s s1 (some (address.make_address_v4 bs), none)
          (rw (subst (λ k. read_array asio k s ≡ ok (bs, s1)) len run) refl) h1
    read_destination-Awaits _ _ rest _ s (ipv6 bs hi lo len) h =
        let (s1, run, h1) =
          read_array-Awaits asio peer bs (hi ∷ lo ∷ rest) s
            (h ∙ append_assoc bs (hi ∷ lo ∷ []) rest) in
        read_destination-port 4 hi lo rest s s1 (some (address.make_address_v6 bs), none)
          (rw (subst (λ k. read_array asio k s ≡ ok (bs, s1)) len run) refl) h1
    read_destination-Awaits _ _ rest _ s (domain bs hi lo) h =
        let (s1, run1, h1) =
          read-Awaits asio peer (length bs ∷ []) (bs ++ hi ∷ lo ∷ rest) s
            (h ∙ ap (λ x. length bs ∷ x) (append_assoc bs (hi ∷ lo ∷ []) rest)) in
        let (s2, run2, h2) = read-Awaits asio peer bs (hi ∷ lo ∷ rest) s1 h1 in
        read_destination-port 3 hi lo rest s s2 (none, some bs) (rw (run1, run2) refl) h2

    read_answer-Awaits :
        (type : ℕ) (named rest : Bytes) (d : Destination address) (s : Socket N)
        → Names address type named d
        → Awaits asio peer (5 ∷ 0 ∷ 0 ∷ type ∷ (named ++ rest)) s
        → (s' : Socket N) × (read_answer asio address s ≡ ok (d, s')) × Awaits asio peer rest s'
    unfolding read_answer
    read_answer-Awaits type named rest d s names h =
        let (s1, run, h1) =
          read_array-Awaits asio peer (5 ∷ 0 ∷ 0 ∷ type ∷ []) (named ++ rest) s h in
        let (s2, run', h2) = read_destination-Awaits type named rest d s1 names h1 in
        (s2, rw run run', h2)

    handshake-Awaits :
        (destination : Bytes) (port : ℕ) (auth_opt : Option ProxyCredentials) (s : Socket N)
        (method : ℕ) (w confirm : Bytes) (type : ℕ) (named rest : Bytes) (d : Destination address)
        → Chose auth_opt method w confirm
        → Names address type named d
        → Awaits asio peer (5 ∷ method ∷ (confirm ++ 5 ∷ 0 ∷ 0 ∷ type ∷ (named ++ rest))) s
        → (s' : Socket N) × (handshake asio address destination port auth_opt s ≡ ok (d, s'))
          × Awaits asio peer rest s'
    unfolding handshake
    handshake-Awaits destination port auth_opt s method w confirm type named rest d chose names h =
        let behind = 5 ∷ 0 ∷ 0 ∷ type ∷ (named ++ rest) in
        let (s1, run1, h1) = initialize-Awaits (5 ∷ method ∷ (confirm ++ behind)) auth_opt s h in
        let (s2, run2, h2) = authenticate-Awaits auth_opt method w confirm behind s1 chose h1 in
        let (s3, run3, h3) = write-Awaits asio peer (request destination port) behind s2 h2 in
        let (s4, run4, h4) = read_answer-Awaits type named rest d s3 names h3 in
        (s4, rw (run1, run2, run3, run4) refl, h4)

    connects :
        (i : ℕ) (n : N)
        → asio.async_connect i ≡ ok n
        → connect asio i ≡ ok (record { string_buffer = []; network = n })
    unfolding connect
    connects i n e = rw e refl

    attempts_done :
        (left i : ℕ) (destination : Bytes) (port : ℕ) (auth_opt : Option ProxyCredentials)
        (s : Socket N) (r : Destination address × Socket N)
        → connect asio i ≡ ok s
        → handshake asio address destination port auth_opt s ≡ ok r
        → attempts asio address (suc left) i destination port auth_opt ≡ ok r
    unfolding attempts
    attempts_done left i destination port auth_opt s r run done =
        let retry : Result (Destination address × Socket N)
            → Result (Destination address × Socket N) =
          λ m. elim m [
            | ok q ↦ ok q
            | err e ↦ attempts asio address left (suc i) destination port auth_opt
            | undefined ↦ undefined
          ] in
        ap (λ m. m >>= λ s. retry (handshake asio address destination port auth_opt s)) run
        ∙ ap retry done

    -- A proxy that stays responsive and answers the first connection as it should, whatever method it
    -- chooses and whatever type of address it names, gives that destination, and the bytes behind its
    -- answer are still there to be read.
    pub connect_proxy_answered :
        (destination : Bytes) (port : ℕ) (auth_opt : Option ProxyCredentials) (n : N) (method : ℕ)
        (w confirm : Bytes) (type : ℕ) (named rest : Bytes) (d : Destination address)
        → IsShort destination auth_opt
        → asio.async_connect 0 ≡ ok n
        → Chose auth_opt method w confirm
        → Names address type named d
        → peer.pending n ≡ 5 ∷ method ∷ (confirm ++ 5 ∷ 0 ∷ 0 ∷ type ∷ (named ++ rest))
        → (s : Socket N) × (connect_proxy asio address destination port auth_opt ≡ ok (d, s))
          × Awaits asio peer rest s
    unfolding connect_proxy
    connect_proxy_answered destination port auth_opt n method w confirm type named rest d short
          connected chose names h =
        let s : Socket N = record { string_buffer = []; network = n } in
        let (s', done, h') =
          handshake-Awaits destination port auth_opt s method w confirm type named rest d chose
            names h in
        (
          s',
          rw (check_lengths-IsShort destination auth_opt short)
              (attempts_done 2 0 destination port auth_opt s (d, s') (connects 0 n connected) done),
          h',
        )
