-- ===== src/Net/Socks5Proxy/Answers.antt =====
-- What the proxy has answered when a step of the handshake returns.
use mathlib.Core.Path.{subst}
use mathlib.Core.List.{reverse}
use libmw_core.Common.{ℕ, ◌+◌, ◌*◌, ◌≡◌, inl, inr, refl, sym, ap, ◌∙◌, arith}
use libmw_core.Common.{Bool, Bool-cases, true, false, not, ◌||◌, Option, some, none, [], ◌∷◌, ◌++◌}
use libmw_core.Common.{length, get_or, append_assoc, append-nil, ◌==◌, ==_iff}
use libmw_core.Exceptions.{Result, Exception, ok, err, undefined, ok_inj, ok_bind, ◌>>=◌, throw_if}
use libmw_core.Util.EndianUtil.{Bytes, Platform, from_le_bytes}
use libmw_core.Serialization.{Deserializer, read_int, read_slice}
use libmw_core.Serialization.Order.{read_int-be}
use libmw_core.Serialization.Reads.{read_slice-Reads}
use libmw_core.Net.Socket.{Asio, Socket, read_array, write}
use libmw_core.Net.Socket.Session.{IsStream, Session, read_array-Session, write-Session}
use libmw_core.Net.Socks5Proxy.{ProxyCredentials, authenticate_by, authenticate}
use libmw_core.Net.Socks5Proxy.{credentials}
use libmw_core.Net.Socks5Proxy.Transcript.{Chose, no_auth, user_pass}
use libmw_core.Net.Socks5Proxy.Transcript.{credentials-bytes}

-- A guard that did not throw.
pub passes :
    {A : Type 0} (b : Bool) (x : Exception) (f : Unit {0} → Result A) (r : A)
    → (throw_if b x >>= f) ≡ ok r
    → (b ≡ false) × (f tt ≡ ok r)
passes true x f r e = cc
passes false x f r e = (refl, e)

pub equals : (a b : ℕ) → not (a == b) ≡ false → a ≡ b
equals a b h = ground arith

pub neither : (a b : Bool) → (a || b) ≡ false → (a ≡ false) × (b ≡ false)
neither true b e = cc
neither false b e = (refl, e)

pub two : (bs : Bytes) → length bs ≡ 2 → bs ≡ get_or bs 0 0 ∷ get_or bs 1 0 ∷ []
two [] h = absurd (omega arith)
two (a ∷ []) h = absurd (omega arith)
two (a ∷ b ∷ []) h = refl
two (a ∷ b ∷ c ∷ cs) h = absurd (omega arith)

pub four :
    (bs : Bytes)
    → length bs ≡ 4
    → bs ≡ get_or bs 0 0 ∷ get_or bs 1 0 ∷ get_or bs 2 0 ∷ get_or bs 3 0 ∷ []
four [] h = absurd (omega arith)
four (a ∷ []) h = absurd (omega arith)
four (a ∷ b ∷ []) h = absurd (omega arith)
four (a ∷ b ∷ c ∷ []) h = absurd (omega arith)
four (a ∷ b ∷ c ∷ d ∷ []) h = refl
four (a ∷ b ∷ c ∷ d ∷ x ∷ xs) h = absurd (omega arith)

abbrev pub port_bytes : ℕ → ℕ → Deserializer
port_bytes hi lo = record { index = 0; bytes = hi ∷ lo ∷ [] }

module _ ⦃p : Platform⦄ where
  -- The port behind an address, highest byte first.
  pub read_int-port :
      (hi lo : ℕ)
      → read_int 2 (port_bytes hi lo) ≡ ok (256 * hi + lo, record (port_bytes hi lo) { index = 2 })
  unfolding from_le_bytes
  read_int-port hi lo =
      let slice : read_slice 2 (port_bytes hi lo)
          ≡ ok (hi ∷ lo ∷ [], record (port_bytes hi lo) { index = 2 }) =
        read_slice-Reads (hi ∷ lo ∷ []) [] [] (omega arith) in
      let sum : lo + 256 * (hi + 256 * 0) ≡ 256 * hi + lo = omega arith in
      ap (λ r. r (port_bytes hi lo)) (read_int-be 2)
      ∙ ap
          (λ (m : Result (Bytes × Deserializer)). elim m [
            | ok (a, d) ↦ ok (from_le_bytes (reverse a), d)
            | err x ↦ err x
            | undefined ↦ undefined
          ])
          slice
      ∙ ap (λ v. ok (v, record (port_bytes hi lo) { index = 2 })) sum

  -- The port that is read off two bytes.
  pub read_port :
      (bs : Bytes) (port : ℕ × Deserializer)
      → length bs ≡ 2
      → read_int 2 (record { index = 0; bytes = bs }) ≡ ok port
      → port.0 ≡ 256 * get_or bs 0 0 + get_or bs 1 0
  read_port bs port h e =
      let run : read_int 2 (port_bytes (get_or bs 0 0) (get_or bs 1 0)) ≡ ok port =
        subst (λ b. read_int 2 (record { index = 0; bytes = b }) ≡ ok port) (two bs h) e in
      ap (λ r. r.0) (ok_inj (sym run ∙ read_int-port (get_or bs 0 0) (get_or bs 1 0)))

  module _ {N : Type 0} (asio : Asio N) (stream : IsStream asio) where
    -- The socket as it is, where the proxy chose no authentication.
    nothing_sent :
        (output input : Bytes) (method : ℕ) (auth_opt : Option ProxyCredentials) (s s' : Socket N)
        → Session asio stream output input s
        → method ≡ 0
        → s ≡ s'
        → (w : Bytes) × (r : Bytes) × Chose auth_opt method w r
          × Session asio stream (output ++ w) (input ++ r) s'
    nothing_sent output input method auth_opt s s' h zeroth same = (
      [],
      [],
      subst (λ m. Chose auth_opt m [] []) (sym zeroth) (no_auth auth_opt),
      rw (append-nil output, append-nil input) (subst (Session asio stream output input) same h),
    )

    -- The name and the password are sent, and the proxy confirms them.
    password_sent :
        (output input : Bytes) (auth : ProxyCredentials) (s s1 s' : Socket N)
        (response : Bytes × Socket N)
        → Session asio stream output input s
        → write asio (credentials auth) s ≡ ok s1
        → read_array asio 2 s1 ≡ ok response
        → (not (get_or response.0 0 0 == 1) || not (get_or response.0 1 0 == 0)) ≡ false
        → response.1 ≡ s'
        → (w : Bytes) × (r : Bytes) × Chose (some auth) 2 w r
          × Session asio stream (output ++ w) (input ++ r) s'
    password_sent output input auth s s1 s' response h wrote run guard same =
        let h1 = write-Session asio stream output input (credentials auth) s s1 h wrote in
        let (many, h2) =
          read_array-Session asio stream (output ++ credentials auth) input 2 s1 response h1 run in
        let (one, zeroth) = neither _ _ guard in
        let confirmed : response.0 ≡ 1 ∷ 0 ∷ [] =
          two response.0 many
          ∙ ap (λ x. x ∷ get_or response.0 1 0 ∷ []) (equals (get_or response.0 0 0) 1 one)
          ∙ ap (λ x. 1 ∷ x ∷ []) (equals (get_or response.0 1 0) 0 zeroth) in
        (
          credentials auth,
          1 ∷ 0 ∷ [],
          subst (λ w. Chose (some auth) 2 w (1 ∷ 0 ∷ [])) (sym (credentials-bytes auth))
              (user_pass auth),
          subst (λ r. Session asio stream (output ++ credentials auth) (input ++ r) s') confirmed
              (subst (Session asio stream (output ++ credentials auth) (input ++ response.0)) same
                h2),
        )

    -- `Authenticate` behind the choice of the method.
    authenticate_by-Chose :
        (output input : Bytes) (method : ℕ) (auth_opt : Option ProxyCredentials) (s s' : Socket N)
        → Session asio stream output input s
        → authenticate_by asio method auth_opt s ≡ ok s'
        → (w : Bytes) × (r : Bytes) × Chose auth_opt method w r
          × Session asio stream (output ++ w) (input ++ r) s'
    unfolding authenticate_by
    authenticate_by-Chose output input method none s s' h e = elim (Bool-cases (method == 0)) [
      | inl same ↦
          nothing_sent output input method none s s' h ((==_iff method 0).0 same)
            (ok_inj (rw same at e))
      | inr other ↦ absurd (let clash = rw other at e in cc)
    ]
    authenticate_by-Chose output input method (some auth) s s' h e =
        elim (Bool-cases (method == 2)) [
          | inl same ↦
              let (s1, wrote, e1) = ok_bind (write asio (credentials auth) s) _ s' (rw same at e) in
              let (response, run, e2) = ok_bind (read_array asio 2 s1) _ s' e1 in
              let (guard, e3) = passes _ _ _ s' e2 in
              subst
                (λ m.
                  (w : Bytes) × (r : Bytes) × Chose (some auth) m w r
                  × Session asio stream (output ++ w) (input ++ r) s')
                (sym ((==_iff method 2).0 same))
                (password_sent output input auth s s1 s' response h wrote run guard (ok_inj e3))
          | inr other ↦ elim (Bool-cases (method == 0)) [
            | inl same ↦
                nothing_sent output input method (some auth) s s' h ((==_iff method 0).0 same)
                  (ok_inj (rw (other, same) at e))
            | inr neither_one ↦ absurd (let clash = rw (other, neither_one) at e in cc)
          ]
        ]

    pub authenticate-Chose :
        (output input : Bytes) (auth_opt : Option ProxyCredentials) (s s' : Socket N)
        → Session asio stream output input s
        → authenticate asio auth_opt s ≡ ok s'
        → (method : ℕ) × (w : Bytes) × (r : Bytes) × Chose auth_opt method w r
          × Session asio stream (output ++ w) (input ++ 5 ∷ method ∷ r) s'
    unfolding authenticate
    authenticate-Chose output input auth_opt s s' h e =
        let (got, run, e1) = ok_bind (read_array asio 2 s) _ s' e in
        let (many, h1) = read_array-Session asio stream output input 2 s got h run in
        let (five, e2) = passes (not (get_or got.0 0 0 == 5)) _ _ s' e1 in
        let method = get_or got.0 1 0 in
        let (w, r, chose, h2) =
          authenticate_by-Chose output (input ++ got.0) method auth_opt got.1 s' h1 e2 in
        let head : got.0 ≡ 5 ∷ method ∷ [] =
          two got.0 many ∙ ap (λ x. x ∷ method ∷ []) (equals (get_or got.0 0 0) 5 five) in
        (
          method,
          w,
          r,
          chose,
          subst (λ i. Session asio stream (output ++ w) i s')
              (append_assoc input got.0 r ∙ ap (λ x. input ++ (x ++ r)) head) h2,
        )
