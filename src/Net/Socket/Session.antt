-- ===== src/Net/Socket/Session.antt =====
-- What a socket has sent and what it has read, along its calls.
use mathlib.Core.Path.{subst}
use libmw_core.Common.{ℕ, ◌-◌, ◌≤◌, ◌≡◌, inl, inr, sym, ap, ◌∙◌, arith, Bool-cases}
use libmw_core.Common.{[], ◌++◌, append_assoc, length, length-append, length-take, take, drop, leb}
use libmw_core.Common.{take-append-drop, ◌==◌}
use libmw_core.Exceptions.{ok, ok_inj, ok_bind}
use libmw_core.Util.EndianUtil.{Bytes}
use libmw_core.Net.Socket.{Asio, Socket, connect, read, read_array, write}

-- What asio documents: a connection is a stream each way, a read has the bytes it asked for, and a
-- write sends all.
pub record IsStream {N : Type 0} (asio : Asio N) : Type 0 where
  pub sent : N → Bytes
  pub received : N → Bytes
  pub connects : (i : ℕ) (n : N) → asio.async_connect i ≡ ok n → (sent n ≡ []) × (received n ≡ [])
  pub reads :
      (count : ℕ) (n : N) (got : Bytes × N)
      → asio.async_read count n ≡ ok got
      → (length got.0 ≡ count) × (received got.1 ≡ received n ++ got.0) × (sent got.1 ≡ sent n)
  pub writes :
      (bs : Bytes) (n n' : N)
      → asio.async_write bs n ≡ ok n'
      → (sent n' ≡ sent n ++ bs) × (received n' ≡ received n)

module _ {N : Type 0} (asio : Asio N) (stream : IsStream asio) where
  -- All that was sent, and all that was read off the socket, in front of its buffer.
  pub record Session (output input : Bytes) (s : Socket N) : Type 0 where
    pub sends : stream.sent s.network ≡ output
    pub takes : stream.received s.network ≡ input ++ s.string_buffer

  pub connect-Session : (i : ℕ) (s : Socket N) → connect asio i ≡ ok s → Session [] [] s
  unfolding connect
  connect-Session i s e =
      let (n, run, e') = ok_bind (asio.async_connect i) _ s e in
      let (sends, takes) = stream.connects i n run in
      subst (Session [] []) (ok_inj e') (record { sends = sends; takes = takes })

  -- A buffer that holds enough gives the first bytes and keeps the others.
  taken :
      (output input buffer : Bytes) (count : ℕ) (network : N)
      → count ≤ length buffer
      → stream.sent network ≡ output
      → stream.received network ≡ input ++ buffer
      → (length (take count buffer) ≡ count)
        × Session output
            (input ++ take count buffer)
            (record { string_buffer = drop count buffer; network = network })
  taken output input buffer count network h sends takes = (
    omega (arith, length-take count buffer),
    record {
      sends = sends;
      takes =
          takes
          ∙ ap (λ x. input ++ x) (sym (take-append-drop count buffer))
          ∙ sym (append_assoc input (take count buffer) (drop count buffer));
    },
  )

  pub read-Session :
      (output input : Bytes) (count : ℕ) (s : Socket N) (got : Bytes × Socket N)
      → Session output input s
      → read asio count s ≡ ok got
      → (length got.0 ≡ count) × Session output (input ++ got.0) got.1
  unfolding read
  read-Session output input count s got h e =
      elim (Bool-cases (leb count (length s.string_buffer))) [
        | inl fits ↦
            subst (λ g. (length g.0 ≡ count) × Session output (input ++ g.0) g.1)
              (ok_inj (rw fits at e))
              (taken output input s.string_buffer count s.network (ground arith) h.sends h.takes)
        | inr over ↦
            let (more, run, e') =
              ok_bind (asio.async_read (count - length s.string_buffer) s.network) _ got
                (rw over at e) in
            let (many, received, sent) =
              stream.reads (count - length s.string_buffer) s.network more run in
            subst (λ g. (length g.0 ≡ count) × Session output (input ++ g.0) g.1) (ok_inj e')
              (taken output input (s.string_buffer ++ more.0) count more.1
                (omega (arith, length-append s.string_buffer more.0, many)) (sent ∙ h.sends)
                (received
                  ∙ ap (λ x. x ++ more.0) h.takes
                  ∙ append_assoc input s.string_buffer more.0))
      ]

  pub read_array-Session :
      (output input : Bytes) (count : ℕ) (s : Socket N) (got : Bytes × Socket N)
      → Session output input s
      → read_array asio count s ≡ ok got
      → (length got.0 ≡ count) × Session output (input ++ got.0) got.1
  unfolding read_array
  read_array-Session output input count s got h e =
      let (found, run, e') = ok_bind (read asio count s) _ got e in
      elim (Bool-cases (length found.0 == count)) [
        | inl same ↦
            subst (λ g. (length g.0 ≡ count) × Session output (input ++ g.0) g.1)
              (ok_inj (rw same at e')) (read-Session output input count s found h run)
        | inr other ↦ absurd (let clash = rw other at e' in cc)
      ]

  pub write-Session :
      (output input bs : Bytes) (s s' : Socket N)
      → Session output input s
      → write asio bs s ≡ ok s'
      → Session (output ++ bs) input s'
  unfolding write
  write-Session output input bs s s' h e =
      let (n, run, e') = ok_bind (asio.async_write bs s.network) _ s' e in
      let (sent, received) = stream.writes bs s.network n run in
      subst (Session (output ++ bs) input) (ok_inj e')
        (record { sends = sent ∙ ap (λ x. x ++ bs) h.sends; takes = received ∙ h.takes })
