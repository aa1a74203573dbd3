-- ===== src/Net/Socket/Ready.antt =====
-- Reads from a peer whose bytes will all come.
use libmw_core.Common.{ℕ, ◌+◌, ◌-◌, ◌≤◌, ◌≡◌, inl, inr, refl, sym, ap, ◌∙◌, arith, Bool-cases, true}
use libmw_core.Common.{[], ◌++◌, length, length-append, take, drop, leb}
use libmw_core.Common.{take-append_left, drop-append_left, take-append_right, drop-append_right}
use libmw_core.Common.{
  take-append_length, drop-append_length, take-length, drop-length, ◌==◌, ==_iff,
}
use libmw_core.Exceptions.{ok}
use libmw_core.Util.EndianUtil.{Bytes}
use libmw_core.Net.Socket.{Asio, Socket, read, read_array, write}

-- A peer that never stalls: a read of no more than it has yet to send returns, and all is accepted.
pub record IsResponsive {N : Type 0} (asio : Asio N) : Type 0 where
  pub pending : N → Bytes
  pub delivers :
      (count : ℕ) (n : N)
      → count ≤ length (pending n)
      → (n' : N) × (asio.async_read count n ≡ ok (take count (pending n), n'))
        × (pending n' ≡ drop count (pending n))
  pub accepts :
      (bs : Bytes) (n : N) → (n' : N) × (asio.async_write bs n ≡ ok n') × (pending n' ≡ pending n)

module _ {N : Type 0} (asio : Asio N) (peer : IsResponsive asio) where
  -- What is still to be read off the socket.
  abbrev pub Awaits : Bytes → Socket N → Type 0
  Awaits bs s = s.string_buffer ++ peer.pending s.network ≡ bs

  pub read-Awaits :
      (bs rest : Bytes) (s : Socket N)
      → Awaits (bs ++ rest) s
      → (s' : Socket N) × (read asio (length bs) s ≡ ok (bs, s')) × Awaits rest s'
  unfolding read
  read-Awaits bs rest s h =
      let count = length bs in
      let buffer = s.string_buffer in
      let coming = peer.pending s.network in
      let first : take count (buffer ++ coming) ≡ bs =
        ap (take count) h ∙ take-append_length bs rest in
      let later : drop count (buffer ++ coming) ≡ rest =
        ap (drop count) h ∙ drop-append_length bs rest in
      elim (Bool-cases (leb count (length buffer))) [
        | inl fits ↦
            let enough : count ≤ length buffer = ground arith in
            (
              record s { string_buffer = drop count buffer },
              rw fits (
                  ap (λ x. ok (x, record s { string_buffer = drop count buffer }))
                    (sym (take-append_left count buffer coming enough) ∙ first)),
              sym (drop-append_left count buffer coming enough) ∙ later,
            )
        | inr over ↦
            let more = count - length buffer in
            let sum : length buffer + more ≡ count = ground arith in
            let total = length-append buffer coming in
            let total' = length-append bs rest in
            let same : length (buffer ++ coming) ≡ length (bs ++ rest) = ap length h in
            let (n', run, left) = peer.delivers more s.network (omega arith) in
            let whole : buffer ++ take more coming ≡ bs =
              sym (take-append_right more buffer coming)
              ∙ ap (λ k. take k (buffer ++ coming)) sum
              ∙ first in
            (
              record { string_buffer = []; network = n' },
              rw (over, run, whole, take-length bs, drop-length bs) refl,
              left
                  ∙ sym (drop-append_right more buffer coming)
                  ∙ ap (λ k. drop k (buffer ++ coming)) sum
                  ∙ later,
            )
      ]

  pub read_array-Awaits :
      (bs rest : Bytes) (s : Socket N)
      → Awaits (bs ++ rest) s
      → (s' : Socket N) × (read_array asio (length bs) s ≡ ok (bs, s')) × Awaits rest s'
  unfolding read_array
  read_array-Awaits bs rest s h =
      let (s', run, h') = read-Awaits bs rest s h in
      let same : (length bs == length bs) ≡ true = (==_iff (length bs) (length bs)).1 refl in
      (s', rw (run, same) refl, h')

  pub write-Awaits :
      (bs rest : Bytes) (s : Socket N)
      → Awaits rest s
      → (s' : Socket N) × (write asio bs s ≡ ok s') × Awaits rest s'
  unfolding write
  write-Awaits bs rest s h =
      let (n', run, same) = peer.accepts bs s.network in
      (record s { network = n' }, rw run refl, ap (λ x. s.string_buffer ++ x) same ∙ h)
