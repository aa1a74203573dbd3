-- ===== src/Net/Socks5Proxy/Tests.antt =====
-- The theorems on the proxy at a wire that holds the answers from the start.
use mathlib.Core.Path.{subst}
use libmw_core.Common.{ℕ, ◌≤◌, ◌<◌, ◌≡◌, inl, inr, refl, sym, ap, arith, Bool-cases, true}
use libmw_core.Common.{some, none, [], ◌∷◌, ◌++◌, length, length-take, take, drop, leb, le→leb}
use libmw_core.Common.{if◌then◌else◌}
use libmw_core.Exceptions.{Result, ok, err, ok_inj, system_error, network_exception}
use libmw_core.Util.EndianUtil.{Bytes}
use libmw_core.Samples.{little_endian}
use libmw_core.Models.Net.{AsioAddress}
use libmw_core.Net.Socket.{Asio, Socket}
use libmw_core.Net.Socket.Session.{IsStream}
use libmw_core.Net.Socks5Proxy.{Destination, connect_proxy}
use libmw_core.Net.Socket.Ready.{IsResponsive, Awaits}
use libmw_core.Net.Socks5Proxy.Transcript.{no_auth, ipv4}
use libmw_core.Net.Socks5Proxy.Completeness.{connect_proxy_answered}
use libmw_core.Net.Socks5Proxy.Handshake.{Transcript, connect_proxy-Transcript}

-- What the proxy will answer, and what was sent and received.
record Wire : Type 0 where
  pending : Bytes
  sends : Bytes
  gets : Bytes

abbrev answers : Bytes
answers = 5 ∷ 0 ∷ 5 ∷ 0 ∷ 0 ∷ 1 ∷ 127 ∷ 0 ∷ 0 ∷ 1 ∷ 1 ∷ 187 ∷ 99 ∷ []

abbrev take_from : ℕ → Wire → Bytes × Wire
take_from count n = (
  take count n.pending,
  record n { pending = drop count n.pending; gets = n.gets ++ take count n.pending },
)

read_wire : ℕ → Wire → Result (Bytes × Wire)
read_wire count n =
    if leb count (length n.pending) then ok (take_from count n) else err system_error

abbrev wire : Asio Wire
wire = record {
  async_connect = λ i. ok (record { pending = answers; sends = []; gets = [] });
  async_read = read_wire;
  async_write = λ bs n. ok (record n { sends = n.sends ++ bs });
}

wire-reads :
    (count : ℕ) (n : Wire) (got : Bytes × Wire)
    → read_wire count n ≡ ok got
    → (length got.0 ≡ count) × (got.1.gets ≡ n.gets ++ got.0) × (got.1.sends ≡ n.sends)
unfolding read_wire
wire-reads count n got e = elim (Bool-cases (leb count (length n.pending))) [
  | inl fits ↦
      let many : length (take count n.pending) ≡ count =
        (let len = length-take count n.pending in ground arith) in
      subst
        (λ (g : Bytes × Wire).
          (length g.0 ≡ count) × (g.1.gets ≡ n.gets ++ g.0) × (g.1.sends ≡ n.sends))
        (ok_inj (rw fits at e)) (many, refl, refl)
  | inr over ↦ absurd (let clash = rw over at e in cc)
]

wire-IsStream : IsStream wire
wire-IsStream = record {
  sent = λ n. n.sends;
  received = λ n. n.gets;
  connects = λ i n e.
      (sym (ap (λ (w : Wire). w.sends) (ok_inj e)), sym (ap (λ (w : Wire). w.gets) (ok_inj e)));
  reads = wire-reads;
  writes = λ bs n n' e.
      (sym (ap (λ (w : Wire). w.sends) (ok_inj e)), sym (ap (λ (w : Wire). w.gets) (ok_inj e)));
}

-- Addresses that are their bytes.
abbrev raw : AsioAddress
raw = record {
  Address = Bytes;
  make_address_v4 = λ bs. bs;
  make_address_v6 = λ bs. bs;
  is_v4 = λ bs. true;
  scope_id = λ bs. 0;
  to_v4_bytes = λ bs. bs;
  to_v6_bytes = λ bs. bs;
}

connect_proxy-Transcript_example :
    ((r : Destination raw × Socket Wire)
      → connect_proxy wire raw (104 ∷ []) 443 none ≡ ok r
      → (1 ≤ 255) × Transcript wire wire-IsStream raw (104 ∷ []) 443 none r)
    × (255 < 1 → connect_proxy wire raw (104 ∷ []) 443 none ≡ err network_exception)
connect_proxy-Transcript_example =
    connect_proxy-Transcript wire wire-IsStream raw (104 ∷ []) 443 none

wire-delivers :
    (count : ℕ) (n : Wire)
    → count ≤ length n.pending
    → (n' : Wire) × (read_wire count n ≡ ok (take count n.pending, n'))
      × (n'.pending ≡ drop count n.pending)
unfolding read_wire
wire-delivers count n h =
    let fits : leb count (length n.pending) ≡ true = le→leb count (length n.pending) h in
    ((take_from count n).1, rw fits refl, refl)

wire-IsResponsive : IsResponsive wire
wire-IsResponsive = record {
  pending = λ n. n.pending;
  delivers = wire-delivers;
  accepts = λ bs n. (record n { sends = n.sends ++ bs }, refl, refl);
}

connect_proxy_answered_example :
    (s : Socket Wire) × (connect_proxy wire raw (104 ∷ []) 443 none
      ≡ ok (record { ip_address = some (127 ∷ 0 ∷ 0 ∷ 1 ∷ []); domain_name = none; port = 443 }, s))
    × Awaits wire wire-IsResponsive (99 ∷ []) s
unfolding wire-IsResponsive
connect_proxy_answered_example =
    connect_proxy_answered wire wire-IsResponsive raw (104 ∷ []) 443 none
      (record { pending = answers; sends = []; gets = [] }) 0 [] [] 1
      (127 ∷ 0 ∷ 0 ∷ 1 ∷ 1 ∷ 187 ∷ []) (99 ∷ [])
      (record { ip_address = some (127 ∷ 0 ∷ 0 ∷ 1 ∷ []); domain_name = none; port = 443 })
      (omega arith) refl (no_auth none) (ipv4 (127 ∷ 0 ∷ 0 ∷ 1 ∷ []) 1 187 refl) refl
