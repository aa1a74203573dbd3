-- ===== src/Models/Net/RoundTrip.antt =====
-- An address is read back.
use libmw_core.Common.{ℕ, ◌^◌, ◌<◌, ◌≡◌, refl, sym, arith, true, false, Bool-cases, inl, inr}
use libmw_core.Common.{◌++◌, length, u64_mod}
use libmw_core.Exceptions.{ok}
use libmw_core.Util.EndianUtil.{Bytes, Platform}
use libmw_core.Serialization.{◌>>=◌, pure, append_int, append_vector, read_int, read_vector}
use libmw_core.Serialization.RoundTrip.{standing}
use libmw_core.Serialization.Appends.{
  RoundTrips, RoundTrips-bind, RoundTrips-map, RoundTrips-standing, RoundTrips-same,
}
use libmw_core.Serialization.Appends.{append_int-RoundTrips, append_vector-RoundTrips}
use libmw_core.Models.Net.{AsioAddress, SocketAddress, serialize_ip_address, deserialize_ip_address}
use libmw_core.Models.Net.{read_address, serialize_socket_address, deserialize_socket_address}

-- What asio documents of its addresses: the bytes of each family, and that they make the address, of
-- version 6 with the scope id 0.
pub record IsFaithful (asio : AsioAddress) : Type 0 where
  pub v4_size : (a : asio.Address) → asio.is_v4 a ≡ true → length (asio.to_v4_bytes a) ≡ 4
  pub v4_again :
      (a : asio.Address) → asio.is_v4 a ≡ true → asio.make_address_v4 (asio.to_v4_bytes a) ≡ a
  pub v6_size : (a : asio.Address) → asio.is_v4 a ≡ false → length (asio.to_v6_bytes a) ≡ 16
  pub v6_again :
      (a : asio.Address)
      → asio.is_v4 a ≡ false
      → asio.scope_id a ≡ 0
      → asio.make_address_v6 (asio.to_v6_bytes a) ≡ a

sized-RoundTrips :
    {A : Type 0} (n : ℕ) (bs : Bytes) (f : Bytes → A) (a : A)
    → length bs ≡ n
    → f bs ≡ a
    → RoundTrips (append_vector bs) (read_vector n >>= λ x. pure (f x)) a
sized-RoundTrips n bs f a size e =
    rw (sym size, sym e)
      (RoundTrips-map (append_vector bs) (read_vector (length bs)) f bs
        (append_vector-RoundTrips bs))

module _ ⦃p : Platform⦄ (asio : AsioAddress) (h : IsFaithful asio) where
  ip_address-RoundTrips :
      (a : asio.Address)
      → (asio.is_v4 a ≡ false → asio.scope_id a ≡ 0)
      → RoundTrips (serialize_ip_address asio a) (deserialize_ip_address asio) a
  unfolding serialize_ip_address deserialize_ip_address read_address
  ip_address-RoundTrips a unscoped = elim (Bool-cases (asio.is_v4 a)) [
    | inl e ↦
        RoundTrips-same (serialize_ip_address asio a)
          (λ s. append_vector (asio.to_v4_bytes a) (append_int 1 0 s)) (deserialize_ip_address asio)
          a (λ s. rw (serialize_ip_address, e) refl)
          (RoundTrips-bind (append_int 1 0) (append_vector (asio.to_v4_bytes a)) (read_int 1)
            (read_address asio) 0 a (append_int-RoundTrips 1 0 (omega arith))
            (sized-RoundTrips 4 (asio.to_v4_bytes a) asio.make_address_v4 a (h.v4_size a e)
              (h.v4_again a e)))
    | inr e ↦
        RoundTrips-same (serialize_ip_address asio a)
          (λ s. append_vector (asio.to_v6_bytes a) (append_int 1 1 s)) (deserialize_ip_address asio)
          a (λ s. rw (serialize_ip_address, e) refl)
          (RoundTrips-bind (append_int 1 1) (append_vector (asio.to_v6_bytes a)) (read_int 1)
            (read_address asio) 1 a (append_int-RoundTrips 1 1 (omega arith))
            (sized-RoundTrips 16 (asio.to_v6_bytes a) asio.make_address_v6 a (h.v6_size a e)
              (h.v6_again a e (unscoped e))))
  ]

-- A socket address that is written anywhere is read back, of either family: the port is a 16-bit
-- number, and an address of version 6 has the scope id 0, since the scope id is not written.
pub deserialize_socket_address-serialize_socket_address :
    ⦃p : Platform⦄ (asio : AsioAddress) (address : SocketAddress asio) (front rest : Bytes)
    → IsFaithful asio
    → (asio.is_v4 address.ip_address ≡ false → asio.scope_id address.ip_address ≡ 0)
    → address.port < 2 ^ 16
    → length (serialize_socket_address asio address front ++ rest) < u64_mod
    → let out = serialize_socket_address asio address front in
      deserialize_socket_address asio (standing front (out ++ rest))
      ≡ ok (address, standing out (out ++ rest))
unfolding serialize_socket_address deserialize_socket_address
deserialize_socket_address-serialize_socket_address asio address front rest h unscoped small fits =
    let make : ℕ → SocketAddress asio =
      λ port. record { ip_address = address.ip_address; port = port } in
    RoundTrips-standing
      (λ s. append_int 2 address.port (serialize_ip_address asio address.ip_address s))
      (deserialize_socket_address asio) address front rest
      (RoundTrips-bind (serialize_ip_address asio address.ip_address) (append_int 2 address.port)
        (deserialize_ip_address asio)
        (λ ip. read_int 2 >>= λ port. pure (record { ip_address = ip; port = port }))
        address.ip_address address (ip_address-RoundTrips asio h address.ip_address unscoped)
        (RoundTrips-map (append_int 2 address.port) (read_int 2) make address.port
          (append_int-RoundTrips 2 address.port (omega arith))))
      fits
