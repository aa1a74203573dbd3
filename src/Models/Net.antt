-- ===== src/Models/Net.antt =====
-- include/mw/core/models/net/IPAddress.h and SocketAddress.h.
pub mod RoundTrip
pub mod Tests
use libmw_core.Common.{ℕ, Bool, true, false, not, List, ◌==◌, if◌then◌else◌}
use libmw_core.Exceptions.{Result, ok, err, deserialization_exception}
use libmw_core.Util.EndianUtil.{Bytes, Platform}
use libmw_core.Serialization.{
  Deserializer, Read, ◌>>=◌, pure, append_int, append_vector, read_int, read_vector,
}

-- `asio::ip::address`: an address of four bytes, or of sixteen with the id of its scope beside them.
pub record AsioAddress : Type 1 where
  pub Address : Type 0
  pub make_address_v4 : Bytes → Address
  pub make_address_v6 : Bytes → Address
  pub is_v4 : Address → Bool
  pub scope_id : Address → ℕ
  pub to_v4_bytes : Address → Bytes
  pub to_v6_bytes : Address → Bytes

-- An exception of a read.
abbrev pub throw : {A : Type 0} → Read A
throw d = err deserialization_exception

module _ ⦃p : Platform⦄ (asio : AsioAddress) where
  -- `IPAddress::Serialize`
  unfoldable pub serialize_ip_address : asio.Address → Bytes → Bytes
  serialize_ip_address address serialized =
      if asio.is_v4 address
      then append_vector (asio.to_v4_bytes address) (append_int 1 0 serialized)
      else append_vector (asio.to_v6_bytes address) (append_int 1 1 serialized)

  -- What `IPAddress::Deserialize` reads behind the family.
  unfoldable pub read_address : ℕ → Read asio.Address
  read_address family =
      if family == 0
      then (read_vector 4 >>= λ bytes. pure (asio.make_address_v4 bytes))
      else if family == 1
      then (read_vector 16 >>= λ bytes. pure (asio.make_address_v6 bytes))
      else throw

  -- `IPAddress::Deserialize`
  unfoldable pub deserialize_ip_address : Read asio.Address
  unfolding read_address
  deserialize_ip_address = read_int 1 >>= read_address

  -- `class SocketAddress`
  pub record SocketAddress : Type 0 where
    pub ip_address : asio.Address
    pub port : ℕ

  unfoldable pub serialize_socket_address : SocketAddress → Bytes → Bytes
  unfolding serialize_ip_address
  serialize_socket_address address serialized =
      append_int 2 address.port (serialize_ip_address address.ip_address serialized)

  unfoldable pub deserialize_socket_address : Read SocketAddress
  unfolding deserialize_ip_address
  deserialize_socket_address = do
    ip_address ← deserialize_ip_address
    port ← read_int 2
    pure (record { ip_address = ip_address; port = port })
