-- ===== src/Net/Socks5Proxy.antt =====
-- src/net/proxy/Socks5Proxy.cpp and include/mw/core/net/proxy/SOCKS.h: a connection through a SOCKS5
-- proxy, from the greeting to the address that the proxy answers with.

pub mod Transcript
pub mod Answers
pub mod Naming
pub mod Handshake
pub mod Completeness
pub mod Tests
use libmw_core.Common.{
  ℕ, zero, suc, Bool, true, false, not, ◌||◌, Option, some, none, List, [], ◌∷◌,
}
use libmw_core.Common.{length, get_or, ltb, ◌==◌, if◌then◌else◌}
use libmw_core.Exceptions.{Result, ok, err, undefined, ◌>>=◌, throw_if, network_exception}
use libmw_core.Util.EndianUtil.{Bytes, Platform}
use libmw_core.Serialization.{append_int, append_string, read_int}
use libmw_core.Models.Net.{AsioAddress}
use libmw_core.Net.Socket.{Asio, Socket, connect, read, read_array, write}

-- `SOCKS::ProxyCredentials`
pub record ProxyCredentials : Type 0 where
  pub username : Bytes
  pub password : Bytes

-- `SOCKS::Destination`
pub record Destination (address : AsioAddress) : Type 0 where
  pub ip_address : Option address.Address
  pub domain_name : Option Bytes
  pub port : ℕ

-- The checks of the static `Connect`.
unfoldable pub check_lengths : Bytes → Option ProxyCredentials → Result (Unit {0})
check_lengths destination none = throw_if (ltb 255 (length destination)) network_exception
check_lengths destination (some auth) = do
  _ ← throw_if (ltb 255 (length destination)) network_exception
  throw_if (ltb 255 (length auth.username) || ltb 255 (length auth.password)) network_exception

module _ ⦃p : Platform⦄ where
  -- What `Authenticate` sends for a name and a password.
  unfoldable pub credentials : ProxyCredentials → Bytes
  unfolding append_int
  credentials auth = append_string auth.password (append_string auth.username (append_int 1 1 []))

  -- The request in the member function `Connect`.
  unfoldable pub request : Bytes → ℕ → Bytes
  unfolding append_int
  request destination port = append_int 2 port (
      append_string destination
        (append_int 1 3 (append_int 1 0 (append_int 1 1 (append_int 1 5 [])))))

module _ {N : Type 0} (asio : Asio N) where
  -- `Initialize`: the methods of authentication that the client has.
  unfoldable pub initialize : Option ProxyCredentials → Socket N → Result (Socket N)
  initialize none s = write asio (5 ∷ 1 ∷ 0 ∷ []) s
  initialize (some auth) s = write asio (5 ∷ 2 ∷ 0 ∷ 2 ∷ []) s

  module _ ⦃p : Platform⦄ where
    -- The branches of `Authenticate`, by the method that the proxy chose.
    unfoldable pub authenticate_by : ℕ → Option ProxyCredentials → Socket N → Result (Socket N)
    authenticate_by method none s = if method == 0 then ok s else err network_exception
    authenticate_by method (some auth) s =
        if method == 2
        then (do
          s' ← write asio (credentials auth) s
          response ← read_array asio 2 s'
          _ ←
              throw_if (not (get_or response.0 0 0 == 1) || not (get_or response.0 1 0 == 0))
                network_exception
          ok response.1)
        else if method == 0
        then ok s
        else err network_exception

    unfoldable pub authenticate : Option ProxyCredentials → Socket N → Result (Socket N)
    authenticate auth_opt s = do
      received ← read_array asio 2 s
      _ ← throw_if (not (get_or received.0 0 0 == 5)) network_exception
      authenticate_by (get_or received.0 1 0) auth_opt received.1

  -- The domain name in `ReadDestination`, behind the read of its length.
  unfoldable pub read_domain : Bytes → Socket N → Result (Bytes × Socket N)
  read_domain [] s = undefined
  read_domain (n ∷ ns) s = read asio n s

  module _ (address : AsioAddress) where
    -- The address in `ReadDestination`, by its type.
    unfoldable pub read_address :
        ℕ → Socket N → Result ((Option address.Address × Option Bytes) × Socket N)
    read_address type s =
        if type == 1
        then (do
          got ← read_array asio 4 s
          ok ((some (address.make_address_v4 got.0), none), got.1))
        else if type == 4
        then (do
          got ← read_array asio 16 s
          ok ((some (address.make_address_v6 got.0), none), got.1))
        else if type == 3
        then (do
          count ← read asio 1 s
          got ← read_domain count.0 count.1
          ok ((none, some got.0), got.1))
        else err network_exception

    module _ ⦃p : Platform⦄ where
      -- `ReadDestination`
      unfoldable pub read_destination : ℕ → Socket N → Result (Destination address × Socket N)
      read_destination type s = do
        found ← read_address type s
        port_bytes ← read asio 2 found.1
        port ← read_int 2 (record { index = 0; bytes = port_bytes.0 })
        ok (record { ip_address = found.0.0; domain_name = found.0.1; port = port.0 }, port_bytes.1)

      -- What it does with the first four bytes of the answer.
      unfoldable pub read_answer : Socket N → Result (Destination address × Socket N)
      read_answer s = do
        response ← read_array asio 4 s
        _ ← throw_if (not (get_or response.0 0 0 == 5)) network_exception
        _ ← throw_if (not (get_or response.0 1 0 == 0)) network_exception
        _ ← throw_if (not (get_or response.0 2 0 == 0)) network_exception
        read_destination (get_or response.0 3 0) response.1

      -- The member function `Connect`
      unfoldable pub handshake :
          Bytes → ℕ → Option ProxyCredentials → Socket N → Result (Destination address × Socket N)
      handshake destination port auth_opt s = do
        s1 ← initialize auth_opt s
        s2 ← authenticate auth_opt s1
        s3 ← write asio (request destination port) s2
        read_answer s3

      -- The loop of attempts, with the number of those that are left: an exception in an attempt
      -- is logged, but one of `Socket::Connect` leaves the loop.
      unfoldable pub attempts :
          ℕ → ℕ → Bytes → ℕ → Option ProxyCredentials → Result (Destination address × Socket N)
      attempts zero i destination port auth_opt = err network_exception
      attempts (suc left) i destination port auth_opt = do
        s ← connect asio i
        elim (handshake destination port auth_opt s) [
          | ok r ↦ ok r
          | err e ↦ attempts left (suc i) destination port auth_opt
          | undefined ↦ undefined
        ]

      -- The static `Connect`
      unfoldable pub connect_proxy :
          Bytes → ℕ → Option ProxyCredentials → Result (Destination address × Socket N)
      connect_proxy destination port auth_opt = do
        _ ← check_lengths destination auth_opt
        attempts 3 0 destination port auth_opt
