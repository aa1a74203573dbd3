-- ===== src/Net/Socks5Proxy/Transcript.antt =====
-- What RFC 1928 has on the wire, with the lengths of strings as `Serializer` writes them.
use libmw_core.Common.{ℕ, ◌+◌, ◌*◌, ◌%◌, ◌≡◌, refl, Option, some, none, [], ◌∷◌, ◌++◌}
use libmw_core.Common.{length}
use libmw_core.Util.EndianUtil.{Bytes, Platform, le_bytes}
use libmw_core.Serialization.{append_int}
use libmw_core.Serialization.Order.{be_bytes, append_int-be_bytes, append_string-be_bytes}
use libmw_core.Models.Net.{AsioAddress}
use libmw_core.Net.Socks5Proxy.{ProxyCredentials, Destination, credentials, request}

-- A string behind its length.
abbrev pub string_bytes : Bytes → Bytes
string_bytes s = be_bytes 8 (length s) ++ s

-- The greeting: the version, and the methods of authentication.
abbrev pub greeting : Option ProxyCredentials → Bytes
greeting none = 5 ∷ 1 ∷ 0 ∷ []
greeting (some auth) = 5 ∷ 2 ∷ 0 ∷ 2 ∷ []

-- The method that the proxy chose, what the client sends for it, and how the proxy confirms that.
pub data Chose : Option ProxyCredentials → ℕ → Bytes → Bytes → Type 0 where
  no_auth : (auth_opt : Option ProxyCredentials) → Chose auth_opt 0 [] []
  user_pass :
      (auth : ProxyCredentials)
      → Chose
          (some auth)
          2
          (1 ∷ string_bytes auth.username ++ string_bytes auth.password)
          (1 ∷ 0 ∷ [])

-- The request to connect to a domain name.
abbrev pub request_bytes : Bytes → ℕ → Bytes
request_bytes destination port = 5 ∷ 1 ∷ 0 ∷ 3 ∷ (string_bytes destination ++ be_bytes 2 port)

-- The bytes of an address of each type, and of the port behind it.
pub data Names (address : AsioAddress) : ℕ → Bytes → Destination address → Type 0 where
  ipv4 :
      (bs : Bytes) (hi lo : ℕ)
      → length bs ≡ 4
      → Names address 1 (bs ++ hi ∷ lo ∷ []) (record {
        ip_address = some (address.make_address_v4 bs);
        domain_name = none;
        port = 256 * hi + lo;
      })
  ipv6 :
      (bs : Bytes) (hi lo : ℕ)
      → length bs ≡ 16
      → Names address 4 (bs ++ hi ∷ lo ∷ []) (record {
        ip_address = some (address.make_address_v6 bs);
        domain_name = none;
        port = 256 * hi + lo;
      })
  domain :
      (bs : Bytes) (hi lo : ℕ)
      → Names address 3
          (length bs ∷ bs ++ hi ∷ lo ∷ [])
          (record { ip_address = none; domain_name = some bs; port = 256 * hi + lo })

module _ ⦃p : Platform⦄ where
  append_byte : (b : ℕ) (s : Bytes) → append_int 1 b s ≡ s ++ b % 256 ∷ []
  unfolding le_bytes
  append_byte b s = append_int-be_bytes 1 b s

  pub credentials-bytes :
      (auth : ProxyCredentials)
      → credentials auth ≡ 1 ∷ string_bytes auth.username ++ string_bytes auth.password
  unfolding credentials
  credentials-bytes auth =
      rw
        (
          append_string-be_bytes auth.password,
          append_string-be_bytes auth.username,
          append_byte 1 [],
        )
        refl

  pub request-bytes :
      (destination : Bytes) (port : ℕ) → request destination port ≡ request_bytes destination port
  unfolding request
  request-bytes destination port =
      rw
        (
          append_int-be_bytes 2 port,
          append_string-be_bytes destination,
          append_byte 5 [],
          append_byte 1 (5 ∷ []),
          append_byte 0 (5 ∷ 1 ∷ []),
          append_byte 3 (5 ∷ 1 ∷ 0 ∷ []),
        )
        refl
