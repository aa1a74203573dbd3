-- ===== src/Models/Net/Tests.antt =====
-- The round trip of a socket address, with addresses that are their bytes.
use libmw_core.Common.{ℕ, ◌<◌, ◌≡◌, refl, arith, true, [], ◌∷◌, ◌++◌, length, u64_mod}
use libmw_core.Common.{◌⊎◌, inl, inr, sym, ap, drop, false}
use libmw_core.Exceptions.{ok}
use libmw_core.Util.EndianUtil.{Bytes, to_memory, le_bytes, is_big_endian}
use libmw_core.Samples.{little_endian}
use libmw_core.Serialization.{append_int, append_vector}
use libmw_core.Serialization.RoundTrip.{standing}
use libmw_core.Models.Net.{
  AsioAddress, SocketAddress, serialize_ip_address, serialize_socket_address,
}
use libmw_core.Models.Net.{deserialize_socket_address}
use libmw_core.Models.Net.RoundTrip.{
  IsFaithful, deserialize_socket_address-serialize_socket_address,
}

-- Four bytes.
abbrev Quad : Type 0
Quad = (ℕ × ℕ) × (ℕ × ℕ)

abbrev quad_bytes : Quad → Bytes
quad_bytes ((a, b), (c, d)) = a ∷ b ∷ c ∷ d ∷ []

abbrev quad_of : Bytes → Quad
quad_of (a ∷ b ∷ c ∷ d ∷ bs) = ((a, b), (c, d))
quad_of bs = ((0, 0), (0, 0))

-- Sixteen bytes, and the id of a scope.
abbrev Scoped : Type 0
Scoped = ((Quad × Quad) × (Quad × Quad)) × ℕ

abbrev scoped_bytes : Scoped → Bytes
scoped_bytes (((a, b), (c, d)), scope) =
    quad_bytes a ++ quad_bytes b ++ quad_bytes c ++ quad_bytes d

abbrev scoped_of : Bytes → Scoped
scoped_of bs = (((quad_of bs, quad_of (drop 4 bs)), (quad_of (drop 8 bs), quad_of (drop 12 bs))), 0)

-- Addresses of both families.
abbrev both : AsioAddress
both = record {
  Address = Quad ⊎ Scoped;
  make_address_v4 = λ bs. inl (quad_of bs);
  make_address_v6 = λ bs. inr (scoped_of bs);
  is_v4 = λ a. elim a [ inl q ↦ true | inr s ↦ false ];
  scope_id = λ a. elim a [ inl q ↦ 0 | inr s ↦ s.1 ];
  to_v4_bytes = λ a. elim a [ inl q ↦ quad_bytes q | inr s ↦ [] ];
  to_v6_bytes = λ a. elim a [ inl q ↦ [] | inr s ↦ scoped_bytes s ];
}

both-v4_size : (a : both.Address) → both.is_v4 a ≡ true → length (both.to_v4_bytes a) ≡ 4
both-v4_size (inl q) e = refl
both-v4_size (inr s) e = cc

both-v4_again :
    (a : both.Address) → both.is_v4 a ≡ true → both.make_address_v4 (both.to_v4_bytes a) ≡ a
both-v4_again (inl q) e = refl
both-v4_again (inr s) e = cc

both-v6_size : (a : both.Address) → both.is_v4 a ≡ false → length (both.to_v6_bytes a) ≡ 16
both-v6_size (inl q) e = cc
both-v6_size (inr s) e = refl

both-v6_again :
    (a : both.Address)
    → both.is_v4 a ≡ false
    → both.scope_id a ≡ 0
    → both.make_address_v6 (both.to_v6_bytes a) ≡ a
both-v6_again (inl q) e z = cc
both-v6_again (inr (quads, scope)) e z = ap (λ n. inr (quads, n)) (sym z)

both-IsFaithful : IsFaithful both
both-IsFaithful = record {
  v4_size = both-v4_size;
  v4_again = both-v4_again;
  v6_size = both-v6_size;
  v6_again = both-v6_again;
}

-- The loopback address of version 6.
abbrev localhost : SocketAddress both
localhost = record {
  ip_address =
      inr (((((0, 0), (0, 0)), ((0, 0), (0, 0))), (((0, 0), (0, 0)), ((0, 0), (0, 1)))), 0);
  port = 3414;
}

localhost_fits : length (serialize_socket_address both localhost [] ++ []) < u64_mod
unfolding serialize_socket_address serialize_ip_address append_int append_vector to_memory le_bytes
    is_big_endian
localhost_fits = omega arith

deserialize_socket_address-serialize_socket_address_example :
    let out = serialize_socket_address both localhost [] in
    deserialize_socket_address both (standing [] (out ++ []))
    ≡ ok (localhost, standing out (out ++ []))
deserialize_socket_address-serialize_socket_address_example =
    deserialize_socket_address-serialize_socket_address both localhost [] [] both-IsFaithful
      (λ e. refl) (omega arith) localhost_fits
