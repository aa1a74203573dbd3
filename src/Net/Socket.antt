-- ===== src/Net/Socket.antt =====
-- include/mw/core/net/Socket.h: reads and writes on a connection, with the buffer in front of it.

pub mod Session
pub mod Ready
use libmw_core.Common.{ℕ, ◌-◌, List, [], ◌++◌, length, take, drop, leb, ◌==◌, if◌then◌else◌}
use libmw_core.Exceptions.{Result, ok, err, undefined, ◌>>=◌}
use libmw_core.Util.EndianUtil.{Bytes}

-- What the code calls of asio, on a connection of a type of its own: `async_connect` (the connection
-- that each attempt gets), `async_read` of an exact number of bytes, and `async_write`, each with a
-- deadline that may pass.
pub record Asio (N : Type 0) : Type 0 where
  pub async_connect : ℕ → Result N
  pub async_read : ℕ → N → Result (Bytes × N)
  pub async_write : Bytes → N → Result N

-- `class Socket`
pub record Socket (N : Type 0) : Type 0 where
  pub string_buffer : Bytes
  pub network : N

module _ {N : Type 0} (asio : Asio N) where
  -- `Socket::Connect`
  unfoldable pub connect : ℕ → Result (Socket N)
  connect attempt = do
    network ← asio.async_connect attempt
    ok (record { string_buffer = []; network = network })

  -- `Socket::Read`
  unfoldable pub read : ℕ → Socket N → Result (Bytes × Socket N)
  read num_bytes s =
      if leb num_bytes (length s.string_buffer)
      then ok (
        take num_bytes s.string_buffer,
        record s { string_buffer = drop num_bytes s.string_buffer },
      )
      else (do
        got ← asio.async_read (num_bytes - length s.string_buffer) s.network
        let buffer = s.string_buffer ++ got.0
        ok (
          take num_bytes buffer,
          record { string_buffer = drop num_bytes buffer; network = got.1 },
        ))

  -- `Socket::ReadArray`: fewer bytes would be moved from behind the end of the vector.
  unfoldable pub read_array : ℕ → Socket N → Result (Bytes × Socket N)
  read_array size s = do got ← read size s; if length got.0 == size then ok got else undefined

  -- `Socket::Write`
  unfoldable pub write : Bytes → Socket N → Result (Socket N)
  write data_bytes s = do
    network ← asio.async_write data_bytes s.network
    ok (record s { network = network })
