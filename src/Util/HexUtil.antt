-- ===== src/Util/HexUtil.antt =====
-- include/mw/core/util/HexUtil.h: bytes as hexadecimal digits. A `char` is its byte; it is taken as
-- signed, so the bytes from 128 on are below 0.
pub mod Tests
use libmw_core.Common.{ℕ, ◌+◌, ◌-◌, ◌*◌, ◌/◌, ◌%◌, ◌<◌, ◌≡◌, refl, sym, ap, ◌∙◌, arith, ◌&&◌, Bool}
use libmw_core.Common.{List, [], ◌∷◌, ltb, leb, if◌then◌else◌, take, All, IsByte}
use libmw_core.Util.EndianUtil.{Bytes}
use mathlib.Core.Path.{ap₂}

-- `FromHexChar`, on '0', '9', 'a' and 'A'.
unfoldable pub from_hex_char : ℕ → ℕ
from_hex_char value =
    if leb value 57
    then (value + 256 - 48) % 256
    else if leb 97 value && ltb value 128
    then (10 + value - 97) % 256
    else (10 + value + 256 - 65) % 256

-- `FromHex`: behind the last character of a string stands a 0.
unfoldable pub from_hex : Bytes → Bytes
from_hex [] = []
from_hex (a ∷ []) = (from_hex_char a * 16 + from_hex_char 0) % 256 ∷ []
from_hex (a ∷ b ∷ hex) = (from_hex_char a * 16 + from_hex_char b) % 256 ∷ from_hex hex

-- A digit as the stream writes it, in lower case.
unfoldable pub hex_digit : ℕ → ℕ
hex_digit d = if ltb d 10 then 48 + d else 87 + d

-- `ToHex`
unfoldable pub to_hex : Bytes → Bytes
to_hex [] = []
to_hex (byte ∷ bytes) = hex_digit (byte / 16) ∷ hex_digit (byte % 16) ∷ to_hex bytes

-- `ToHex` of the first bytes.
unfoldable pub to_hex_first : Bytes → ℕ → Bytes
unfolding to_hex
to_hex_first bytes num_bytes = to_hex (take num_bytes bytes)

from_hex_char-hex_digit : (d : ℕ) → d < 16 → from_hex_char (hex_digit d) ≡ d
unfolding from_hex_char hex_digit
from_hex_char-hex_digit d h = ground arith

-- `FromHex` reads what `ToHex` writes.
pub from_hex-to_hex : (bs : Bytes) → All IsByte bs → from_hex (to_hex bs) ≡ bs
unfolding from_hex to_hex
from_hex-to_hex [] h = refl
from_hex-to_hex (b ∷ bs) (hb, hs) =
    let high = from_hex_char-hex_digit (b / 16) (omega arith) in
    let low = from_hex_char-hex_digit (b % 16) (omega arith) in
    ap₂ (λ x xs. x ∷ xs) (omega arith) (from_hex-to_hex bs hs)
