-- ===== src/Util/HexUtil/Tests.antt =====
-- The round trip of hexadecimal digits at two bytes.
use libmw_core.Common.{◌≡◌, arith, [], ◌∷◌}
use libmw_core.Util.HexUtil.{from_hex, to_hex, from_hex-to_hex}

from_hex-to_hex_example : from_hex (to_hex (171 ∷ 5 ∷ [])) ≡ 171 ∷ 5 ∷ []
from_hex-to_hex_example = from_hex-to_hex (171 ∷ 5 ∷ []) (omega arith, (omega arith, tt))
