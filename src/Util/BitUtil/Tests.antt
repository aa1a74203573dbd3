-- ===== src/Util/BitUtil/Tests.antt =====
-- The theorems on the bit tricks at concrete words.
use libmw_core.Common.{◌≡◌, arith}
use libmw_core.Util.BitUtil.{count_bits_set}
use libmw_core.Util.BitUtil.CountBits.{digit_sum, count_bits_set-digit_sum}

count_bits_set-digit_sum_example : count_bits_set 13 ≡ digit_sum 64 13
count_bits_set-digit_sum_example = count_bits_set-digit_sum 13 (omega arith)
