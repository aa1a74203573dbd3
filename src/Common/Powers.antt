-- ===== src/Common/Powers.antt =====
-- Powers of two, in the form that the arithmetic tactics use.
use Prim.Native.Nat.{ℕ, zero, suc, ◌+◌, ◌*◌, ◌^◌, ◌≤◌, ◌<◌}
use mathlib.Core.Path.{◌≡◌}
use native.Mathlib.Nat.{pow-succ', one-le-pow}
use native.Mathlib.Omega.{arith}

pub pow_suc : (k : ℕ) → 2 ^ suc k ≡ 2 * 2 ^ k
pow_suc k = pow-succ' 2 k

pub pow_pos : (k : ℕ) → 1 ≤ 2 ^ k
pow_pos k = one-le-pow k 2 (omega arith)

pub lt-pow : (k : ℕ) → k < 2 ^ k
lt-pow zero = omega arith
lt-pow (suc k) = omega (arith, pow_suc k, lt-pow k)

pub pow_mono : (d k : ℕ) → 2 ^ k ≤ 2 ^ (d + k)
pow_mono zero k = ground arith
pow_mono (suc d) k = ground (arith, pow_mono d k, pow_suc (d + k))

pub ruleset powers = (arith, pow_suc, pow_pos)
