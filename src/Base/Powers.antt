-- ===== src/Base/Powers.antt =====
-- The clauses of the power of native numbers.
use Prim.Native.Nat.{ℕ, suc, ◌*◌, ◌^◌}
use Prim.Native.Nat.pow
use mathlib.Core.Path.{◌≡◌}

pub pow_zero : (a : ℕ) → a ^ 0 ≡ 1
pow_zero a = pow.zero a

pub pow_suc : (a n : ℕ) → a ^ suc n ≡ a ^ n * a
pow_suc a n = pow.suc a n
