-- ===== src/Base/Checks.antt =====
-- Properties of the numbers below a bound, by evaluation.
use Prim.Native.Nat.{ℕ, zero, suc, ◌<◌}
use mathlib.Core.Path.{◌≡◌}
use mathlib.Core.Logic.{inl, inr}
use mathlib.Core.Bool.{Bool, true, false}
use native.Mathlib.Omega.{arith}
use deer.Base.Tests.{◌==◌, if◌then◌else◌, Bool-cases}

-- Two functions with the same values at every number below a bound.
unfoldable pub agrees : (f g : ℕ → ℕ) → ℕ → Bool
agrees f g zero = true
agrees f g (suc n) = if f n == g n then agrees f g n else false

pub agrees-eq : (f g : ℕ → ℕ) (x n : ℕ) → x < n → agrees f g n ≡ true → f x ≡ g x
unfolding agrees
agrees-eq f g x zero below e = absurd (omega arith)
agrees-eq f g x (suc n) below e = elim (Bool-cases (x == n)) [
  | inl last ↦ ground arith
  | inr earlier ↦ agrees-eq f g x n (ground arith) (ground arith)
]
