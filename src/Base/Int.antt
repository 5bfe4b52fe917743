-- ===== src/Base/Int.antt =====
-- Differences of native numbers.
use Prim.Native.Nat.{ℕ, zero, suc, ◌+◌, ◌<◌}
use mathlib.Core.Path.{◌≡◌}
use mathlib.Core.Logic.{◌↔◌}
use mathlib.Core.Bool.{Bool, true}
use native.Mathlib.Omega.{arith}
use scope_is_team_management.Base.Tests.{ltb}

pub data ℤ : Type 0 where
  pos : ℕ → ℤ
  negsuc : ℕ → ℤ

-- `a - b` on numbers that are not negative.
abbrev pub minus : ℕ → ℕ → ℤ
minus a zero = pos a
minus zero (suc b) = negsuc b
minus (suc a) (suc b) = minus a b

-- `a > b`, for a number that is not negative.
abbrev pub exceeds : ℕ → ℤ → Bool
exceeds a (pos b) = ltb b a
exceeds a (negsuc b) = true

-- A part exceeds what is left of a whole exactly when it does not fit beside what is used.
pub exceeds_iff :
    (requested allowance used : ℕ)
    → (exceeds requested (minus allowance used) ≡ true) ↔ (allowance < used + requested)
exceeds_iff r a zero = ground arith
exceeds_iff r zero (suc u) = ground arith
exceeds_iff r (suc a) (suc u) = ground (arith, exceeds_iff r a u)
