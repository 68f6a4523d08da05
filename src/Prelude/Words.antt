-- ===== src/Prelude/Words.antt =====
-- Machine-width integers as native numbers, with the wrap-around written out, and durations.
use Prim.Native.Nat.{ℕ, ◌+◌, ◌-◌, ◌*◌, ◌/◌, ◌%◌, ◌^◌, ◌<◌, ◌≤◌}
use mathlib.Core.Path.{◌≡◌}
use mathlib.Core.Logic.{◌⊎◌, inl, inr}
use mathlib.Core.Option.{Option, none, some}
use native.Mathlib.Omega.{arith}
use r2kit.Prelude.Tests.{ltb, if◌then◌else◌}

abbrev pub u16_mod : ℕ
u16_mod = 2 ^ 16

abbrev pub u64_mod : ℕ
u64_mod = 2 ^ 64

abbrev pub u64_max : ℕ
u64_max = 2 ^ 64 - 1

-- `a * b` and `a - b` on u64, as a release build computes them.
abbrev pub mul_u64 : ℕ → ℕ → ℕ
mul_u64 a b = (a * b) % u64_mod

abbrev pub sub_u64 : ℕ → ℕ → ℕ
sub_u64 a b = (a + u64_mod - b) % u64_mod

abbrev pub add_u64 : ℕ → ℕ → ℕ
add_u64 a b = (a + b) % u64_mod

abbrev pub checked_mul_u64 : ℕ → ℕ → Option ℕ
checked_mul_u64 a b = if ltb u64_max (a * b) then none else some (a * b)

abbrev pub checked_add_u64 : ℕ → ℕ → Option ℕ
checked_add_u64 a b = if ltb u64_max (a + b) then none else some (a + b)

abbrev pub saturating_mul_u64 : ℕ → ℕ → ℕ
saturating_mul_u64 a b = if ltb u64_max (a * b) then u64_max else a * b

abbrev pub saturating_add_u64 : ℕ → ℕ → ℕ
saturating_add_u64 a b = if ltb u64_max (a + b) then u64_max else a + b

-- `u64::div_ceil`: the quotient, and one more where a remainder is left.
unfoldable pub div_ceil : ℕ → ℕ → ℕ
div_ceil a b = if ltb 0 (a % b) then a / b + 1 else a / b

div_ceil_cases :
    (a b : ℕ) → ((a % b ≡ 0) × (div_ceil a b ≡ a / b)) ⊎ ((0 < a % b) × (div_ceil a b ≡ a / b + 1))
unfolding div_ceil
div_ceil_cases a b = ground arith

pub div_bounds : (a b : ℕ) → 0 < b → (a / b * b ≤ a) × (a < a / b * b + b)
div_bounds a b h = (omega arith, omega arith)

pub div_ceil_bounds : (a b : ℕ) → 0 < b → (a ≤ div_ceil a b * b) × (div_ceil a b * b < a + b)
div_ceil_bounds a b h = elim (div_ceil_cases a b) [
  | inl (z, e) ↦ rw e (omega arith)
  | inr (p, e) ↦ rw e (omega arith)
]

-- The quotient rounded up is the least factor that reaches `a`.
pub div_ceil-le : (a b k : ℕ) → 0 < b → a ≤ k * b → div_ceil a b ≤ k
div_ceil-le a b k h le = grind (arith, div_ceil_bounds a b h)

pub div_ceil-pos : (a b : ℕ) → 0 < a → 0 < b → 0 < div_ceil a b
div_ceil-pos a b h k = grind (arith, div_ceil_bounds a b k)

-- A `Duration` is its number of nanoseconds.
abbrev pub Duration : Type 0
Duration = ℕ

abbrev pub from_secs : ℕ → Duration
from_secs s = s * 1_000_000_000

abbrev pub from_millis : ℕ → Duration
from_millis m = m * 1_000_000

abbrev pub as_millis : Duration → ℕ
as_millis d = d / 1_000_000
