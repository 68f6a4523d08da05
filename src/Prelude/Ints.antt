-- ===== src/Prelude/Ints.antt =====
-- Signed integers, and their conversion to unsigned ones.
use Prim.Native.Nat.{ℕ}
use mathlib.Core.Option.{Option, none, some}
use r2kit.Prelude.Tests.{ltb, if◌then◌else◌}

-- `negsuc n` is -(n + 1).
pub data ℤ : Type 0 where
  pos : ℕ → ℤ
  negsuc : ℕ → ℤ

-- `u64::try_from` of an i64.
abbrev pub to_u64? : ℤ → Option ℕ
to_u64? (pos n) = some n
to_u64? (negsuc n) = none

-- `u16::try_from` of an i32.
abbrev pub to_u16? : ℤ → Option ℕ
to_u16? (pos n) = if ltb n 65536 then some n else none
to_u16? (negsuc n) = none
