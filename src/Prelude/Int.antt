-- ===== src/Prelude/Int.antt =====
-- Signed integers, and the cast of a u32 to an i32.
use Prim.Native.Nat.{ℕ, ◌-◌, ◌^◌}
use ord.Prelude.Tests.{ltb, if◌then◌else◌}

-- `negsuc n` is -(n + 1).
pub data ℤ : Type 0 where
  pos : ℕ → ℤ
  negsuc : ℕ → ℤ

abbrev pub signed32 : ℕ → ℤ
signed32 w = if ltb w (2 ^ 31) then pos w else negsuc (2 ^ 32 - w - 1)
