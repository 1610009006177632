-- ===== src/Protocol/Coordinate/Tests.antt =====
-- Runs of host/src/protocol/coordinate.rs. The numbers of the model of f64 below are natural, and
-- its quotient rounds down: it meets the laws that the theorems suppose.
use Prim.Native.Nat.{min, max}
use ord.Prelude.{ℕ, ◌-◌, ◌*◌, ◌/◌, ◌≤◌, arith}
use ord.Protocol.Coordinate.{CoordinateTransformer}
use ord.Protocol.Coordinate.Float.{F64, IsIeee}

abbrev whole : F64
whole = record {
  Carrier = ℕ;
  of_nat = λ n. n;
  ◌/f◌ = λ a b. a / b;
  ◌*f◌ = λ a b. a * b;
  ◌-f◌ = λ a b. a - b;
  clamp = λ a lo hi. min (max a lo) hi;
  to_u16 = λ a. min a 65535;
}

whole-IsIeee : IsIeee whole
whole-IsIeee = record {
  Le = λ a b. a ≤ b;
  of_nat_mono = λ m n h. h;
  div_mono = λ a b n h pos. grind arith;
  mul_mono = λ a b n h. grind arith;
  zero_div = λ n h. grind arith;
  div_self = λ n h. grind arith;
  zero_mul = λ n. omega arith;
  one_mul = λ n. omega arith;
  clamp_below = λ a h. omega arith;
  clamp_above = λ a h. omega arith;
  to_u16-of_nat = λ n h. omega arith;
}

abbrev tablet : CoordinateTransformer
tablet = record { display_width = 1920; display_height = 1200 }
