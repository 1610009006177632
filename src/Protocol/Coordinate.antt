-- ===== src/Protocol/Coordinate.antt =====
-- host/src/protocol/coordinate.rs: `CoordinateTransformer`. f64 is a parameter of the model.
pub mod Float
pub mod Orientation
pub mod Scaling
mod Tests
use ord.Prelude.{ℕ, zero, suc, ◌-◌, ◌%◌}
use Prim.Native.Nat.{max}
use Float.{F64}

pub record CoordinateTransformer : Type 0 where
  pub display_width : ℕ  -- u32
  pub display_height : ℕ  -- u32

-- `CoordinateTransformer::new`
unfoldable pub new : ℕ → ℕ → CoordinateTransformer
new display_width display_height = record {
  display_width = max display_width 1;
  display_height = max display_height 1;
}

module _ (f64 : F64) where
  open f64 use {Carrier, of_nat, ◌/f◌, ◌*f◌, clamp, to_u16}

  unfoldable pub normalized_to_display : CoordinateTransformer → ℕ → ℕ → Carrier × Carrier
  normalized_to_display t norm_x norm_y =
      let x = (of_nat norm_x /f of_nat 65535) *f of_nat t.display_width in
      let y = (of_nat norm_y /f of_nat 65535) *f of_nat t.display_height in (x, y)

  unfoldable pub display_to_normalized : CoordinateTransformer → Carrier → Carrier → ℕ × ℕ
  display_to_normalized t px_x px_y =
      let norm_x =
        to_u16 (clamp (px_x /f of_nat t.display_width) (of_nat 0) (of_nat 1) *f of_nat 65535) in
      let norm_y =
        to_u16 (clamp (px_y /f of_nat t.display_height) (of_nat 0) (of_nat 1) *f of_nat 65535) in
      (norm_x, norm_y)

-- The `match` on `orientation % 4`. The coordinates are u16, so `65535 - x` does not go below 0.
abbrev pub turn : ℕ → ℕ → ℕ → ℕ × ℕ
turn norm_x norm_y zero = (norm_x, norm_y)
turn norm_x norm_y (suc zero) = (norm_y, 65535 - norm_x)
turn norm_x norm_y (suc (suc zero)) = (65535 - norm_x, 65535 - norm_y)
turn norm_x norm_y (suc (suc (suc zero))) = (65535 - norm_y, norm_x)
turn norm_x norm_y _ = (norm_x, norm_y)

unfoldable pub transform_orientation : CoordinateTransformer → ℕ → ℕ → ℕ → ℕ × ℕ
transform_orientation t norm_x norm_y orientation = turn norm_x norm_y (orientation % 4)
