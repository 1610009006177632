-- ===== src/Protocol/Coordinate/Orientation.antt =====
-- `transform_orientation` of host/src/protocol/coordinate.rs turns the square of the normalized
-- coordinates by quarters.
use ord.Prelude.{ℕ, ◌+◌, ◌≤◌, ◌≡◌, arith}
use ord.Protocol.Coordinate.{CoordinateTransformer, transform_orientation}

-- The result is a pair of u16 again.
pub transform_orientation-le :
    (t : CoordinateTransformer) (x y o : ℕ)
    → x ≤ 65535
    → y ≤ 65535
    → ((transform_orientation t x y o).0 ≤ 65535) × ((transform_orientation t x y o).1 ≤ 65535)
unfolding transform_orientation
transform_orientation-le t x y o hx hy = ground arith

-- Two turns, one after the other, are the turn by the sum.
pub transform_orientation-add :
    (t : CoordinateTransformer) (x y a b : ℕ)
    → x ≤ 65535
    → y ≤ 65535
    → transform_orientation t (transform_orientation t x y a).0 (transform_orientation t x y a).1 b
      ≡ transform_orientation t x y (a + b)
unfolding transform_orientation
transform_orientation-add t x y a b hx hy = ground arith
