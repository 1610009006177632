-- ===== src/Protocol/Coordinate/Scaling.antt =====
-- `normalized_to_display` and `display_to_normalized` of host/src/protocol/coordinate.rs.
use Prim.Native.Nat.{max}
use ord.Prelude.{ℕ, ◌≤◌, ◌<◌, ◌≡◌, subst, ap, ◌∙◌, arith}
use ord.Protocol.Coordinate.{
  CoordinateTransformer, new, normalized_to_display, display_to_normalized,
}
use ord.Protocol.Coordinate.Float.{F64, IsIeee}

module _ (f64 : F64) (law : IsIeee f64) where
  open f64 use {Carrier, of_nat, ◌/f◌, ◌*f◌, clamp, to_u16}
  open law use {
    Le, of_nat_mono, div_mono, mul_mono, zero_div, div_self, zero_mul, one_mul, clamp_below,
    clamp_above, to_u16-of_nat,
  }

  abbrev scale : ℕ → ℕ → Carrier
  scale n width = (of_nat n /f of_nat 65535) *f of_nat width

  scale_mono : (m n width : ℕ) → m ≤ n → Le (scale m width) (scale n width)
  scale_mono m n width h = mul_mono _ _ width (div_mono _ _ 65535 (of_nat_mono m n h) (omega arith))

  scale-zero : (width : ℕ) → scale 0 width ≡ of_nat 0
  scale-zero width = ap (λ z. z *f of_nat width) (zero_div 65535 (omega arith)) ∙ zero_mul width

  scale-full : (width : ℕ) → scale 65535 width ≡ of_nat width
  scale-full width = ap (λ z. z *f of_nat width) (div_self 65535 (omega arith)) ∙ one_mul width

  scale_bounds :
      (n width : ℕ) → n ≤ 65535 → Le (of_nat 0) (scale n width) × Le (scale n width) (of_nat width)
  scale_bounds n width h = (
    subst (λ z. Le z (scale n width)) (scale-zero width) (scale_mono 0 n width (omega arith)),
    subst (λ z. Le (scale n width) z) (scale-full width) (scale_mono n 65535 width h),
  )

  -- A normalized position, with coordinates up to 65535, is mapped into the display: no further left or up than 0, and no further
  -- right or down than its width and height.
  pub normalized_to_display_bounds :
      (t : CoordinateTransformer) (x y : ℕ)
      → x ≤ 65535
      → y ≤ 65535
      → let (px, py) = normalized_to_display f64 t x y in
        Le (of_nat 0) px
        × Le px (of_nat t.display_width)
        × Le (of_nat 0) py
        × Le py (of_nat t.display_height)
  unfolding normalized_to_display
  normalized_to_display_bounds t x y hx hy =
      let (x_low, x_high) = scale_bounds x t.display_width hx in
      let (y_low, y_high) = scale_bounds y t.display_height hy in (x_low, x_high, y_low, y_high)

  -- The two extreme corners are mapped to the corners of the display, without rounding.
  pub normalized_to_display_corners :
      (t : CoordinateTransformer)
      → (normalized_to_display f64 t 0 0 ≡ (of_nat 0, of_nat 0))
        × (normalized_to_display f64 t 65535 65535
            ≡ (of_nat t.display_width, of_nat t.display_height))
  unfolding normalized_to_display
  normalized_to_display_corners t = (
    λ i. (scale-zero t.display_width i, scale-zero t.display_height i),
    λ i. (scale-full t.display_width i, scale-full t.display_height i),
  )

  high_pixel :
      (a : Carrier) (width : ℕ)
      → 0 < width
      → Le (of_nat width) a
      → to_u16 (clamp (a /f of_nat width) (of_nat 0) (of_nat 1) *f of_nat 65535) ≡ 65535
  high_pixel a width pos h =
      rw
        (
          clamp_above (a /f of_nat width) (
              subst (λ z. Le z (a /f of_nat width)) (div_self width pos)
                (div_mono _ _ width h pos)),
          one_mul 65535,
        )
        (to_u16-of_nat 65535 (omega arith))

  low_pixel :
      (a : Carrier) (width : ℕ)
      → 0 < width
      → Le a (of_nat 0)
      → to_u16 (clamp (a /f of_nat width) (of_nat 0) (of_nat 1) *f of_nat 65535) ≡ 0
  low_pixel a width pos h =
      rw
        (
          clamp_below (a /f of_nat width) (
              subst (λ z. Le (a /f of_nat width) z) (zero_div width pos)
                (div_mono _ _ width h pos)),
          zero_mul 65535,
        )
        (to_u16-of_nat 0 (omega arith))

  -- Of a transformer made by `new`, for any sizes, zero too, the way back saturates: a position
  -- at or beyond the far edges of the display becomes 65535.
  pub display_to_normalized_far :
      (w h : ℕ) (px py : Carrier)
      → Le (of_nat (new w h).display_width) px
      → Le (of_nat (new w h).display_height) py
      → display_to_normalized f64 (new w h) px py ≡ (65535, 65535)
  unfolding display_to_normalized new
  display_to_normalized_far w h px py hx hy =
      λ i. (high_pixel px (max w 1) (omega arith) hx i, high_pixel py (max h 1) (omega arith) hy i)

  -- Likewise a position at or before the near edges becomes 0.
  pub display_to_normalized_near :
      (w h : ℕ) (px py : Carrier)
      → Le px (of_nat 0)
      → Le py (of_nat 0)
      → display_to_normalized f64 (new w h) px py ≡ (0, 0)
  unfolding display_to_normalized new
  display_to_normalized_near w h px py hx hy =
      λ i. (low_pixel px (max w 1) (omega arith) hx i, low_pixel py (max h 1) (omega arith) hy i)
