-- ===== src/Protocol/Coordinate/Float.antt =====
-- f64 as the code of host/src/protocol/coordinate.rs uses it: conversions from integers, quotient,
-- product, `clamp` and the saturating cast `as u16`.
use ord.Prelude.{ℕ, ◌≤◌, ◌<◌, ◌≡◌}

pub record F64 : Type 1 where
  pub Carrier : Type 0
  pub of_nat : ℕ → Carrier
  infixl 70 ◌/f◌ ◌*f◌
  infixl 65 ◌-f◌
  pub ◌/f◌ : Carrier → Carrier → Carrier
  pub ◌*f◌ : Carrier → Carrier → Carrier
  pub ◌-f◌ : Carrier → Carrier → Carrier
  pub clamp : Carrier → Carrier → Carrier → Carrier
  pub to_u16 : Carrier → ℕ

-- What IEEE 754 says of them between finite values that are not negative: rounding is monotone, and
-- the results that are exact are exact.
pub record IsIeee (f64 : F64) : Type 1 where
  pub Le : f64.Carrier → f64.Carrier → Type 0
  pub of_nat_mono : (m n : ℕ) → m ≤ n → Le (f64.of_nat m) (f64.of_nat n)
  pub div_mono :
      (a b : f64.Carrier) (n : ℕ)
      → Le a b
      → 0 < n
      → Le (f64.◌/f◌ a (f64.of_nat n)) (f64.◌/f◌ b (f64.of_nat n))
  pub mul_mono :
      (a b : f64.Carrier) (n : ℕ)
      → Le a b
      → Le (f64.◌*f◌ a (f64.of_nat n)) (f64.◌*f◌ b (f64.of_nat n))
  pub zero_div : (n : ℕ) → 0 < n → f64.◌/f◌ (f64.of_nat 0) (f64.of_nat n) ≡ f64.of_nat 0
  pub div_self : (n : ℕ) → 0 < n → f64.◌/f◌ (f64.of_nat n) (f64.of_nat n) ≡ f64.of_nat 1
  pub zero_mul : (n : ℕ) → f64.◌*f◌ (f64.of_nat 0) (f64.of_nat n) ≡ f64.of_nat 0
  pub one_mul : (n : ℕ) → f64.◌*f◌ (f64.of_nat 1) (f64.of_nat n) ≡ f64.of_nat n
  pub clamp_below :
      (a : f64.Carrier)
      → Le a (f64.of_nat 0)
      → f64.clamp a (f64.of_nat 0) (f64.of_nat 1) ≡ f64.of_nat 0
  pub clamp_above :
      (a : f64.Carrier)
      → Le (f64.of_nat 1) a
      → f64.clamp a (f64.of_nat 0) (f64.of_nat 1) ≡ f64.of_nat 1
  pub to_u16-of_nat : (n : ℕ) → n ≤ 65535 → f64.to_u16 (f64.of_nat n) ≡ n
