-- ===== src/Pricing/Operations.antt =====
-- Each operation of `Decimals` at arguments whose result fits.
use native.Mathlib.Nat.{div-le_self}
use cavern_lsd_wrapper.Base.{ℕ, ◌+◌, ◌-◌, ◌*◌, ◌/◌, ◌<◌, ◌≤◌, ◌≡◌, ◌∙◌, some, none, arith, nat_eq}
use cavern_lsd_wrapper.Std.Decimals.{Decimals, Documented, quotient}

pub quotient-fits : (cap n d : ℕ) → 0 < d → n / d < cap → quotient cap n d ≡ some (n / d)
quotient-fits cap n d pos h = ground arith

module _ (d : Decimals) (cap : ℕ) (doc : Documented d cap) where
  pub whole : (a : ℕ) → a * d.one < cap → d.from_ratio a 1 ≡ some (a * d.one)
  whole a h = doc.from_ratio_law a 1 ∙ ground arith

  pub divided : (a r : ℕ) → 0 < r → a * d.one / r < cap → d.div a r ≡ some (a * d.one / r)
  divided a r pos h = doc.div_law a r ∙ quotient-fits cap (a * d.one) r pos h

  pub summed : (a b : ℕ) → a + b < cap → d.add a b ≡ some (a + b)
  summed a b h = doc.add_law a b ∙ ground arith

  -- Rounding a decimal down to a whole number never overflows.
  pub floored : (x : ℕ) → x < cap → d.mul_uint x 1 ≡ some (x / d.one)
  floored x h = doc.mul_uint_law x 1 ∙ ground (arith, doc.one_pos, div-le_self x d.one)

  pub multiplied : (a b : ℕ) → a * b / d.one < cap → d.mul a b ≡ some (a * b / d.one)
  multiplied a b h = doc.mul_law a b ∙ quotient-fits cap (a * b) d.one doc.one_pos h

  pub subtracted : (a b : ℕ) → b ≤ a → d.checked_sub a b ≡ some (a - b)
  subtracted a b h = doc.checked_sub_law a b ∙ ground arith

  pub uint_subtracted : (a b : ℕ) → b ≤ a → d.uint_sub a b ≡ some (a - b)
  uint_subtracted a b h = doc.uint_sub_law a b ∙ ground arith

  pub uint_underflow : (a b : ℕ) → a < b → d.uint_sub a b ≡ none
  uint_underflow a b h = doc.uint_sub_law a b ∙ ground arith

  pub unit_product : (a : ℕ) → a < cap → d.uint_mul a 1 ≡ some a
  unit_product a h = doc.uint_mul_law a 1 ∙ ground arith

  pub shared_out : (a b : ℕ) → 0 < b → a / b < cap → d.div_uint a b ≡ some (a / b)
  shared_out a b pos h = doc.div_uint_law a b ∙ quotient-fits cap a b pos h
