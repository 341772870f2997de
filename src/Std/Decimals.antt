-- ===== src/Std/Decimals.antt =====
-- The arithmetic of `Uint128` and `Decimal` as a parameter: `none` where the operation panics.
-- A decimal stands for its atomics, and `one` is the atomics of 1. `Documented` states what the
-- library's documentation says of each operation: results are rounded down, and one that does not
-- fit below `capacity` panics.
use cavern_lsd_wrapper.Base.{
  ℕ, ◌+◌, ◌-◌, ◌*◌, ◌/◌, ◌<◌, ◌≡◌, refl, Option, none, some, ltb, leb, ◌==◌, nat_eq, if◌then◌else◌,
}

pub record Decimals : Type 0 where
  pub one : ℕ
  pub from_ratio : ℕ → ℕ → Option ℕ
  pub div : ℕ → ℕ → Option ℕ
  pub mul : ℕ → ℕ → Option ℕ
  pub mul_uint : ℕ → ℕ → Option ℕ
  pub div_uint : ℕ → ℕ → Option ℕ
  pub add : ℕ → ℕ → Option ℕ
  pub checked_sub : ℕ → ℕ → Option ℕ
  pub uint_add : ℕ → ℕ → Option ℕ
  pub uint_sub : ℕ → ℕ → Option ℕ
  pub uint_mul : ℕ → ℕ → Option ℕ
  pub multiply_ratio : ℕ → ℕ → ℕ → Option ℕ

-- A result that fits, and a quotient by a divisor that may be zero.
abbrev pub fits : ℕ → ℕ → Option ℕ
fits capacity n = if ltb n capacity then some n else none

abbrev pub quotient : ℕ → ℕ → ℕ → Option ℕ
quotient capacity n d = if d == 0 then none else fits capacity (n / d)

pub record Documented (o : Decimals) (capacity : ℕ) : Type 0 where
  pub one_pos : 0 < o.one
  pub from_ratio_law : (a b : ℕ) → o.from_ratio a b ≡ quotient capacity (a * o.one) b
  pub div_law : (a b : ℕ) → o.div a b ≡ quotient capacity (a * o.one) b
  pub mul_law : (a b : ℕ) → o.mul a b ≡ quotient capacity (a * b) o.one
  pub mul_uint_law : (a b : ℕ) → o.mul_uint a b ≡ quotient capacity (a * b) o.one
  pub div_uint_law : (a b : ℕ) → o.div_uint a b ≡ quotient capacity a b
  pub add_law : (a b : ℕ) → o.add a b ≡ fits capacity (a + b)
  pub checked_sub_law : (a b : ℕ) → o.checked_sub a b ≡ (if leb b a then some (a - b) else none)
  pub uint_add_law : (a b : ℕ) → o.uint_add a b ≡ fits capacity (a + b)
  pub uint_sub_law : (a b : ℕ) → o.uint_sub a b ≡ (if leb b a then some (a - b) else none)
  pub uint_mul_law : (a b : ℕ) → o.uint_mul a b ≡ fits capacity (a * b)
  pub multiply_ratio_law : (a b c : ℕ) → o.multiply_ratio a b c ≡ quotient capacity (a * b) c

-- Operations that meet the documentation, for runs on concrete inputs.
abbrev pub rounding_down : ℕ → ℕ → Decimals
rounding_down one capacity = record {
  one = one;
  from_ratio = λ a b. quotient capacity (a * one) b;
  div = λ a b. quotient capacity (a * one) b;
  mul = λ a b. quotient capacity (a * b) one;
  mul_uint = λ a b. quotient capacity (a * b) one;
  div_uint = λ a b. quotient capacity a b;
  add = λ a b. fits capacity (a + b);
  checked_sub = λ a b. if leb b a then some (a - b) else none;
  uint_add = λ a b. fits capacity (a + b);
  uint_sub = λ a b. if leb b a then some (a - b) else none;
  uint_mul = λ a b. fits capacity (a * b);
  multiply_ratio = λ a b c. quotient capacity (a * b) c;
}

pub rounding_down-Documented :
    (one capacity : ℕ) → 0 < one → Documented (rounding_down one capacity) capacity
rounding_down-Documented one capacity h = record {
  one_pos = h;
  from_ratio_law = λ a b. refl;
  div_law = λ a b. refl;
  mul_law = λ a b. refl;
  mul_uint_law = λ a b. refl;
  div_uint_law = λ a b. refl;
  add_law = λ a b. refl;
  checked_sub_law = λ a b. refl;
  uint_add_law = λ a b. refl;
  uint_sub_law = λ a b. refl;
  uint_mul_law = λ a b. refl;
  multiply_ratio_law = λ a b c. refl;
}
