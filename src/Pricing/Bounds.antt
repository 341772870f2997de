-- ===== src/Pricing/Bounds.antt =====
-- What the rounded amounts are worth. `one` is the scale of the decimals and `r` the rate, both
-- positive; `a * one / r` is the exact price, in units of `1 / one`.
use native.Mathlib.Nat.{mul-le-mul_right, add-mul, mul-sub, mul_comm}
use cavern_lsd_wrapper.Base.{ℕ, zero, suc, ap, ◌∙◌, ◌+◌, ◌*◌, ◌/◌, ◌-◌, ◌<◌, ◌≤◌, ◌≡◌, arith}
use cavern_lsd_wrapper.Base.Floor.{div-mul-le, lt-suc-div-mul}

-- The amounts that the code computes for a mint of `a`, and for a burn of `a`.
abbrev pub mint_charge : ℕ → ℕ → ℕ → ℕ
mint_charge one r a = (a * one * one / r + one) / one

abbrev pub burn_payout : ℕ → ℕ → ℕ → ℕ
burn_payout one r a = a * one * one / r / one

-- The tokens issued for a deposit of `a`.
abbrev pub issue_amount : ℕ → ℕ → ℕ → ℕ
issue_amount one r a = a * one * r / one / one

-- Cancellation, in the form that the bounds need.
pub lt_of_mul_lt : (a b c : ℕ) → a * c < b * c → a < b
lt_of_mul_lt a b c h = grind arith

pub le_of_mul_le : (a b c : ℕ) → 0 < c → a * c ≤ b * c → a ≤ b
le_of_mul_le a b c pos h = grind arith

module _ (one r a : ℕ) (one_pos : 0 < one) (r_pos : 0 < r) where
  -- What is charged is worth more than the amount, and less than one unit more than it.
  pub mint_charge-covers : a * one < mint_charge one r a * r
  mint_charge-covers =
      let q = a * one * one / r in
      let c = (q + one) / one in
      let above : a * one * one < (q + 1) * r = lt-suc-div-mul (a * one * one) r r_pos in
      let up : q + one < (c + 1) * one = lt-suc-div-mul (q + one) one one_pos in
      let lift : (q + 1) * r ≤ c * one * r = mul-le-mul_right r (omega arith) in
      lt_of_mul_lt (a * one) (c * r) one (omega arith)

  pub mint_charge-tight : mint_charge one r a * r ≤ a * one + r
  mint_charge-tight =
      let q = a * one * one / r in
      let c = (q + one) / one in
      let below : q * r ≤ a * one * one = div-mul-le (a * one * one) r in
      let down : c * one ≤ q + one = div-mul-le (q + one) one in
      let lift : c * one * r ≤ (q + one) * r = mul-le-mul_right r down in
      le_of_mul_le (c * r) (a * one + r) one one_pos (omega arith)

  -- What is paid out is worth no more than the amount, and one unit more would be worth more.
  pub burn_payout-le : burn_payout one r a * r ≤ a * one
  burn_payout-le =
      let q = a * one * one / r in
      let c = q / one in
      let below : q * r ≤ a * one * one = div-mul-le (a * one * one) r in
      let lift : c * one * r ≤ q * r = mul-le-mul_right r (div-mul-le q one) in
      le_of_mul_le (c * r) (a * one) one one_pos (omega arith)

  pub burn_payout-tight : a * one < (burn_payout one r a + 1) * r
  burn_payout-tight =
      let q = a * one * one / r in
      let c = q / one in
      let above : a * one * one < (q + 1) * r = lt-suc-div-mul (a * one * one) r r_pos in
      let up : q < (c + 1) * one = lt-suc-div-mul q one one_pos in
      let lift : (q + 1) * r ≤ (c + 1) * one * r = mul-le-mul_right r (omega arith) in
      lt_of_mul_lt (a * one) ((c + 1) * r) one (omega arith)

module _ (one r a : ℕ) (one_pos : 0 < one) where
  pub issue_amount-le : issue_amount one r a * one ≤ a * r
  issue_amount-le =
      let q = a * one * r / one in
      let below : q * one ≤ a * one * r = div-mul-le (a * one * r) one in
      let whole_part : q ≤ a * r = le_of_mul_le q (a * r) one one_pos (omega arith) in
      omega (arith, div-mul-le q one)

  pub issue_amount-tight : a * r < (issue_amount one r a + 1) * one
  issue_amount-tight =
      let q = a * one * r / one in
      let above : a * one * r < (q + 1) * one = lt-suc-div-mul (a * one * r) one one_pos in
      let whole_part : a * r < q + 1 = lt_of_mul_lt (a * r) (q + 1) one (omega arith) in
      let up : q < (q / one + 1) * one = lt-suc-div-mul q one one_pos in omega arith

-- What a decompounding takes out: the wrapped tokens that the supply does not need, less one.
abbrev pub spare_tokens : ℕ → ℕ → ℕ → ℕ → ℕ
spare_tokens one r held supply = (held * one - supply * one * one / r) / one

module _ (one r held supply : ℕ) (one_pos : 0 < one) (r_pos : 0 < r) where
  -- With `n` spare tokens, of which one stays, the `k` tokens that stay back the supply.
  left_backed :
      (n z k : ℕ)
      → k + (n - 1) ≡ held
      → n * one + z ≤ held * one
      → supply * one * one < (z + 1) * r
      → supply * one ≤ held * r
      → supply * one ≤ k * r
  left_backed zero z k e fits above backed = let same : k ≡ held = omega arith in rw same backed
  left_backed (suc m) z k e fits above backed =
      let total : held * one ≡ k * one + m * one =
        ap (λ (t : ℕ). t * one) {x = held} {y = k + m} (omega arith) ∙ add-mul k m one in
      let room : z + 1 ≤ k * one = omega arith in
      let lift : (z + 1) * r ≤ k * one * r = mul-le-mul_right r room in
      let strict : supply * one < k * r = lt_of_mul_lt (supply * one) (k * r) one (omega arith) in
      omega arith

  -- The supply of a backed wrapper needs no more than what is held.
  pub needed-le-held : supply * one ≤ held * r → supply * one * one / r ≤ held * one
  needed-le-held backed =
      let z = supply * one * one / r in
      let below : z * r ≤ supply * one * one = div-mul-le (supply * one * one) r in
      let lift : supply * one * one ≤ held * r * one = mul-le-mul_right one backed in
      le_of_mul_le z (held * one) r r_pos (omega arith)

  pub spare_tokens-le : spare_tokens one r held supply ≤ held
  spare_tokens-le =
      let w = held * one - supply * one * one / r in
      le_of_mul_le (w / one) held one one_pos (omega (arith, div-mul-le w one))

  -- What stays backs the supply.
  pub spare_tokens-backed :
      supply * one ≤ held * r → supply * one ≤ (held - (spare_tokens one r held supply - 1)) * r
  spare_tokens-backed backed =
      let z = supply * one * one / r in
      let n = (held * one - z) / one in
      let room : z ≤ held * one = needed-le-held backed in
      let down : n * one ≤ held * one - z = div-mul-le (held * one - z) one in
      let above : supply * one * one < (z + 1) * r = lt-suc-div-mul (supply * one * one) r r_pos in
      left_backed n z (held - (n - 1)) (omega (arith, spare_tokens-le)) (omega arith) above backed

  -- Not more than the value of two wrapped tokens stays beyond what backs the supply.
  pub spare_tokens-tight :
      supply * one ≤ held * r → (held - (spare_tokens one r held supply - 1 + 2)) * r ≤ supply * one
  spare_tokens-tight backed =
      let z = supply * one * one / r in
      let n = (held * one - z) / one in
      let room : z ≤ held * one = needed-le-held backed in
      let up : held * one - z < (n + 1) * one = lt-suc-div-mul (held * one - z) one one_pos in
      let below : z * r ≤ supply * one * one = div-mul-le (supply * one * one) r in
      let fewer : held - (n - 1 + 2) ≤ held - (n + 1) = omega arith in
      let grown : (held - (n - 1 + 2)) * r ≤ (held - (n + 1)) * r = mul-le-mul_right r fewer in
      let kept : (held - (n + 1)) * one ≤ z = kept_below n z up in
      let lift : (held - (n + 1)) * one * r ≤ z * r = mul-le-mul_right r kept in
      let fin : (held - (n + 1)) * r ≤ supply * one =
        le_of_mul_le ((held - (n + 1)) * r) (supply * one) one one_pos (omega arith) in
      omega arith
    where
      kept_below : (n z : ℕ) → held * one - z < (n + 1) * one → (held - (n + 1)) * one ≤ z
      kept_below n z up = omega (arith, mul_comm (held - (n + 1)) one, mul-sub one held (n + 1))
