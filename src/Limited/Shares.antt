-- ===== src/Limited/Shares.antt =====
-- Amounts that follow the share of the holdings, against the backing of the supply at `rate`.
use native.Mathlib.Nat.{mul-le-mul_right}
use cavern_lsd_wrapper.Base.{ℕ, ◌+◌, ◌*◌, ◌<◌, ◌≤◌, ◌≡◌, arith, ap, subst, inl, inr, ◌⊎◌}
use cavern_lsd_wrapper.Base.Floor.{lt-suc-div-mul}
use cavern_lsd_wrapper.Pricing.Bounds.{le_of_mul_le}
use cavern_lsd_wrapper.Limited.Prices.{share_rate, below_share}

module _ (one supply held rate : ℕ) (held_pos : 0 < held) where
  -- A charge of at least the share of a backed supply is worth the tokens.
  pub fair_share :
      (amount charge : ℕ)
      → supply * one ≤ held * rate
      → amount * held ≤ charge * supply
      → amount * one ≤ charge * rate
  fair_share amount charge backed share =
      let first : amount * held * one ≤ charge * supply * one = mul-le-mul_right one share in
      let second : supply * one * charge ≤ held * rate * charge = mul-le-mul_right charge backed in
      le_of_mul_le (amount * one) (charge * rate) held held_pos (omega arith)

  -- What a burn pays beyond the share comes from the rounding of the rate.
  pub overpaid :
      (amount payout : ℕ)
      → payout * share_rate one supply held ≤ amount * one
      → payout * (supply * one) ≤ amount * held * one + payout * held
  overpaid amount payout paid =
      let r = share_rate one supply held in
      let above : supply * one < (r + 1) * held = lt-suc-div-mul (supply * one) held held_pos in
      let lift : supply * one * payout ≤ (r + 1) * held * payout =
        mul-le-mul_right payout (omega arith) in
      let down : payout * r * held ≤ amount * one * held = mul-le-mul_right held paid in omega arith

-- A backed supply after such a burn.
pub burn_short :
    (one supply held rate amount payout supply' held' : ℕ)
    → supply * one ≤ held * rate
    → payout * (supply * one) ≤ amount * held * one + payout * held
    → supply' + amount ≡ supply
    → held ≤ held' + payout
    → supply' * one * (supply * one) ≤ held' * rate * (supply * one) + payout * held * rate
burn_short one supply held rate amount payout supply' held' backed over burnt left =
    let whole : (supply' + amount) * (one * held * rate) ≡ supply * (one * held * rate) =
      ap (λ (t : ℕ). t * (one * held * rate)) burnt in
    let first : supply * one * (supply' * one) ≤ held * rate * (supply' * one) =
      mul-le-mul_right (supply' * one) backed in
    let second : held * (rate * supply * one) ≤ (held' + payout) * (rate * supply * one) =
      mul-le-mul_right (rate * supply * one) left in
    let third : payout * (supply * one) * rate ≤ (amount * held * one + payout * held) * rate =
      mul-le-mul_right rate over in
    omega arith

-- The rate of a mint or burn: the rounded share, or one where nothing is held or issued.
abbrev pub IsRate : ℕ → ℕ → ℕ → ℕ → Type 0
IsRate one supply held ratio =
    ((0 < held) × (0 < supply) × (ratio ≡ share_rate one supply held))
    ⊎ (((held ≡ 0) ⊎ (supply ≡ 0)) × (ratio ≡ one))

module _ (one supply held rate ratio : ℕ) (one_pos : 0 < one)
    (backed : supply * one ≤ held * rate) where
  -- Where nothing is held, a backed supply is zero.
  none_issued : (held ≡ 0) ⊎ (supply ≡ 0) → supply ≡ 0
  none_issued (inr e) = e
  none_issued (inl e) = let nothing : supply * one ≤ 0 * rate = rw (← e) backed in grind arith

  -- A mint at the rate keeps a supply backed, where the wrapped token is worth one or more.
  pub issued_share :
      (amount charge held' : ℕ)
      → one ≤ rate
      → IsRate one supply held ratio
      → amount * one ≤ ratio * charge
      → held + charge ≤ held'
      → (supply + amount) * one ≤ held' * rate
  issued_share amount charge held' yielding (inl (held_pos, issued, e)) fair received =
      let share : amount * held ≤ charge * supply =
        below_share one supply held one_pos amount charge (rw (← e) fair) in
      let worth = fair_share one supply held rate held_pos amount charge backed share in
      omega (arith, mul-le-mul_right rate received)
  issued_share amount charge held' yielding (inr (empty, e)) fair received =
      let none = none_issued empty in
      let fair' : amount * one ≤ one * charge =
        subst (λ (z : ℕ). amount * one ≤ z * charge) e fair in
      let up : one * charge ≤ rate * charge = mul-le-mul_right charge yielding in
      let lift = mul-le-mul_right rate received in rw none (omega arith)

  -- What a burn at the rate pays beyond the share, and how far the backing then falls short.
  pub burnt_share :
      (amount payout supply' held' : ℕ)
      → IsRate one supply held ratio
      → payout * ratio ≤ amount * one
      → supply' + amount ≡ supply
      → held ≤ held' + payout
      → (payout * (supply * one) ≤ amount * held * one + payout * held)
        × (supply' * one * (supply * one) ≤ held' * rate * (supply * one) + payout * held * rate)
  burnt_share amount payout supply' held' (inl (held_pos, issued, e)) paid burnt left =
      let over : payout * (supply * one) ≤ amount * held * one + payout * held =
        overpaid one supply held rate held_pos amount payout (rw (← e) paid) in
      (over, burn_short one supply held rate amount payout supply' held' backed over burnt left)
  burnt_share amount payout supply' held' (inr (empty, e)) paid burnt left =
      let none = none_issued empty in
      let over : payout * (supply * one) ≤ amount * held * one + payout * held =
        rw none (omega arith) in
      (over, burn_short one supply held rate amount payout supply' held' backed over burnt left)
