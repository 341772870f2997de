-- ===== src/LsdHub/Deposit.antt =====
-- packages/wrapper_implementations/src/coin.rs: which deposits of a native coin are accepted.
use cavern_lsd_wrapper.Base.{
  ℕ, ◌≡◌, ◌≤◌, ◌↔◌, [], ◌∷◌, ok, arith, List, Bool-cases, inl, inr, le→ltb_false, refl, string_eq,
  ◌==◌, true, false,
}
use cavern_lsd_wrapper.Std.{Addr, Coin, Env, MessageInfo}
use cavern_lsd_wrapper.Host.{Host}
use cavern_lsd_wrapper.LsdHub.Coin.{StrideLsdConfig, deposit_funds, wrong_funds}

-- One coin of the denomination, and enough of it.
abbrev pub RightFunds : StrideLsdConfig → ℕ → List Coin → Type 0
RightFunds c amount funds =
    (coin : Coin) × (funds ≡ coin ∷ []) × (coin.denom ≡ c.denom) × (amount ≤ coin.amount)

right_funds :
    (c : StrideLsdConfig) (amount : ℕ) (funds : List Coin)
    → (wrong_funds c.denom amount funds ≡ false) ↔ RightFunds c amount funds
unfolding wrong_funds
right_funds c amount [] = (λ h. cc, λ r. cc)
right_funds c amount (coin ∷ []) = (
  λ h. (coin, refl, (string_eq.decides coin.denom c.denom).0 (ground arith), ground arith),
  λ (other, same, denom, enough).
      let same_coin : other ≡ coin = cc in
      let denom' : coin.denom ≡ c.denom = rw (← same_coin) denom in
      let matches : (coin.denom == c.denom) ≡ true =
        (string_eq.decides coin.denom c.denom).1 denom' in
      let enough' : amount ≤ coin.amount = rw (← same_coin) enough in
      rw (matches, le→ltb_false coin.amount amount enough'),
)
right_funds c amount (a ∷ b ∷ rest) = (λ h. cc, λ r. cc)

-- A deposit is accepted, with no message, exactly when it is one coin of the wrapped denomination
-- and at least the amount asked for.
pub deposit_funds-accepts :
    (c : StrideLsdConfig) (h : Host) (env : Env) (info : MessageInfo) (amount : ℕ) (from : Addr)
    → (deposit_funds c h env info amount from ≡ ok []) ↔ RightFunds c amount info.funds
unfolding deposit_funds
deposit_funds-accepts c h env info amount from =
    elim (Bool-cases (wrong_funds c.denom amount info.funds)) [
      | inl wrong ↦ (
        λ done. ground arith,
        λ r.
            let right : wrong_funds c.denom amount info.funds ≡ false =
              (right_funds c amount info.funds).1 r in
            cc,
      )
      | inr right ↦ ((λ done. (right_funds c amount info.funds).0 right), (λ r. rw right))
    ]
