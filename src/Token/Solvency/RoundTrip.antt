-- ===== src/Token/Solvency/RoundTrip.antt =====
-- A mint and a burn of the same tokens at the same rate.
use cavern_lsd_wrapper.Base.{ℕ, ◌+◌, ◌≤◌, ◌<◌, ◌≡◌, ◌≢◌, String, some, ok, arith}
use cavern_lsd_wrapper.Std.{Env, MessageInfo, Response}
use cavern_lsd_wrapper.Std.Decimals.{Documented}
use cavern_lsd_wrapper.Cw20.Supply.{Supplies}
use cavern_lsd_wrapper.Custody.{Custody}
use cavern_lsd_wrapper.Custody.Calls.{deposit_received, payment_left}
use cavern_lsd_wrapper.Deployment.{Deployment}
use cavern_lsd_wrapper.Pricing.Bounds.{
  mint_charge, burn_payout, mint_charge-covers, mint_charge-tight, burn_payout-le,
  burn_payout-tight, issue_amount, issue_amount-le, lt_of_mul_lt, le_of_mul_le,
}
use cavern_lsd_wrapper.Token.Store.{Store}
use cavern_lsd_wrapper.Token.Handler.{before_burn, execute_burn, execute_mint, execute_mint_with}
use cavern_lsd_wrapper.Token.Solvency.{
  library_succeeded, mint_succeeded, mint_with_succeeded, before_burn_succeeded,
}

-- The charge for a mint is one unit more than the burn of the same tokens pays.
charge_over_payout :
    (one rate amount : ℕ)
    → 0 < one
    → 0 < rate
    → mint_charge one rate amount ≡ burn_payout one rate amount + 1
charge_over_payout one rate amount one_pos pos =
    let c = mint_charge one rate amount in
    let n = burn_payout one rate amount in
    let more : n < c = lt_of_mul_lt n c rate (
      omega (
        arith,
        mint_charge-covers one rate amount one_pos pos,
        burn_payout-le one rate amount one_pos pos,
      )) in
    let fewer : c < n + 2 = lt_of_mul_lt c (n + 2) rate (
      omega (
        arith,
        mint_charge-tight one rate amount one_pos pos,
        burn_payout-tight one rate amount one_pos pos,
      )) in
    omega arith

module _ {I T S : Type 0} (p : Deployment I T S) (cap : ℕ) (doc : Documented p.host.decimals cap)
    (s : Store T S) (env env' : Env) (info info' : MessageInfo) (cfg : T) (rate : ℕ)
    (has_config : s.lsd_config ≡ some cfg)
    (rated : p.hub.query_exchange_rate cfg p.host env ≡ ok rate)
    (rated' : p.hub.query_exchange_rate cfg p.host env' ≡ ok rate) (supply : S → ℕ)
    (custody : Custody p.hub cfg) (laws : Supplies p.cw20 supply custody.Quiet)
    (runs : custody.Runs p.host) (s₁ s₂ : Store T S) (r₁ r₂ : Response) (held held₁ held₂ : ℕ)
    (after : custody.After env info r₁.messages held held₁)
    (after' : custody.After env' info' r₂.messages held₁ held₂) where
  -- A burn after a call that kept the configuration pays for the tokens.
  burn_paid :
      (amount : ℕ)
      → s₁.lsd_config ≡ some cfg
      → execute_burn p s₁ env' info' amount ≡ ok (s₂, r₂)
      → (held₁ ≤ held₂ + burn_payout p.host.one rate amount)
        × (supply s₂.cw20 + amount ≡ supply s₁.cw20)
  unfolding execute_burn
  burn_paid amount kept h =
      let (ms, x, made, called, stored, sent) =
        library_succeeded p s₁ (before_burn p s₁ env' info' amount)
          (p.cw20.burn s₁.cw20 env' info' amount) s₂ r₂ h in
      let (_, paid) =
        before_burn_succeeded p cap doc s₁ env' info' cfg rate kept rated' amount ms made in
      let (burnt, quiet) = laws.burn_law s₁.cw20 env' info' amount x called in
      let left =
        payment_left p.hub cfg custody p.host runs env' info' (burn_payout p.host.one rate amount)
          ms x.1 r₂ held₁ held₂ quiet sent after' info'.sender paid in
      (left, rw stored burnt)

  -- Tokens that someone else than the wrapper mints and that are burnt again at the same rate of
  -- the wrapped token leave the supply as it was, and the wrapper, once the messages of both calls
  -- are executed, with at least one unit more than it held.
  pub mint-burn_costs_one :
      (recipient : String) (amount : ℕ)
      → info.sender ≢ env.contract
      → execute_mint p s env info recipient amount ≡ ok (s₁, r₁)
      → execute_burn p s₁ env' info' amount ≡ ok (s₂, r₂)
      → (held + 1 ≤ held₂) × (supply s₂.cw20 ≡ supply s.cw20)
  mint-burn_costs_one recipient amount stranger h h' =
      let (pos, minted) =
        mint_succeeded p cap doc s env info cfg rate has_config rated recipient amount s₁ r₁ h in
      let (asked, x, made, called, stored, sent) = library_succeeded p s _ _ s₁ r₁ minted in
      let (grown, quiet) =
        laws.mint_law s.cw20 env (record info { sender = env.contract }) recipient amount x
          called in
      let received =
        deposit_received p.hub cfg custody p.host runs env info (mint_charge p.host.one rate amount)
          asked x.1 r₁ held held₁ quiet sent after stranger made in
      let (left, burnt) = burn_paid amount (rw stored has_config) h' in
      let same : supply s₁.cw20 ≡ supply s.cw20 + amount = rw stored grown in
      let more = charge_over_payout p.host.one rate amount doc.one_pos pos in
      (omega arith, omega arith)

  -- The tokens that a deposit is worth, when they are burnt at the same rate, leave the wrapper with
  -- no less than it held.
  pub mint_with-burn_le :
      (recipient : String) (n : ℕ)
      → info.sender ≢ env.contract
      → 0 < rate
      → execute_mint_with p s env info recipient n ≡ ok (s₁, r₁)
      → execute_burn p s₁ env' info' (issue_amount p.host.one rate n) ≡ ok (s₂, r₂)
      → (held ≤ held₂) × (supply s₂.cw20 ≡ supply s.cw20)
  mint_with-burn_le recipient n stranger pos h h' =
      let issued = issue_amount p.host.one rate n in
      let minted =
        mint_with_succeeded p cap doc s env info cfg rate has_config rated recipient n s₁ r₁ h in
      let (asked, x, made, called, stored, sent) = library_succeeded p s _ _ s₁ r₁ minted in
      let (grown, quiet) =
        laws.mint_law s.cw20 env (record info { sender = env.contract }) recipient issued x
          called in
      let received =
        deposit_received p.hub cfg custody p.host runs env info n asked x.1 r₁ held held₁ quiet sent
          after stranger made in
      let (left, burnt) = burn_paid issued (rw stored has_config) h' in
      let same : supply s₁.cw20 ≡ supply s.cw20 + issued = rw stored grown in
      let fewer = le_of_mul_le (burn_payout p.host.one rate issued) n rate pos (
        omega (
          arith,
          burn_payout-le p.host.one rate issued doc.one_pos pos,
          issue_amount-le p.host.one rate n doc.one_pos,
        )) in
      (omega arith, omega arith)
