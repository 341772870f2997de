-- ===== src/Limited/Prices.antt =====
-- What the handlers that mint and burn charge and pay, against the share of the holdings that the
-- tokens stand for.
use native.Mathlib.Nat.{mul-le-mul_right, mul-lt-mul_of_pos_right}
use cavern_lsd_wrapper.Base.{
  ℕ, ◌+◌, ◌*◌, ◌/◌, ◌<◌, ◌≤◌, ◌≡◌, String, some, ok, from_std, ◌>>=◌, ◌==◌, nat_eq, ◌||◌, false,
  arith,
}
use cavern_lsd_wrapper.Base.Floor.{div-mul-le, lt-suc-div-mul}
use cavern_lsd_wrapper.Std.{Env, MessageInfo}
use cavern_lsd_wrapper.Std.Decimals.{Documented}
use cavern_lsd_wrapper.Cw20.{TokenInfo}
use cavern_lsd_wrapper.Deployment.{Deployment}
use cavern_lsd_wrapper.Pricing.Operations.{
  whole, divided, summed, floored, quotient-fits, unit_product,
}
use cavern_lsd_wrapper.Pricing.Bounds.{
  mint_charge, burn_payout, mint_charge-covers, mint_charge-tight, burn_payout-le,
  burn_payout-tight, le_of_mul_le, lt_of_mul_lt,
}
use cavern_lsd_wrapper.Limited.Store.{Store}
use cavern_lsd_wrapper.Limited.Querier.{get_lsd_wrapper_exchange_rate}
use cavern_lsd_wrapper.Limited.Handler.{
  library_call, before_burn, execute_burn, execute_burn_from, execute_mint, execute_mint_with,
}

-- The rate that the code computes, and what it issues at it for a deposit of `n`.
abbrev pub share_rate : ℕ → ℕ → ℕ → ℕ
share_rate one supply held = supply * one / held

module _ (one supply held : ℕ) (one_pos : 0 < one) where
  -- More than the amount at the rounded rate is more than the amount at the share.
  above_share :
      (amount charge : ℕ)
      → 0 < held
      → amount * one < charge * share_rate one supply held
      → amount * held < charge * supply
  above_share amount charge held_pos h =
      let r = share_rate one supply held in
      let down : r * held ≤ supply * one = div-mul-le (supply * one) held in
      let first : amount * one * held < charge * r * held = mul-lt-mul_of_pos_right h held_pos in
      let second : r * held * charge ≤ supply * one * charge = mul-le-mul_right charge down in
      lt_of_mul_lt (amount * held) (charge * supply) one (omega arith)

  pub below_share :
      (issued n : ℕ) → issued * one ≤ share_rate one supply held * n → issued * held ≤ n * supply
  below_share issued n h =
      let r = share_rate one supply held in
      let down : r * held ≤ supply * one = div-mul-le (supply * one) held in
      let first : issued * one * held ≤ r * n * held = mul-le-mul_right held h in
      let second : r * held * n ≤ supply * one * n = mul-le-mul_right n down in
      le_of_mul_le (issued * held) (n * supply) one one_pos (omega arith)

module _ {I T S : Type 0} (p : Deployment I T S) (cap : ℕ) (doc : Documented p.host.decimals cap)
    (s : Store T S) (env : Env) (info : MessageInfo) (cfg : T) (held : ℕ) (token : TokenInfo)
    (has_config : s.lsd_config ≡ some cfg)
    (holds : p.hub.get_balance cfg p.host env env.contract ≡ ok held)
    (supplied : p.cw20.query_token_info s.cw20 ≡ ok token) (held_pos : 0 < held)
    (issued_some : 0 < token.total_supply) (rate_pos : held ≤ token.total_supply * p.host.one)
    (rate_fits : token.total_supply * p.host.one / held < cap) where
  abbrev rate : ℕ
  rate = share_rate p.host.one token.total_supply held

  positive : 0 < rate
  positive = ground arith

  -- Neither amount is zero.
  zero_test : (held == 0 || token.total_supply == 0) ≡ false
  zero_test = ground arith

  rate_eq : get_lsd_wrapper_exchange_rate p s env ≡ ok rate
  unfolding get_lsd_wrapper_exchange_rate
  rate_eq = rw (
    has_config,
    holds,
    supplied,
    zero_test,
    doc.from_ratio_law token.total_supply held,
    quotient-fits cap (token.total_supply * p.host.one) held held_pos rate_fits,
  )

  execute_mint_eq :
      (recipient : String) (amount : ℕ)
      → amount * p.host.one < cap
      → amount * p.host.one * p.host.one / rate + p.host.one < cap
      → execute_mint p s env info recipient amount ≡ (
          from_std (
            p.hub.deposit_funds cfg p.host env info
              (mint_charge p.host.one rate amount)
              info.sender)
          >>= λ ms.
              library_call p s ms
                (p.cw20.mint s.cw20 env (record info { sender = env.contract }) recipient amount))
  unfolding execute_mint
  execute_mint_eq recipient amount small fits = rw (
    rate_eq,
    has_config,
    whole p.host.decimals cap doc amount small,
    divided p.host.decimals cap doc (amount * p.host.one) rate positive (omega arith),
    summed p.host.decimals cap doc (amount * p.host.one * p.host.one / rate) p.host.one fits,
    floored p.host.decimals cap doc (amount * p.host.one * p.host.one / rate + p.host.one) fits,
  )

  -- A mint that does not overflow, where the wrapper holds something and tokens are issued, asks
  -- the depositor for one amount of the wrapped token and issues the tokens through the library.
  -- The amount is more than the share of the holdings that the tokens stand for, and worth at most
  -- one unit more than the tokens at the rounded rate.
  pub limited_mint-charges :
      (recipient : String) (amount : ℕ)
      → amount * p.host.one < cap
      → amount * p.host.one * p.host.one / rate + p.host.one < cap
      → (charge : ℕ) × (execute_mint p s env info recipient amount ≡ (
          from_std (p.hub.deposit_funds cfg p.host env info charge info.sender) >>= λ ms.
          library_call p s ms
            (p.cw20.mint s.cw20 env (record info { sender = env.contract }) recipient amount)))
        × (amount * held < charge * token.total_supply)
        × (charge * rate ≤ amount * p.host.one + rate)
  limited_mint-charges recipient amount small fits = (
    mint_charge p.host.one rate amount,
    execute_mint_eq recipient amount small fits,
    above_share p.host.one token.total_supply held doc.one_pos amount
        (mint_charge p.host.one rate amount) held_pos
        (mint_charge-covers p.host.one rate amount doc.one_pos positive),
    mint_charge-tight p.host.one rate amount doc.one_pos positive,
  )

  -- A mint from a given deposit that does not overflow, where the wrapper holds something and
  -- tokens are issued, asks for exactly that deposit, and issues at most the tokens that stand for
  -- the same share of the holdings, and the most that the rounded rate gives.
  pub limited_mint_with-issues :
      (recipient : String) (lsd_amount : ℕ)
      → rate * lsd_amount / p.host.one < cap
      → (issued : ℕ) × (execute_mint_with p s env info recipient lsd_amount ≡ (
          from_std (p.hub.deposit_funds cfg p.host env info lsd_amount info.sender) >>= λ ms.
          library_call p s ms
            (p.cw20.mint s.cw20 env (record info { sender = env.contract }) recipient issued)))
        × (issued * held ≤ lsd_amount * token.total_supply)
        × (lsd_amount * rate < (issued + 1) * p.host.one)
  unfolding execute_mint_with
  limited_mint_with-issues recipient lsd_amount fits =
      let issued = rate * lsd_amount / p.host.one in
      (
        issued,
        rw (
          rate_eq,
          has_config,
          doc.mul_uint_law rate lsd_amount,
          quotient-fits cap (rate * lsd_amount) p.host.one doc.one_pos fits,
          unit_product p.host.decimals cap doc issued fits,
        ),
        below_share p.host.one token.total_supply held doc.one_pos issued lsd_amount
            (div-mul-le (rate * lsd_amount) p.host.one),
        omega (arith, lt-suc-div-mul (rate * lsd_amount) p.host.one doc.one_pos),
      )

  before_burn_eq :
      (amount : ℕ)
      → amount * p.host.one < cap
      → amount * p.host.one * p.host.one / rate < cap
      → before_burn p s env info amount
        ≡ from_std
            (p.hub.send_funds cfg p.host env (burn_payout p.host.one rate amount) info.sender)
  unfolding before_burn
  before_burn_eq amount small fits = rw (
    rate_eq,
    has_config,
    whole p.host.decimals cap doc amount small,
    divided p.host.decimals cap doc (amount * p.host.one) rate positive fits,
    floored p.host.decimals cap doc (amount * p.host.one * p.host.one / rate) fits,
  )

  -- A burn that does not overflow, of one's own tokens or by an allowance, where the wrapper holds
  -- something, pays the caller one amount of the wrapped token and destroys the tokens through the
  -- library. The amount is worth no more than the tokens at the rounded rate, and one unit more
  -- would be more than the share of the holdings that the tokens stand for.
  pub limited_burn-pays :
      (owner : String) (amount : ℕ)
      → amount * p.host.one < cap
      → amount * p.host.one * p.host.one / rate < cap
      → (payout : ℕ) × (execute_burn p s env info amount ≡ (
          from_std (p.hub.send_funds cfg p.host env payout info.sender) >>= λ ms.
          library_call p s ms (p.cw20.burn s.cw20 env info amount)))
        × (execute_burn_from p s env info owner amount ≡ (
            from_std (p.hub.send_funds cfg p.host env payout info.sender) >>= λ ms.
            library_call p s ms (p.cw20.burn_from s.cw20 env info owner amount)))
        × (payout * rate ≤ amount * p.host.one)
        × (amount * held < (payout + 1) * token.total_supply)
  unfolding execute_burn execute_burn_from
  limited_burn-pays owner amount small fits = (
    burn_payout p.host.one rate amount,
    rw (before_burn_eq amount small fits),
    rw (before_burn_eq amount small fits),
    burn_payout-le p.host.one rate amount doc.one_pos positive,
    above_share p.host.one token.total_supply held doc.one_pos amount
        (burn_payout p.host.one rate amount + 1) held_pos
        (burn_payout-tight p.host.one rate amount doc.one_pos positive),
  )
