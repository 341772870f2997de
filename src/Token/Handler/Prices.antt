-- ===== src/Token/Handler/Prices.antt =====
-- What the handlers that mint and burn charge and pay, at every input that does not overflow.
use cavern_lsd_wrapper.Base.{
  ℕ, ◌+◌, ◌*◌, ◌/◌, ◌<◌, ◌≤◌, ◌≡◌, String, some, ok, from_std, ◌>>=◌, arith,
}
use cavern_lsd_wrapper.Std.{Env, MessageInfo}
use cavern_lsd_wrapper.Std.Decimals.{Documented}
use cavern_lsd_wrapper.Deployment.{Deployment}
use cavern_lsd_wrapper.Pricing.Operations.{whole, divided, multiplied, summed, floored}
use cavern_lsd_wrapper.Pricing.Bounds.{
  mint_charge, burn_payout, mint_charge-covers, mint_charge-tight, burn_payout-le,
  burn_payout-tight, issue_amount, issue_amount-le, issue_amount-tight,
}
use cavern_lsd_wrapper.Token.Store.{Store}
use cavern_lsd_wrapper.Token.Handler.{
  library_call, before_burn, execute_burn, execute_burn_from, execute_mint, execute_mint_with,
}

module _ {I T S : Type 0} (p : Deployment I T S) (cap : ℕ) (doc : Documented p.host.decimals cap)
    (s : Store T S) (env : Env) (info : MessageInfo) (cfg : T) (rate : ℕ)
    (has_config : s.lsd_config ≡ some cfg)
    (rated : p.hub.query_exchange_rate cfg p.host env ≡ ok rate) (rate_pos : 0 < rate) where
  execute_mint_eq :
      (recipient : String) (amount : ℕ)
      → amount * p.host.one < cap
      → amount * p.host.one * p.host.one / rate + p.host.one < cap
      → execute_mint p s env info recipient amount ≡ (
          from_std (
            p.hub.deposit_funds cfg p.host env info
              (mint_charge p.host.one rate amount)
              info.sender)
          >>= λ ms.
              library_call p s ms
                (p.cw20.mint s.cw20 env (record info { sender = env.contract }) recipient amount))
  unfolding execute_mint
  execute_mint_eq recipient amount small fits = rw (
    has_config,
    rated,
    whole p.host.decimals cap doc amount small,
    divided p.host.decimals cap doc (amount * p.host.one) rate rate_pos (omega arith),
    summed p.host.decimals cap doc (amount * p.host.one * p.host.one / rate) p.host.one fits,
    floored p.host.decimals cap doc (amount * p.host.one * p.host.one / rate + p.host.one) fits,
  )

  -- A mint that does not overflow asks the depositor for one amount of the wrapped token and issues
  -- the tokens through the library; the amount is worth more than the tokens at the current rate,
  -- by at most one unit of the wrapped token.
  pub execute_mint-charges :
      (recipient : String) (amount : ℕ)
      → amount * p.host.one < cap
      → amount * p.host.one * p.host.one / rate + p.host.one < cap
      → (charge : ℕ) × (execute_mint p s env info recipient amount ≡ (
          from_std (p.hub.deposit_funds cfg p.host env info charge info.sender) >>= λ ms.
          library_call p s ms
            (p.cw20.mint s.cw20 env (record info { sender = env.contract }) recipient amount)))
        × (amount * p.host.one < charge * rate)
        × (charge * rate ≤ amount * p.host.one + rate)
  execute_mint-charges recipient amount small fits = (
    mint_charge p.host.one rate amount,
    execute_mint_eq recipient amount small fits,
    mint_charge-covers p.host.one rate amount doc.one_pos rate_pos,
    mint_charge-tight p.host.one rate amount doc.one_pos rate_pos,
  )

  before_burn_eq :
      (amount : ℕ)
      → amount * p.host.one < cap
      → amount * p.host.one * p.host.one / rate < cap
      → before_burn p s env info amount
        ≡ p.hub.send_funds cfg p.host env (burn_payout p.host.one rate amount) info.sender
  unfolding before_burn
  before_burn_eq amount small fits = rw (
    has_config,
    rated,
    whole p.host.decimals cap doc amount small,
    divided p.host.decimals cap doc (amount * p.host.one) rate rate_pos fits,
    floored p.host.decimals cap doc (amount * p.host.one * p.host.one / rate) fits,
  )

  -- A burn that does not overflow, of one's own tokens or by an allowance, pays the caller one
  -- amount of the wrapped token and destroys the tokens through the library; the amount is worth no
  -- more than the tokens at the current rate, and one unit more would be worth more.
  pub execute_burn-pays :
      (owner : String) (amount : ℕ)
      → amount * p.host.one < cap
      → amount * p.host.one * p.host.one / rate < cap
      → (payout : ℕ) × (execute_burn p s env info amount ≡ (
          from_std (p.hub.send_funds cfg p.host env payout info.sender) >>= λ ms.
          library_call p s ms (p.cw20.burn s.cw20 env info amount)))
        × (execute_burn_from p s env info owner amount ≡ (
            from_std (p.hub.send_funds cfg p.host env payout info.sender) >>= λ ms.
            library_call p s ms (p.cw20.burn_from s.cw20 env info owner amount)))
        × (payout * rate ≤ amount * p.host.one)
        × (amount * p.host.one < (payout + 1) * rate)
  unfolding execute_burn execute_burn_from
  execute_burn-pays owner amount small fits = (
    burn_payout p.host.one rate amount,
    rw (before_burn_eq amount small fits),
    rw (before_burn_eq amount small fits),
    burn_payout-le p.host.one rate amount doc.one_pos rate_pos,
    burn_payout-tight p.host.one rate amount doc.one_pos rate_pos,
  )

  -- A mint from a given deposit that does not overflow asks for exactly that deposit, and issues
  -- the most tokens that are worth no more than it at the current rate.
  pub execute_mint_with-issues :
      (recipient : String) (lsd_amount : ℕ)
      → lsd_amount * p.host.one < cap
      → lsd_amount * p.host.one * rate / p.host.one < cap
      → (issued : ℕ) × (execute_mint_with p s env info recipient lsd_amount ≡ (
          from_std (p.hub.deposit_funds cfg p.host env info lsd_amount info.sender) >>= λ ms.
          library_call p s ms
            (p.cw20.mint s.cw20 env (record info { sender = env.contract }) recipient issued)))
        × (issued * p.host.one ≤ lsd_amount * rate)
        × (lsd_amount * rate < (issued + 1) * p.host.one)
  unfolding execute_mint_with
  execute_mint_with-issues recipient lsd_amount small fits = (
    issue_amount p.host.one rate lsd_amount,
    rw (
      has_config,
      rated,
      whole p.host.decimals cap doc lsd_amount small,
      multiplied p.host.decimals cap doc (lsd_amount * p.host.one) rate fits,
      floored p.host.decimals cap doc (lsd_amount * p.host.one * rate / p.host.one) fits,
    ),
    issue_amount-le p.host.one rate lsd_amount doc.one_pos,
    issue_amount-tight p.host.one rate lsd_amount doc.one_pos,
  )
