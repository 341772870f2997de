-- ===== src/Limited/Solvency.antt =====
-- The wrapper with a limit: what its messages leave of the backing of the supply at the rate of the
-- wrapped token, which its prices do not read.
pub mod Burns
pub mod Messages
use cavern_lsd_wrapper.Base.{
  ℕ, ◌+◌, ◌*◌, ◌/◌, ◌≤◌, ◌<◌, ◌≡◌, refl, String, some, List, ok, err, panic, inl, inr, arith,
  Outcome-cases, Bool-cases, from_std, ContractResult, StdResult, ◌>>=◌, ◌==◌, nat_eq, ◌||◌,
}
use cavern_lsd_wrapper.Std.{CosmosMsg, Env, MessageInfo, Response, add_messages}
use cavern_lsd_wrapper.Std.Decimals.{Documented}
use cavern_lsd_wrapper.Cw20.{TokenInfo}
use cavern_lsd_wrapper.Deployment.{Deployment}
use cavern_lsd_wrapper.Pricing.Bounds.{mint_charge, burn_payout}
use cavern_lsd_wrapper.Limited.Store.{Store}
use cavern_lsd_wrapper.Limited.Shares.{IsRate}
use cavern_lsd_wrapper.Limited.Querier.{get_lsd_wrapper_exchange_rate}
use cavern_lsd_wrapper.Limited.Handler.{library_call, before_burn, execute_mint, execute_mint_with}

module _ {I T S : Type 0} (p : Deployment I T S) (s : Store T S) where
  -- A handler that asks for the messages `made` and calls the library.
  pub library_succeeded :
      (made : ContractResult (List CosmosMsg)) (called : ContractResult (S × Response))
      (s' : Store T S) (r : Response)
      → (made >>= λ ms. library_call p s ms called) ≡ ok (s', r)
      → (ms : List CosmosMsg) × (x : S × Response) × (made ≡ ok ms)
        × (called ≡ ok x)
        × (s' ≡ record s { cw20 = x.0 })
        × (r ≡ add_messages ms x.1)
  library_succeeded (ok ms) (ok x) s' r h = (ms, x, refl, refl, ground arith, ground arith)
  library_succeeded (ok ms) (err e) s' r h = cc
  library_succeeded (ok ms) panic s' r h = cc
  library_succeeded (err e) called s' r h = cc
  library_succeeded panic called s' r h = cc

module _ {I T S : Type 0} (p : Deployment I T S) (cap : ℕ) (doc : Documented p.host.decimals cap)
    (s : Store T S) (env : Env) (info : MessageInfo) (cfg : T) (held supply : ℕ)
    (has_config : s.lsd_config ≡ some cfg)
    (holds : p.hub.get_balance cfg p.host env env.contract ≡ ok held)
    (supplied : (i : TokenInfo)
      → p.cw20.query_token_info s.cw20 ≡ ok i
      → i.total_supply ≡ supply) where
  pub IsRate-cases :
      (rate : ℕ)
      → get_lsd_wrapper_exchange_rate p s env ≡ ok rate
      → IsRate p.host.one supply held rate
  unfolding get_lsd_wrapper_exchange_rate
  IsRate-cases rate h = elim (Outcome-cases (p.cw20.query_token_info s.cw20)) [
    | inr fails ↦ ground arith
    | inl (i, e) ↦
        let same = supplied i e in
        elim (Bool-cases (held == 0)) [
          | inl nothing ↦ inr (inl (ground arith), ground arith)
          | inr holding ↦ elim (Bool-cases (supply == 0)) [
            | inl nothing ↦ inr (inr (ground arith), ground arith)
            | inr issued ↦
                inl (ground arith, ground arith, ground (arith, doc.from_ratio_law supply held))
          ]
        ]
  ]

  -- A successful mint asks for the charge and mints.
  pub mint_succeeded :
      (recipient : String) (amount : ℕ) (s' : Store T S) (r : Response)
      → execute_mint p s env info recipient amount ≡ ok (s', r)
      → (rate : ℕ) × IsRate p.host.one supply held rate
        × (0 < rate)
        × ((from_std (
                p.hub.deposit_funds cfg p.host env info
                  (mint_charge p.host.one rate amount)
                  info.sender)
              >>= λ ms.
                  library_call p s ms (
                    p.cw20.mint s.cw20 env
                      (record info { sender = env.contract })
                      recipient
                      amount))
            ≡ ok (s', r))
  unfolding execute_mint
  mint_succeeded recipient amount s' r h =
      elim (Outcome-cases (get_lsd_wrapper_exchange_rate p s env)) [
        | inr fails ↦ ground arith
        | inl (rate, e) ↦
            let made : (0 < rate)
                × ((from_std (
                        p.hub.deposit_funds cfg p.host env info (mint_charge p.host.one rate amount)
                          info.sender)
                      >>= λ ms. library_call p s ms (
                          p.cw20.mint s.cw20 env (record info { sender = env.contract }) recipient
                            amount))
                    ≡ ok (s', r)) =
              ground (
                arith,
                doc.from_ratio_law amount 1,
                doc.div_law (amount * p.host.one) rate,
                doc.add_law (amount * p.host.one * p.host.one / rate) p.host.one,
                doc.mul_uint_law (amount * p.host.one * p.host.one / rate + p.host.one) 1,
              ) in
            (rate, IsRate-cases rate e, made.0, made.1)
      ]

  pub mint_with_succeeded :
      (recipient : String) (n : ℕ) (s' : Store T S) (r : Response)
      → execute_mint_with p s env info recipient n ≡ ok (s', r)
      → (rate : ℕ) × IsRate p.host.one supply held rate
        × ((from_std (p.hub.deposit_funds cfg p.host env info n info.sender) >>= λ ms.
              library_call p s ms (
                p.cw20.mint s.cw20 env
                  (record info { sender = env.contract })
                  recipient
                  (rate * n / p.host.one)))
            ≡ ok (s', r))
  unfolding execute_mint_with
  mint_with_succeeded recipient n s' r h =
      elim (Outcome-cases (get_lsd_wrapper_exchange_rate p s env)) [
        | inr fails ↦ ground arith
        | inl (rate, e) ↦ (
          rate,
          IsRate-cases rate e,
          ground (arith, doc.mul_uint_law rate n, doc.uint_mul_law (rate * n / p.host.one) 1),
        )
      ]

  -- The messages of a burn are a payment.
  pub before_burn_succeeded :
      (amount : ℕ) (ms : List CosmosMsg)
      → before_burn p s env info amount ≡ ok ms
      → (rate : ℕ) × IsRate p.host.one supply held rate
        × (0 < rate)
        × (p.hub.send_funds cfg p.host env (burn_payout p.host.one rate amount) info.sender ≡ ok ms)
  unfolding before_burn
  before_burn_succeeded amount ms h = elim (Outcome-cases (get_lsd_wrapper_exchange_rate p s env)) [
    | inr fails ↦ ground arith
    | inl (rate, e) ↦
        let made : (0 < rate)
            × (p.hub.send_funds cfg p.host env (burn_payout p.host.one rate amount) info.sender
                ≡ ok ms) =
          ground (
            arith,
            doc.from_ratio_law amount 1,
            doc.div_law (amount * p.host.one) rate,
            doc.mul_uint_law (amount * p.host.one * p.host.one / rate) 1,
          ) in
        (rate, IsRate-cases rate e, made.0, made.1)
  ]
