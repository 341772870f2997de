-- ===== src/Token/Solvency.antt =====
-- Every message of the wrapper leaves the supply backed by what it holds.
pub mod Messages
pub mod Payout
pub mod RoundTrip
use cavern_lsd_wrapper.Base.{
  ℕ, ◌+◌, ◌-◌, ◌*◌, ◌/◌, ◌≤◌, ◌<◌, ◌≡◌, ◌≢◌, refl, String, Option, some, none, List, ok, err, panic,
  Bool, true, false, inl, inr, ◌⊎◌, arith, Outcome-cases, Option-cases, bind_succeeded, from_std,
  ContractResult, StdResult, ◌>>=◌, subst, ap, ◌++◌, map,
}
use cavern_lsd_wrapper.Std.{Addr, CosmosMsg, Env, MessageInfo, Response, sub_msg, add_messages}
use native.Mathlib.Nat.{mul-le-mul_right}
use cavern_lsd_wrapper.Std.Decimals.{Documented}
use cavern_lsd_wrapper.Host.{Host}
use cavern_lsd_wrapper.Cw20.{Cw20}
use cavern_lsd_wrapper.Cw20.Supply.{Supplies}
use cavern_lsd_wrapper.LsdHub.Trait.{LsdHub}
use cavern_lsd_wrapper.Custody.{Custody}
use cavern_lsd_wrapper.Custody.Calls.{deposit_received, payment_left}
use cavern_lsd_wrapper.Deployment.{Deployment}
use cavern_lsd_wrapper.Pricing.Bounds.{
  mint_charge, burn_payout, mint_charge-covers, burn_payout-le, issue_amount, issue_amount-le,
}
use cavern_lsd_wrapper.Token.Store.{Store}
use cavern_lsd_wrapper.Token.Handler.{
  library_call, before_burn, execute_burn, execute_burn_from, execute_mint, execute_mint_with,
}

module _ {I T S : Type 0} (p : Deployment I T S) (s : Store T S) where
  -- A handler that asks for the messages `made` and calls the library.
  abbrev Calls :
      StdResult (List CosmosMsg) → ContractResult (S × Response) → Store T S → Response → Type 0
  Calls made called s' r =
      (ms : List CosmosMsg) × (x : S × Response) × (made ≡ ok ms)
      × (called ≡ ok x)
      × (s' ≡ record s { cw20 = x.0 })
      × (r ≡ add_messages ms x.1)

  library_succeeded :
      (made : StdResult (List CosmosMsg)) (called : ContractResult (S × Response)) (s' : Store T S)
      (r : Response)
      → (from_std made >>= λ ms. library_call p s ms called) ≡ ok (s', r)
      → Calls made called s' r
  library_succeeded (ok ms) (ok x) s' r h = (ms, x, refl, refl, ground arith, ground arith)
  library_succeeded (ok ms) (err e) s' r h = cc
  library_succeeded (ok ms) panic s' r h = cc
  library_succeeded (err e) called s' r h = cc
  library_succeeded panic called s' r h = cc

module _ {I T S : Type 0} (p : Deployment I T S) (cap : ℕ) (doc : Documented p.host.decimals cap)
    (s : Store T S) (env : Env) (info : MessageInfo) (cfg : T) (rate : ℕ)
    (has_config : s.lsd_config ≡ some cfg)
    (rated : p.hub.query_exchange_rate cfg p.host env ≡ ok rate) where
  -- A successful mint asks for the charge and mints.
  mint_succeeded :
      (recipient : String) (amount : ℕ) (s' : Store T S) (r : Response)
      → execute_mint p s env info recipient amount ≡ ok (s', r)
      → (0 < rate)
        × ((from_std (
                p.hub.deposit_funds cfg p.host env info
                  (mint_charge p.host.one rate amount)
                  info.sender)
              >>= λ ms.
                  library_call p s ms (
                    p.cw20.mint s.cw20 env
                      (record info { sender = env.contract })
                      recipient
                      amount))
            ≡ ok (s', r))
  unfolding execute_mint
  mint_succeeded recipient amount s' r h = ground (
    arith,
    doc.from_ratio_law amount 1,
    doc.div_law (amount * p.host.one) rate,
    doc.add_law (amount * p.host.one * p.host.one / rate) p.host.one,
    doc.mul_uint_law (amount * p.host.one * p.host.one / rate + p.host.one) 1,
  )

  mint_with_succeeded :
      (recipient : String) (n : ℕ) (s' : Store T S) (r : Response)
      → execute_mint_with p s env info recipient n ≡ ok (s', r)
      → (from_std (p.hub.deposit_funds cfg p.host env info n info.sender) >>= λ ms.
          library_call p s ms (
            p.cw20.mint s.cw20 env
              (record info { sender = env.contract })
              recipient
              (issue_amount p.host.one rate n)))
        ≡ ok (s', r)
  unfolding execute_mint_with
  mint_with_succeeded recipient n s' r h = ground (
    arith,
    doc.from_ratio_law n 1,
    doc.mul_law (n * p.host.one) rate,
    doc.mul_uint_law (n * p.host.one * rate / p.host.one) 1,
  )

  -- The messages of a burn are a payment.
  before_burn_succeeded :
      (amount : ℕ) (ms : List CosmosMsg)
      → before_burn p s env info amount ≡ ok ms
      → (0 < rate)
        × (p.hub.send_funds cfg p.host env (burn_payout p.host.one rate amount) info.sender ≡ ok ms)
  unfolding before_burn
  before_burn_succeeded amount ms h = ground (
    arith,
    doc.from_ratio_law amount 1,
    doc.div_law (amount * p.host.one) rate,
    doc.mul_uint_law (amount * p.host.one * p.host.one / rate) 1,
  )

  module _ (supply : S → ℕ) (custody : Custody p.hub cfg)
      (laws : Supplies p.cw20 supply custody.Quiet) (runs : custody.Runs p.host) (held held' : ℕ)
      (s' : Store T S) (r : Response) (after : custody.After env info r.messages held held')
      (backed : supply s.cw20 * p.host.one ≤ held * rate) where
    -- The supply is backed after the call.
    abbrev BackedAfter : Type 0
    BackedAfter = supply s'.cw20 * p.host.one ≤ held' * rate

    issued_backed :
        (recipient : String) (issued charge : ℕ)
        → info.sender ≢ env.contract
        → issued * p.host.one ≤ charge * rate
        → Calls p s
            (p.hub.deposit_funds cfg p.host env info charge info.sender)
            (p.cw20.mint s.cw20 env (record info { sender = env.contract }) recipient issued)
            s'
            r
        → BackedAfter
    issued_backed recipient issued charge stranger fair (ms, x, made, called, stored, sent) =
        let (grown, quiet) =
          laws.mint_law s.cw20 env (record info { sender = env.contract }) recipient issued x
            called in
        let received =
          deposit_received p.hub cfg custody p.host runs env info charge ms x.1 r held held' quiet
            sent after stranger made in
        let lift : (held + charge) * rate ≤ held' * rate = mul-le-mul_right rate received in
        let now : supply s'.cw20 ≡ supply s.cw20 + issued = rw stored grown in rw now (omega arith)

    burnt_backed :
        (amount payout : ℕ) (ms : List CosmosMsg) (x : S × Response)
        → payout * rate ≤ amount * p.host.one
        → p.hub.send_funds cfg p.host env payout info.sender ≡ ok ms
        → (supply x.0 + amount ≡ supply s.cw20) × custody.Quiet x.1.messages
        → s' ≡ record s { cw20 = x.0 }
        → r ≡ add_messages ms x.1
        → BackedAfter
    burnt_backed amount payout ms x fair made (burnt, quiet) stored sent =
        let left =
          payment_left p.hub cfg custody p.host runs env info payout ms x.1 r held held' quiet sent
            after info.sender made in
        let lift : held * rate ≤ (held' + payout) * rate = mul-le-mul_right rate left in
        let now : supply s'.cw20 + amount ≡ supply s.cw20 = rw stored burnt in
        omega (arith, ap (λ (t : ℕ). t * p.host.one) now)
