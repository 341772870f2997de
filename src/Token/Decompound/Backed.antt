-- ===== src/Token/Decompound/Backed.antt =====
-- `execute_decompound` by the state of the wrapper: it pays out what the supply does not need, and
-- nothing where the supply is not backed.
use cavern_lsd_wrapper.Base.{
  ℕ, ◌+◌, ◌-◌, ◌*◌, ◌/◌, ◌<◌, ◌≤◌, ◌≡◌, ◌∙◌, inl, inr, String, Option, some, List, [], ◌∷◌, false,
  ltb, ◌==◌, nat_eq, string_eq, not, if◌then◌else◌, ok, err, panic, std, generic_err, from_std,
  map_option, option_or, ContractResult, ◌>>=◌, >>=_assoc, arith, lt→ltb, le→ltb_false, eq_self,
  Bool-cases, ◌&&◌,
}
use cavern_lsd_wrapper.Base.Floor.{lt-suc-div-mul}
use cavern_lsd_wrapper.Std.{
  Addr, CosmosMsg, Env, MessageInfo, Response, empty_response, add_messages, add_attributes,
}
use cavern_lsd_wrapper.Std.Decimals.{Documented}
use cavern_lsd_wrapper.Cw20.{TokenInfo}
use cavern_lsd_wrapper.Deployment.{Deployment}
use cavern_lsd_wrapper.Pricing.Bounds.{
  spare_tokens, spare_tokens-le, spare_tokens-backed, spare_tokens-tight, needed-le-held,
  lt_of_mul_lt,
}
use cavern_lsd_wrapper.Token.Store.{Store}
use cavern_lsd_wrapper.Token.Querier.Rate.{
  Answers, InRange, backing_of, backing_of-eq, current_rate-below_one, get_current_exchange_rate_eq,
}
use cavern_lsd_wrapper.Token.Decompound.{
  no_rewards_message, compute_accrued_rewards, execute_decompound,
}
use cavern_lsd_wrapper.Token.Decompound.Rewards.{after_set_aside, rewards_of_eq}

-- The response of a decompounding with the messages `ms` and the reported `luna`.
abbrev pub decompound_response : {I T S : Type 0} → Deployment I T S → List CosmosMsg → ℕ → Response
decompound_response p ms luna = add_messages ms (
    add_attributes
      (("action", "execute_decompound") ∷ ("total_luna_rewards", p.host.uint_to_string luna) ∷ [])
      empty_response)

-- The payment to `to`, and the response to it.
abbrev pub paid_out :
    {I T S : Type 0}
    → Deployment I T S
    → Store T S
    → Env
    → T
    → Addr
    → ℕ
    → ℕ
    → ContractResult (Store T S × Response)
paid_out p s env cfg to luna paid =
    (if not (paid == 0) then from_std (p.hub.send_funds cfg p.host env paid to) else ok [])
    >>= λ ms. ok (s, decompound_response p ms luna)

-- The value of what the wrapper holds beyond the supply, in whole units.
abbrev pub surplus : ℕ → ℕ → ℕ → ℕ → ℕ
surplus one rate held supply = backing_of one rate held / one - supply

module _ {I T S : Type 0} (p : Deployment I T S) (cap : ℕ) (doc : Documented p.host.decimals cap)
    (s : Store T S) (env : Env) (cfg : T) (rate held : ℕ) (info : TokenInfo)
    (answers : Answers p s env cfg rate held info)
    (range : InRange p.host.one cap rate held info.total_supply) where
  supply-le-backing :
      info.total_supply * p.host.one ≤ held * rate
      → info.total_supply ≤ backing_of p.host.one rate held / p.host.one
  supply-le-backing backed =
      let b = backing_of p.host.one rate held in
      let same : b ≡ held * rate =
        backing_of-eq p.host.one rate held info.total_supply doc.one_pos in
      let up : b < (b / p.host.one + 1) * p.host.one = lt-suc-div-mul b p.host.one doc.one_pos in
      let lt : info.total_supply < b / p.host.one + 1 =
        lt_of_mul_lt info.total_supply (b / p.host.one + 1) p.host.one (omega arith) in
      omega arith

  compute_unbacked :
      held * rate < info.total_supply * p.host.one
      → compute_accrued_rewards p s env ≡ err (std (generic_err no_rewards_message))
  unfolding compute_accrued_rewards
  compute_unbacked short = rw (
    get_current_exchange_rate_eq p cap doc s env cfg rate held info answers range,
    current_rate-below_one p.host.one rate held info.total_supply doc.one_pos,
    lt→ltb _ _ short,
  )

  compute_backed :
      info.total_supply * p.host.one ≤ held * rate
      → compute_accrued_rewards p s env ≡ (
          after_set_aside p rate
            (surplus p.host.one rate held info.total_supply)
            (spare_tokens p.host.one rate held info.total_supply)
          >>= λ r. ok (record { luna_rewards = r.0; lsd_rewards = r.1 }))
  unfolding compute_accrued_rewards
  compute_backed backed =
      rw
        (
          get_current_exchange_rate_eq p cap doc s env cfg rate held info answers range,
          current_rate-below_one p.host.one rate held info.total_supply doc.one_pos,
          le→ltb_false _ _ backed,
        )
        (rewards_of_eq p cap doc held info.total_supply rate (backing_of p.host.one rate held)
          range.rate_pos range.held_fits range.supply_fits range.backing_fits range.rate_fits
          (supply-le-backing backed)
          (needed-le-held p.host.one rate held info.total_supply doc.one_pos range.rate_pos backed))

  module _ (info' : MessageInfo) (recipient : Option String) (valid : Option Addr)
      (is_hub : s.hub_contract ≡ some info'.sender)
      (validated : map_option p.host.addr_validate recipient ≡ ok valid) where
    -- Where no value exceeds its range, a wrapper that is not backed pays out nothing: the hub's call
    -- succeeds with no message,
    -- reports no rewards and leaves the storage alone.
    pub decompound-unbacked :
        held * rate < info.total_supply * p.host.one
        → execute_decompound p s env info' recipient ≡ ok (s, decompound_response p [] 0)
    unfolding execute_decompound
    decompound-unbacked short =
        simp (is_hub, eq_self info'.sender, validated, answers.has_config, compute_unbacked short)

    decompound_eq :
        info.total_supply * p.host.one ≤ held * rate
        → execute_decompound p s env info' recipient ≡ (
            after_set_aside p rate
              (surplus p.host.one rate held info.total_supply)
              (spare_tokens p.host.one rate held info.total_supply)
            >>= λ r. paid_out p s env cfg (option_or valid info'.sender) r.0 r.1)
    unfolding execute_decompound
    decompound_eq backed =
        simp (is_hub, eq_self info'.sender, validated, answers.has_config, compute_backed backed)
          (elim (Bool-cases (ltb 0 n && ltb luna (rate / p.host.one))) [
            | inl short ↦ rw short
            | inr enough ↦ rw enough (
                >>=_assoc
                  (if not (n - 1 == 0)
                    then from_std
                        (p.hub.send_funds cfg p.host env (n - 1) (option_or valid info'.sender))
                    else ok [])
                  _ _)
          ])
      where
        n : ℕ
        n = spare_tokens p.host.one rate held info.total_supply

        luna : ℕ
        luna = surplus p.host.one rate held info.total_supply

    -- Where no value exceeds its range and the hub asks, a backed wrapper whose surplus is worth one
    -- wrapped token pays the recipient what the supply
    -- does not need: the rest still backs the supply, and with two tokens less it would be worth
    -- no more than the supply. Nothing is sent where the payment is zero.
    pub decompound-pays :
        info.total_supply * p.host.one ≤ held * rate
        → rate / p.host.one ≤ surplus p.host.one rate held info.total_supply
        → (luna paid : ℕ) × (execute_decompound p s env info' recipient
            ≡ paid_out p s env cfg (option_or valid info'.sender) luna paid)
          × (paid ≤ held)
          × (info.total_supply * p.host.one ≤ (held - paid) * rate)
          × ((held - (paid + 2)) * rate ≤ info.total_supply * p.host.one)
    decompound-pays backed enough =
        let n = spare_tokens p.host.one rate held info.total_supply in
        let luna = surplus p.host.one rate held info.total_supply in
        let long : (ltb 0 n && ltb luna (rate / p.host.one)) ≡ false = ground arith in
        (
          if ltb 0 n then luna - rate / p.host.one else luna,
          n - 1,
          decompound_eq backed ∙ rw long,
          omega (
            arith,
            spare_tokens-le p.host.one rate held info.total_supply doc.one_pos range.rate_pos,
          ),
          spare_tokens-backed p.host.one rate held info.total_supply doc.one_pos range.rate_pos
              backed,
          spare_tokens-tight p.host.one rate held info.total_supply doc.one_pos range.rate_pos
              backed,
        )

    -- Where no value exceeds its range and the hub asks, a backed wrapper that holds at least one wrapped token more than the supply needs, but whose
    -- surplus, rounded down, is worth less than one token, panics instead of paying nothing.
    pub decompound-panics :
        info.total_supply * p.host.one ≤ held * rate
        → 0 < spare_tokens p.host.one rate held info.total_supply
        → surplus p.host.one rate held info.total_supply < rate / p.host.one
        → execute_decompound p s env info' recipient ≡ panic
    decompound-panics backed spare short =
        decompound_eq backed ∙ rw (lt→ltb _ _ spare, lt→ltb _ _ short)
