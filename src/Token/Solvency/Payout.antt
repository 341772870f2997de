-- ===== src/Token/Solvency/Payout.antt =====
-- A decompounding leaves the supply backed by what the wrapper holds.
use native.Mathlib.Nat.{mul-le-mul_right}
use cavern_lsd_wrapper.Base.{
  ℕ, ◌+◌, ◌-◌, ◌*◌, ◌/◌, ◌≤◌, ◌<◌, ◌≡◌, Option, some, List, [], map, ok, Bool, inl, inr, ◌⊎◌, arith,
  Outcome-cases, Bool-cases, bind_succeeded, map_option, option_or, String, ContractResult, ◌>>=◌,
  subst, ltb, ensure, not, ◌==◌, nat_eq, ensure_succeeded, ◌>>◌, ContractError, std, generic_err,
  or_panic,
}
use cavern_lsd_wrapper.Std.{Addr, CosmosMsg, Env, MessageInfo, Response, SubMsg, sub_msg}
use cavern_lsd_wrapper.Std.Decimals.{Documented}
use cavern_lsd_wrapper.Basset.Wrapper.{AccruedRewards}
use cavern_lsd_wrapper.Deployment.{Deployment}
use cavern_lsd_wrapper.Custody.{Custody}
use cavern_lsd_wrapper.Cw20.{TokenInfo}
use cavern_lsd_wrapper.Pricing.Bounds.{spare_tokens, spare_tokens-backed}
use cavern_lsd_wrapper.Token.Store.{Store, WrapperState}
use cavern_lsd_wrapper.Token.Querier.{get_current_exchange_rate}
use cavern_lsd_wrapper.Token.Decompound.{
  set_aside_one, rewards_of, compute_accrued_rewards, execute_decompound, no_rewards_message,
}

module _ {I T S : Type 0} (p : Deployment I T S) (cap : ℕ)
    (doc : Documented p.host.decimals cap) where
  -- The steps after the spare tokens are known.
  abbrev pay_rewards : WrapperState → ℕ → ℕ → ContractResult AccruedRewards
  pay_rewards state luna n = set_aside_one p state luna n >>= λ x.
      or_panic (p.host.uint_mul x.0 1) >>= λ l.
      or_panic (p.host.uint_mul x.1 1) >>= λ k. ok (record { luna_rewards = l; lsd_rewards = k })

  abbrev spare_of : WrapperState → ℕ
  spare_of state =
      spare_tokens p.host.one state.lsd_exchange_rate state.lsd_balance state.wlsd_supply

  pay_rewards_ok :
      (state : WrapperState) (luna n : ℕ) (rewards : AccruedRewards)
      → pay_rewards state luna n ≡ ok rewards
      → rewards.lsd_rewards ≡ n - 1
  unfolding set_aside_one
  pay_rewards_ok state luna n rewards h =
      ground (arith, doc.uint_sub_law n 1, doc.uint_mul_law (n - 1) 1, doc.uint_mul_law n 1)

  spare_found :
      (state : WrapperState) (rewards : AccruedRewards)
      → rewards_of p state ≡ ok rewards
      → (0 < state.lsd_exchange_rate)
        × (pay_rewards state
              (state.backing_luna * 1 / p.host.one - state.wlsd_supply)
              (spare_of state)
            ≡ ok rewards)
  unfolding rewards_of
  spare_found state rewards h = ground (
    arith,
    doc.mul_uint_law state.backing_luna 1,
    doc.uint_sub_law (state.backing_luna * 1 / p.host.one) state.wlsd_supply,
    doc.from_ratio_law state.lsd_balance 1,
    doc.from_ratio_law state.wlsd_supply 1,
    doc.div_law (state.wlsd_supply * p.host.one) state.lsd_exchange_rate,
    doc.checked_sub_law (state.lsd_balance * p.host.one)
        (state.wlsd_supply * p.host.one * p.host.one / state.lsd_exchange_rate),
    doc.mul_uint_law
        (state.lsd_balance * p.host.one
          - state.wlsd_supply * p.host.one * p.host.one / state.lsd_exchange_rate)
        1,
  )

  module _ (s : Store T S) (env : Env) (cfg : T) (rate held : ℕ) (supply : S → ℕ)
      (has_config : s.lsd_config ≡ some cfg)
      (rated : p.hub.query_exchange_rate cfg p.host env ≡ ok rate)
      (holds : p.hub.get_balance cfg p.host env env.contract ≡ ok held)
      (supplied : (i : TokenInfo)
        → p.cw20.query_token_info s.cw20 ≡ ok i
        → i.total_supply ≡ supply s.cw20) where
    -- The state that the rewards are computed from.
    observed_state :
        (x : ℕ) (state : WrapperState)
        → get_current_exchange_rate p s env ≡ ok (x, state)
        → (state.lsd_exchange_rate ≡ rate)
          × (state.lsd_balance ≡ held)
          × (state.wlsd_supply ≡ supply s.cw20)
    unfolding get_current_exchange_rate
    observed_state x state h = elim (Outcome-cases (p.cw20.query_token_info s.cw20)) [
      | inl (i, e) ↦ ground (arith, supplied i e)
      | inr fails ↦ ground arith
    ]

    payout_computed :
        (rewards : AccruedRewards)
        → compute_accrued_rewards p s env ≡ ok rewards
        → (0 < rate) × (rewards.lsd_rewards ≡ spare_tokens p.host.one rate held (supply s.cw20) - 1)
    unfolding compute_accrued_rewards
    payout_computed rewards h =
        let above : ℕ × WrapperState → Bool = λ x. not (ltb x.0 p.host.one) in
        let below_one : ContractError = std (generic_err no_rewards_message) in
        let (x, e, h1) =
          bind_succeeded (get_current_exchange_rate p s env)
            (λ x. ensure (above x) below_one >> rewards_of p x.1) h in
        let h2 = (ensure_succeeded (above x) below_one (rewards_of p x.1) h1).1 in
        let (pos, tail) = spare_found x.1 rewards h2 in
        let paid : rewards.lsd_rewards ≡ spare_of x.1 - 1 =
          pay_rewards_ok x.1 _ (spare_of x.1) rewards tail in
        let (er, eh, es) = observed_state x.0 x.1 e in (rw (← er) pos, simp (er, eh, es) at paid)

    -- The messages pay out the spare tokens but one, or there are none.
    abbrev PaysSpare : Response → Type 0
    PaysSpare r =
        (r.messages ≡ [])
        ⊎ ((to : Addr) × (ms : List CosmosMsg) × (p.hub.send_funds cfg p.host env
                (spare_tokens p.host.one rate held (supply s.cw20) - 1) to
              ≡ ok ms)
            × (r.messages ≡ map sub_msg ms)
            × (0 < rate))

    paid_rewards :
        (to : Addr) (rewards : AccruedRewards) (ms : List CosmosMsg) (r : Response)
        → compute_accrued_rewards p s env ≡ ok rewards
        → p.hub.send_funds cfg p.host env rewards.lsd_rewards to ≡ ok ms
        → r.messages ≡ map sub_msg ms
        → PaysSpare r
    paid_rewards to rewards ms r computed sent carried =
        let (pos, paid) = payout_computed rewards computed in
        inr (to, ms, rw (← paid) sent, carried, pos)

    decompound_sends :
        (info : MessageInfo) (recipient : Option String) (s' : Store T S) (r : Response)
        → execute_decompound p s env info recipient ≡ ok (s', r)
        → (s' ≡ s) × PaysSpare r
    unfolding execute_decompound
    decompound_sends info recipient s' r h =
        elim (Outcome-cases (map_option p.host.addr_validate recipient)) [
          | inr fails ↦ ground arith
          | inl (v, ev) ↦ elim (Outcome-cases (compute_accrued_rewards p s env)) [
            | inr fails ↦ (ground arith, inl (ground arith))
            | inl (rewards, computed) ↦ elim (Bool-cases (rewards.lsd_rewards == 0)) [
              | inl nothing ↦ (ground arith, inl (ground arith))
              | inr some_left ↦
                  elim (Outcome-cases (
                    p.hub.send_funds cfg p.host env rewards.lsd_rewards
                      (option_or v info.sender))) [
                        | inr fails ↦ ground arith
                        | inl (ms, sent) ↦ (
                          ground arith,
                          paid_rewards (option_or v info.sender) rewards ms r computed sent
                              (ground arith),
                        )
                      ]
            ]
          ]
        ]

    -- A decompounding that succeeds keeps the storage, and its payment leaves the supply backed.
    pub decompound_backed :
        (custody : Custody p.hub cfg) (runs : custody.Runs p.host) (info : MessageInfo)
        (recipient : Option String) (s' : Store T S) (r : Response) (held' : ℕ)
        → execute_decompound p s env info recipient ≡ ok (s', r)
        → custody.After env info r.messages held held'
        → supply s.cw20 * p.host.one ≤ held * rate
        → (s' ≡ s) × (supply s.cw20 * p.host.one ≤ held' * rate)
    decompound_backed custody runs info recipient s' r held' h after backed =
        let (same, sends) = decompound_sends info recipient s' r h in
        (
          same,
          elim sends [
            | inl silent ↦
                let kept : held ≤ held' =
                  custody.keeps env info [] held held' custody.quiet_none (
                    subst (λ (l : List SubMsg). custody.After env info l held held') silent
                      after) in
                omega (arith, mul-le-mul_right rate kept)
            | inr (to, ms, sent, carried, pos) ↦
                let paid : ℕ = spare_tokens p.host.one rate held (supply s.cw20) - 1 in
                let left : held ≤ held' + paid =
                  custody.pays p.host env info paid to ms [] held held' runs custody.quiet_none sent
                    (subst (λ (l : List SubMsg). custody.After env info l held held') carried
                      after) in
                let safe : supply s.cw20 * p.host.one ≤ (held - paid) * rate =
                  spare_tokens-backed p.host.one rate held (supply s.cw20) doc.one_pos pos backed in
                let fewer : held - paid ≤ held' = omega arith in
                omega (arith, mul-le-mul_right rate fewer)
          ],
        )
