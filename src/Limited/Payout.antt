-- ===== src/Limited/Payout.antt =====
-- A decompounding of the wrapper with a limit leaves the supply backed by what it holds.
use native.Mathlib.Nat.{mul-le-mul_right}
use cavern_lsd_wrapper.Base.{
  ℕ, ◌+◌, ◌-◌, ◌*◌, ◌/◌, ◌≤◌, ◌<◌, ◌≡◌, Option, some, List, [], map, ok, Bool, inl, inr, ◌⊎◌, arith,
  Outcome-cases, bind_succeeded, ensure_succeeded, String, ContractResult, ContractError, std,
  generic_err, ◌>>=◌, ◌>>◌, subst, ltb, not, nat_eq, ensure,
}
use cavern_lsd_wrapper.Std.{Addr, CosmosMsg, Env, MessageInfo, Response, SubMsg, sub_msg}
use cavern_lsd_wrapper.Std.Decimals.{Documented}
use cavern_lsd_wrapper.Basset.Wrapper.{AccruedRewardsLimited}
use cavern_lsd_wrapper.Deployment.{Deployment}
use cavern_lsd_wrapper.Custody.{Custody}
use cavern_lsd_wrapper.Cw20.{TokenInfo}
use cavern_lsd_wrapper.Pricing.Bounds.{spare_tokens, spare_tokens-backed}
use cavern_lsd_wrapper.Token.Decompound.{no_rewards_message}
use cavern_lsd_wrapper.Limited.Store.{Store, WrapperState}
use cavern_lsd_wrapper.Limited.Querier.{get_current_exchange_rate}
use cavern_lsd_wrapper.Limited.Rewards.{
  unlimited_rewards, limit_rewards, set_aside_one, report, rewards_of, compute_accrued_rewards,
}
use cavern_lsd_wrapper.Limited.Decompound.{execute_decompound}
use cavern_lsd_wrapper.Limited.Sends.{decompound_sends}

module _ {I T S : Type 0} (p : Deployment I T S) (cap : ℕ)
    (doc : Documented p.host.decimals cap) where
  abbrev spare_of : WrapperState → ℕ
  spare_of state =
      spare_tokens p.host.one state.lsd_exchange_rate state.lsd_balance state.wlsd_supply

  unlimited_rewards_ok :
      (state : WrapperState) (luna n : ℕ)
      → unlimited_rewards p state ≡ ok (luna, n)
      → (0 < state.lsd_exchange_rate) × (n ≡ spare_of state)
  unfolding unlimited_rewards
  unlimited_rewards_ok state luna n h = ground (
    arith,
    doc.mul_uint_law state.backing_luna 1,
    doc.uint_sub_law (state.backing_luna * 1 / p.host.one) state.wlsd_supply,
    doc.from_ratio_law state.lsd_balance 1,
    doc.from_ratio_law state.wlsd_supply 1,
    doc.div_law (state.wlsd_supply * p.host.one) state.lsd_exchange_rate,
    doc.checked_sub_law (state.lsd_balance * p.host.one)
        (state.wlsd_supply * p.host.one * p.host.one / state.lsd_exchange_rate),
    doc.mul_uint_law
        (state.lsd_balance * p.host.one
          - state.wlsd_supply * p.host.one * p.host.one / state.lsd_exchange_rate)
        1,
  )

  -- A limit only lowers the rewards.
  limit_rewards_le :
      (s : Store T S) (env : Env) (state : WrapperState) (luna n luna' n' : ℕ)
      → limit_rewards p s env state (luna, n) ≡ ok (luna', n')
      → n' ≤ n
  unfolding limit_rewards
  limit_rewards_le s env state luna n luna' n' h = ground arith

  pub set_aside_one_less :
      (state : WrapperState) (luna n luna' n' : ℕ)
      → set_aside_one p state (luna, n) ≡ ok (luna', n')
      → n' ≡ n - 1
  unfolding set_aside_one
  set_aside_one_less state luna n luna' n' h = ground (arith, doc.uint_sub_law n 1)

  pub report_same :
      (luna n backing : ℕ) (rewards : AccruedRewardsLimited)
      → report p luna n backing ≡ ok rewards
      → rewards.lsd_rewards ≡ n
  report_same luna n backing rewards h = ground (arith, doc.uint_mul_law n 1)

  rewards_of_le :
      (s : Store T S) (env : Env) (state : WrapperState) (rewards : AccruedRewardsLimited)
      → rewards_of p s env state ≡ ok rewards
      → (0 < state.lsd_exchange_rate) × (rewards.lsd_rewards ≤ spare_of state - 1)
  unfolding rewards_of
  rewards_of_le s env state rewards h =
      let aside : ℕ × ℕ → ContractResult AccruedRewardsLimited =
        λ l. set_aside_one p state l >>= λ k. report p k.0 k.1 state.backing_luna in
      let (l0, e0, h1) =
        bind_succeeded (unlimited_rewards p state) (λ l. limit_rewards p s env state l >>= aside)
          h in
      let (l1, e1, h2) = bind_succeeded (limit_rewards p s env state l0) aside h1 in
      let (l2, e2, h3) =
        bind_succeeded (set_aside_one p state l1) (λ k. report p k.0 k.1 state.backing_luna) h2 in
      let (pos, all) = unlimited_rewards_ok state l0.0 l0.1 e0 in
      let lower : l1.1 ≤ l0.1 = limit_rewards_le s env state l0.0 l0.1 l1.0 l1.1 e1 in
      let less : l2.1 ≡ l1.1 - 1 = set_aside_one_less state l1.0 l1.1 l2.0 l2.1 e2 in
      let same : rewards.lsd_rewards ≡ l2.1 = report_same l2.0 l2.1 state.backing_luna rewards h3 in
      (pos, omega arith)

  module _ (s : Store T S) (env : Env) (cfg : T) (rate held : ℕ) (supply : S → ℕ)
      (has_config : s.lsd_config ≡ some cfg)
      (rated : p.hub.query_exchange_rate cfg p.host env ≡ ok rate)
      (holds : p.hub.get_balance cfg p.host env env.contract ≡ ok held)
      (supplied : (i : TokenInfo)
        → p.cw20.query_token_info s.cw20 ≡ ok i
        → i.total_supply ≡ supply s.cw20) where
    observed_state :
        (x : ℕ) (state : WrapperState)
        → get_current_exchange_rate p s env ≡ ok (x, state)
        → (state.lsd_exchange_rate ≡ rate)
          × (state.lsd_balance ≡ held)
          × (state.wlsd_supply ≡ supply s.cw20)
    unfolding get_current_exchange_rate
    observed_state x state h = elim (Outcome-cases (p.cw20.query_token_info s.cw20)) [
      | inl (i, e) ↦ ground (arith, supplied i e)
      | inr fails ↦ ground arith
    ]

    abbrev spare : ℕ
    spare = spare_tokens p.host.one rate held (supply s.cw20)

    payout_computed :
        (rewards : AccruedRewardsLimited)
        → compute_accrued_rewards p s env ≡ ok rewards
        → (0 < rate) × (rewards.lsd_rewards ≤ spare - 1)
    unfolding compute_accrued_rewards
    payout_computed rewards h =
        let above : ℕ × WrapperState → Bool = λ x. not (ltb x.0 p.host.one) in
        let below_one : ContractError = std (generic_err no_rewards_message) in
        let (x, e, h1) =
          bind_succeeded (get_current_exchange_rate p s env)
            (λ x. ensure (above x) below_one >> rewards_of p s env x.1) h in
        let h2 = (ensure_succeeded (above x) below_one (rewards_of p s env x.1) h1).1 in
        let (pos, paid) = rewards_of_le s env x.1 rewards h2 in
        let (er, eh, es) = observed_state x.0 x.1 e in (rw (← er) pos, simp (er, eh, es) at paid)

    -- The messages pay out at most the spare tokens but one, or there are none.
    abbrev PaysSpare : Response → Type 0
    PaysSpare r =
        (r.messages ≡ [])
        ⊎ ((n : ℕ) × (to : Addr) × (ms : List CosmosMsg) × (p.hub.send_funds cfg p.host env n to
              ≡ ok ms)
            × (r.messages ≡ map sub_msg ms)
            × (n ≤ spare - 1)
            × (0 < rate))

    pays_spare :
        (info : MessageInfo) (recipient : Option String) (s' : Store T S) (r : Response)
        → execute_decompound p s env info recipient ≡ ok (s', r)
        → (s'.cw20 ≡ s.cw20) × PaysSpare r
    pays_spare info recipient s' r h =
        let (same, sends) = decompound_sends p s env cfg has_config info recipient s' r h in
        (
          same,
          elim sends [
            | inl silent ↦ inl silent
            | inr (rewards, to, ms, computed, more, sent, carried) ↦
                let (pos, paid) = payout_computed rewards computed in
                inr (rewards.lsd_rewards, to, ms, sent, carried, paid, pos)
          ],
        )

    -- A decompounding that succeeds keeps the supply, and where the supply was backed at the rate
    -- of the wrapped token, its payment leaves it backed, whatever the limit.
    pub limited_decompound-backed :
        (custody : Custody p.hub cfg) (info : MessageInfo) (recipient : Option String)
        (s' : Store T S) (r : Response) (held' : ℕ)
        → custody.Runs p.host
        → execute_decompound p s env info recipient ≡ ok (s', r)
        → custody.After env info r.messages held held'
        → supply s.cw20 * p.host.one ≤ held * rate
        → (s'.cw20 ≡ s.cw20) × (supply s'.cw20 * p.host.one ≤ held' * rate)
    limited_decompound-backed custody info recipient s' r held' runs h after backed =
        let (same, sends) = pays_spare info recipient s' r h in
        (
          same,
          rw same (elim sends [
            | inl silent ↦
                let kept : held ≤ held' =
                  custody.keeps env info [] held held' custody.quiet_none (
                    subst (λ (l : List SubMsg). custody.After env info l held held') silent
                      after) in
                omega (arith, mul-le-mul_right rate kept)
            | inr (n, to, ms, sent, carried, few, pos) ↦
                let left : held ≤ held' + n =
                  custody.pays p.host env info n to ms [] held held' runs custody.quiet_none sent (
                    subst (λ (l : List SubMsg). custody.After env info l held held') carried
                      after) in
                let safe : supply s.cw20 * p.host.one ≤ (held - (spare - 1)) * rate =
                  spare_tokens-backed p.host.one rate held (supply s.cw20) doc.one_pos pos backed in
                let fewer : held - (spare - 1) ≤ held' = omega arith in
                omega (arith, mul-le-mul_right rate fewer)
          ]),
        )
