-- ===== src/Limited/Reach/Payments.antt =====
-- What a decompounding pays under the limit, in the storages that calls lead to.
use cavern_lsd_wrapper.Base.{
  ℕ, ◌+◌, ◌-◌, ◌*◌, ◌/◌, ◌<◌, ◌≤◌, ◌≡◌, String, Option, some, List, [], map, ok, Bool, not, ltb,
  std, generic_err, ContractError, ContractResult, ◌>>=◌, ◌>>◌, ensure, inl, inr, ◌⊎◌, arith,
  bind_succeeded, ensure_succeeded,
}
use cavern_lsd_wrapper.Base.Floor.{div-mul-le}
use native.Mathlib.Nat.{mul-le-mul_right}
use cavern_lsd_wrapper.Std.{Addr, CosmosMsg, Env, seconds_of, MessageInfo, Response, sub_msg}
use cavern_lsd_wrapper.Std.Decimals.{Decimals, Documented}
use cavern_lsd_wrapper.Basset.Wrapper
use cavern_lsd_wrapper.Basset.Wrapper.{AccruedRewardsLimited}
use cavern_lsd_wrapper.Deployment.{Deployment}
use cavern_lsd_wrapper.Token.Decompound.{no_rewards_message}
use cavern_lsd_wrapper.Limited.Store.{Store, WrapperState, DecompoundState}
use cavern_lsd_wrapper.Limited.Querier.{get_current_exchange_rate}
use cavern_lsd_wrapper.Limited.Rewards.{
  unlimited_rewards, limit_rewards, set_aside_one, report, rewards_of, compute_accrued_rewards,
}
use cavern_lsd_wrapper.Limited.Contract.{execute}
use cavern_lsd_wrapper.Limited.Limit.{allowed_after, limit_rewards_ok, max_rate_at_ok, total}
use cavern_lsd_wrapper.Limited.Payout.{set_aside_one_less, report_same}
use cavern_lsd_wrapper.Limited.Sends.{decompound_sends}
use cavern_lsd_wrapper.Limited.Reach.{Reachable, Reachable-Accounted}

module _ {I T S : Type 0} (p : Deployment I T S) (cap : ℕ) (doc : Documented p.host.decimals cap)
    (s : Store T S) (env : Env) (m : ℕ) (d : DecompoundState)
    (limited : s.decompound_config ≡ some (record { max_decompound_ratio = some m }))
    (recorded : s.decompound_state ≡ some d) where
  -- The ratio that the limit leaves.
  abbrev left : ℕ
  left = allowed_after p.host.one m (total p cap doc env m d) - d.ratio_sum

  rewards_of-left :
      (state : WrapperState) (rewards : AccruedRewardsLimited)
      → rewards_of p s env state ≡ ok rewards
      → 0 < rewards.lsd_rewards
      → (rewards.lsd_rewards + 1) * p.host.one ≤ left * state.lsd_balance
  unfolding rewards_of
  rewards_of-left state rewards h more =
      let aside : ℕ × ℕ → ContractResult AccruedRewardsLimited =
        λ l. set_aside_one p state l >>= λ k. report p k.0 k.1 state.backing_luna in
      let (l0, e0, h1) =
        bind_succeeded (unlimited_rewards p state) (λ l. limit_rewards p s env state l >>= aside)
          h in
      let (l1, e1, h2) = bind_succeeded (limit_rewards p s env state l0) aside h1 in
      let (l2, e2, h3) =
        bind_succeeded (set_aside_one p state l1) (λ k. report p k.0 k.1 state.backing_luna) h2 in
      let (r, er, _, few) =
        limit_rewards_ok p cap doc env m d s state l0.0 l0.1 l1.0 l1.1 limited recorded e1 in
      let (_, r_eq) = max_rate_at_ok p cap doc env m d er in
      let less : l2.1 ≡ l1.1 - 1 = set_aside_one_less p cap doc state l1.0 l1.1 l2.0 l2.1 e2 in
      let same : rewards.lsd_rewards ≡ l2.1 =
        report_same p cap doc l2.0 l2.1 state.backing_luna rewards h3 in
      let whole : r * state.lsd_balance / p.host.one * p.host.one ≤ r * state.lsd_balance =
        div-mul-le (r * state.lsd_balance) p.host.one in
      let under : rewards.lsd_rewards + 1 ≤ r * state.lsd_balance / p.host.one = omega arith in
      rw (← r_eq) (omega (arith, mul-le-mul_right p.host.one under))

  module _ (cfg : T) (held : ℕ) (has_config : s.lsd_config ≡ some cfg)
      (holds : p.hub.get_balance cfg p.host env env.contract ≡ ok held) where
    balance_held :
        (x : ℕ) (state : WrapperState)
        → get_current_exchange_rate p s env ≡ ok (x, state)
        → state.lsd_balance ≡ held
    unfolding get_current_exchange_rate
    balance_held x state h = ground arith

    rewards-left :
        (rewards : AccruedRewardsLimited)
        → compute_accrued_rewards p s env ≡ ok rewards
        → 0 < rewards.lsd_rewards
        → (rewards.lsd_rewards + 1) * p.host.one ≤ left * held
    unfolding compute_accrued_rewards
    rewards-left rewards h more =
        let above : ℕ × WrapperState → Bool = λ x. not (ltb x.0 p.host.one) in
        let below_one : ContractError = std (generic_err no_rewards_message) in
        let (x, e, h1) =
          bind_succeeded (get_current_exchange_rate p s env)
            (λ x. ensure (above x) below_one >> rewards_of p s env x.1) h in
        let h2 = (ensure_succeeded (above x) below_one (rewards_of p s env x.1) h1).1 in
        let bound = rewards_of-left x.1 rewards h2 more in rw (← balance_held x.0 x.1 e) bound

module _ {I T S : Type 0} (d : Decimals) (cap : ℕ) (doc : Documented d cap) (m start : ℕ)
    (s : Store T S) (taken : ℕ) (reached : Reachable I d m start s taken) (p : Deployment I T S)
    (same : p.host.decimals ≡ d) (env : Env) (cfg : T) (held : ℕ)
    (has_config : s.lsd_config ≡ some cfg)
    (holds : p.hub.get_balance cfg p.host env env.contract ≡ ok held) where
  -- A decompounding of the wrapper with a limit that succeeds, after a deployment and successful
  -- calls that have taken out the ratio `taken`, sends nothing or pays the wrapped token once. What
  -- it pays, and one unit more, is at most the part of the holdings that the limit leaves: the
  -- configured ratio per year for the seconds since the deployment, less what has been taken out.
  pub reachable_decompound-limited :
      (info : MessageInfo) (recipient : Option String) (s' : Store T S) (r : Response)
      → execute p s env info (Wrapper.ExecuteMsg.decompound recipient) ≡ ok (s', r)
      → (r.messages ≡ [])
        ⊎ ((n : ℕ) × (to : Addr) × (ms : List CosmosMsg) × (p.hub.send_funds cfg p.host env n to
              ≡ ok ms)
            × (r.messages ≡ map sub_msg ms)
            × ((n + 1) * d.one
                ≤ (allowed_after d.one m (seconds_of env.nanos - start) - taken) * held))
  unfolding execute
  reachable_decompound-limited info recipient s' r h =
      let doc' : Documented p.host.decimals cap = rw same doc in
      let a = Reachable-Accounted d cap doc m start s taken reached in
      let (_, sends) = decompound_sends p s env cfg has_config info recipient s' r h in
      elim sends [
        | inl silent ↦ inl silent
        | inr (rewards, to, ms, computed, more, sent, carried) ↦
            let bound =
              rewards-left p cap doc' s env m a.record_of a.limited a.recorded cfg held has_config
                holds rewards computed more in
            let covered = a.covered in
            let length : total p cap doc' env m a.record_of ≡ seconds_of env.nanos - start =
              omega arith in
            inr (rewards.lsd_rewards, to, ms, sent, carried, rw (← same, ← length, ← a.sum) bound)
      ]
