-- ===== src/Limited/Rewards.antt =====
-- packages/cavern_lsd_wrapper_token_with_limit/src/contract.rs: `compute_accrued_rewards`.
use cavern_lsd_wrapper.Base.{
  none, some, ltb, min, not, if◌then◌else◌, ok, generic_err, std, ensure, from_std, or_panic, ok_or,
  load, ContractResult, ◌>>=◌, ◌>>◌,
}
use cavern_lsd_wrapper.Std.{Uint128, Decimal, Env, seconds_of}
use cavern_lsd_wrapper.Basset.Wrapper.{AccruedRewardsLimited}
use cavern_lsd_wrapper.Deployment.{Deployment}
use cavern_lsd_wrapper.Limited.Store.{Store, WrapperState, DecompoundState}
use cavern_lsd_wrapper.Limited.Querier.{
  get_current_exchange_rate, seconds_per_year, add_u64, sub_u64,
}
use cavern_lsd_wrapper.Token.Decompound.{no_rewards_message}

module _ {I T S : Type 0} (p : Deployment I T S) where
  -- The rewards before any limit: what the wrapper holds beyond the supply, in whole units of the
  -- underlying token and of the wrapped one.
  unfoldable pub unlimited_rewards : WrapperState → ContractResult (Uint128 × Uint128)
  unlimited_rewards state = do
    backing ← or_panic (p.host.mul_uint state.backing_luna 1)
    luna_rewards ← or_panic (p.host.uint_sub backing state.wlsd_supply)
    held ← or_panic (p.host.from_ratio state.lsd_balance 1)
    supply ← or_panic (p.host.from_ratio state.wlsd_supply 1)
    needed ← or_panic (p.host.div supply state.lsd_exchange_rate)
    spare ← or_panic (p.host.checked_sub held needed)
    rewards_to_decompound ← or_panic (p.host.mul_uint spare 1)
    ok (luna_rewards, rewards_to_decompound)

  -- The ratio that may still be taken out at the time of `env`.
  unfoldable pub max_rate_at : Env → Decimal → DecompoundState → ContractResult Decimal
  max_rate_at env max_decompound_ratio state = do
    until_now ← add_u64 state.total_seconds (seconds_of env.nanos)
    total_period ← sub_u64 until_now (seconds_of state.last_decompound)
    years ← or_panic (p.host.from_ratio total_period seconds_per_year)
    allowed ← or_panic (p.host.mul max_decompound_ratio years)
    ok_or (p.host.checked_sub allowed state.ratio_sum)
        (std (generic_err "Error substracting the total ratio to the current max_decompound ratio"))

  -- Both rewards under the limit, if there is one.
  unfoldable pub limit_rewards :
      Store T S → Env → WrapperState → Uint128 × Uint128 → ContractResult (Uint128 × Uint128)
  unfolding max_rate_at
  limit_rewards s env state (luna_rewards, lsd_rewards) = do
    config ← from_std (load s.decompound_config)
    elim config.max_decompound_ratio [
      | none ↦ ok (luna_rewards, lsd_rewards)
      | some max_decompound_ratio ↦ do
        decompound_state ← from_std (load s.decompound_state)
        max_rate ← max_rate_at env max_decompound_ratio decompound_state
        max_luna ← or_panic (p.host.mul max_rate state.backing_luna)
        max_luna_floor ← or_panic (p.host.mul_uint max_luna 1)
        max_lsd ← or_panic (p.host.mul_uint max_rate state.lsd_balance)
        ok (min luna_rewards max_luna_floor, min lsd_rewards max_lsd)
    ]

  -- One wrapped token is left in the wrapper.
  unfoldable pub set_aside_one :
      WrapperState → Uint128 × Uint128 → ContractResult (Uint128 × Uint128)
  set_aside_one state (luna_rewards, rewards_to_decompound) =
      if ltb 0 rewards_to_decompound
      then (or_panic (p.host.uint_sub rewards_to_decompound 1) >>= λ lsd.
          or_panic (p.host.mul_uint state.lsd_exchange_rate 1) >>= λ one_lsd.
          or_panic (p.host.uint_sub luna_rewards one_lsd) >>= λ luna. ok (luna, lsd))
      else ok (luna_rewards, rewards_to_decompound)

  -- The rewards as they are returned, with the ratio of the backing that they are.
  abbrev pub report : Uint128 → Uint128 → Decimal → ContractResult AccruedRewardsLimited
  report luna_rewards rewards_to_decompound backing_luna = do
    luna ← or_panic (p.host.from_ratio luna_rewards 1)
    rate_decrease ← or_panic (p.host.div luna backing_luna)
    lsd_rewards ← or_panic (p.host.uint_mul rewards_to_decompound 1)
    ok (record {
      rate_decrease = rate_decrease;
      luna_rewards = luna_rewards;
      lsd_rewards = lsd_rewards;
    })

  -- The rewards, once the rate is known not to be below one.
  unfoldable pub rewards_of : Store T S → Env → WrapperState → ContractResult AccruedRewardsLimited
  rewards_of s env state = do
    unlimited ← unlimited_rewards state
    limited ← limit_rewards s env state unlimited
    rewards ← set_aside_one state limited
    report rewards.0 rewards.1 state.backing_luna

  unfoldable pub compute_accrued_rewards : Store T S → Env → ContractResult AccruedRewardsLimited
  compute_accrued_rewards s env = do
    rated ← get_current_exchange_rate p s env
    ensure (not (ltb rated.0 p.host.one)) (std (generic_err no_rewards_message))
    rewards_of s env rated.1
