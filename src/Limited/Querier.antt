-- ===== src/Limited/Querier.antt =====
-- packages/cavern_lsd_wrapper_token_with_limit/src/querier.rs
use cavern_lsd_wrapper.Base.{
  ℕ, ◌+◌, ◌-◌, ◌*◌, none, some, ltb, max, ◌==◌, nat_eq, ◌||◌, if◌then◌else◌, ok, panic, from_std,
  or_panic, load, option_or, Outcome, ContractResult, ◌>>=◌,
}
use cavern_lsd_wrapper.Std.{Decimal, Env, seconds_of}
use cavern_lsd_wrapper.Deployment.{Deployment}
use cavern_lsd_wrapper.Limited.Store.{Store, WrapperState, DecompoundState, read_lsd_config}

abbrev pub seconds_per_year : ℕ
seconds_per_year = 365 * 24 * 60 * 60

abbrev pub u64_limit : ℕ
u64_limit = 18446744073709551616

-- `u64` arithmetic with overflow checks.
abbrev pub add_u64 {ℓ} : {E : Type ℓ} → ℕ → ℕ → Outcome E ℕ
add_u64 a b = if ltb (a + b) u64_limit then ok (a + b) else panic

abbrev pub sub_u64 {ℓ} : {E : Type ℓ} → ℕ → ℕ → Outcome E ℕ
sub_u64 a b = if ltb a b then panic else ok (a - b)

module _ {I T S : Type 0} (p : Deployment I T S) where
  -- The rate, and what the code writes to its `&mut WrapperState`.
  unfoldable pub get_current_exchange_rate :
      Store T S → Env → ContractResult (Decimal × WrapperState)
  get_current_exchange_rate s env = do
    lsd_config ← from_std (read_lsd_config s)
    lsd_exchange_rate ← from_std (p.hub.query_exchange_rate lsd_config p.host env)
    balance ← from_std (p.hub.get_balance lsd_config p.host env env.contract)
    lsd_amount ← or_panic (p.host.from_ratio balance 1)
    luna_backing_token ← or_panic (p.host.mul lsd_amount lsd_exchange_rate)
    token_info ← from_std (p.cw20.query_token_info s.cw20)
    let state : WrapperState = record {
      lsd_exchange_rate = lsd_exchange_rate;
      wlsd_supply = token_info.total_supply;
      backing_luna = luna_backing_token;
      lsd_balance = balance;
    }
    if token_info.total_supply == 0
        then ok (p.host.one, state)
        else or_panic (p.host.div_uint luna_backing_token token_info.total_supply) >>= λ rate.
            ok (rate, state)

  -- The rate that the holders are owed at the time of `env`, where the decompounding is limited.
  unfoldable pub limited_rate : Env → Decimal → Decimal → DecompoundState → ContractResult Decimal
  limited_rate env exchange_rate max_decompound_ratio state = do
    since_last ← sub_u64 (seconds_of env.nanos) (seconds_of state.last_decompound)
    time_since_start ← add_u64 state.total_seconds since_last
    owed ← or_panic (p.host.add exchange_rate state.ratio_sum)
    years ← or_panic (p.host.from_ratio time_since_start seconds_per_year)
    allowed ← or_panic (p.host.mul max_decompound_ratio years)
    ok (max (option_or (p.host.checked_sub owed allowed) p.host.one) p.host.one)

  unfoldable pub get_expected_exchange_rate :
      Store T S → Env → ContractResult (Decimal × WrapperState)
  unfolding limited_rate
  get_expected_exchange_rate s env = do
    (exchange_rate, state) ← get_current_exchange_rate s env
    if ltb exchange_rate p.host.one
        then ok (exchange_rate, state)
        else from_std (load s.decompound_config) >>= λ config. elim config.max_decompound_ratio [
          | none ↦ ok (exchange_rate, state)
          | some ratio ↦ from_std (load s.decompound_state) >>= λ decompound_state.
              limited_rate env exchange_rate ratio decompound_state >>= λ rate. ok (rate, state)
        ]

  -- How many wrapper tokens one wrapped token is worth.
  unfoldable pub get_lsd_wrapper_exchange_rate : Store T S → Env → ContractResult Decimal
  get_lsd_wrapper_exchange_rate s env = do
    lsd_config ← from_std (read_lsd_config s)
    total_lsd_balance ← from_std (p.hub.get_balance lsd_config p.host env env.contract)
    token_info ← from_std (p.cw20.query_token_info s.cw20)
    if total_lsd_balance == 0 || token_info.total_supply == 0
        then ok p.host.one
        else or_panic (p.host.from_ratio token_info.total_supply total_lsd_balance)
