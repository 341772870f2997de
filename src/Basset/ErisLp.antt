-- ===== src/Basset/ErisLp.antt =====
-- packages/basset/src/eris_lp.rs: the messages of the Eris amp[LP] compounder.
use cavern_lsd_wrapper.Base.{ℕ, String, Bool, Option, List}
use cavern_lsd_wrapper.Std.{Uint128, Decimal, Addr, Opaque}

pub data CallbackMsg : Type 0 where
  stake : Uint128 → Option Uint128 → CallbackMsg
  bond_to : Addr → Uint128 → Option Uint128 → CallbackMsg

-- `receive` carries a message of the cw20 library, `bond_assets` assets of the Astroport library.
pub data ExecuteMsg : Type 0 where
  receive : Opaque → ExecuteMsg
  update_config :
      Option String → Option String → Option Decimal → Option String → Option ℕ → ExecuteMsg
  compound : Option Uint128 → Option Decimal → ExecuteMsg
  bond_assets :
      List Opaque → Option Uint128 → Option Bool → Option Decimal → Option String → ExecuteMsg
  propose_new_owner : String → ℕ → ExecuteMsg
  drop_ownership_proposal : ExecuteMsg
  claim_ownership : ExecuteMsg
  callback : CallbackMsg → ExecuteMsg

pub data Cw20HookMsg : Type 0 where
  bond : Option String → Cw20HookMsg
  unbond : Option String → Cw20HookMsg

-- Of these the contracts ask for the pool's state alone.
pub data QueryMsg : Type 0 where
  config : QueryMsg
  user_info : String → QueryMsg
  state : Option String → QueryMsg
  exchange_rates : Option ℕ → Option ℕ → QueryMsg

pub record UserInfoResponse : Type 0 where
  pub user_lp_amount : Uint128
  pub user_amp_lp_amount : Uint128
  pub total_lp : Uint128
  pub total_amp_lp : Uint128

pub record ConfigResponse : Type 0 where
  pub lp_token : Addr
  pub amp_lp_token : Addr
  pub owner : Addr
  pub staking_contract : Addr
  pub compound_proxy : Addr
  pub controller : Addr
  pub fee : Decimal
  pub fee_collector : Addr
  pub base_reward_token : Addr
  pub deposit_profit_delay_s : ℕ

pub record UserInfo : Type 0 where
  pub user_lp_amount : Uint128
  pub user_amp_lp_amount : Uint128

pub record StateResponse : Type 0 where
  pub total_lp : Uint128
  pub total_amp_lp : Uint128
  pub exchange_rate : Decimal
  pub pair_contract : Addr
  pub locked_assets : List Opaque
  pub user_info : Option UserInfo

pub record ExchangeRatesResponse : Type 0 where
  pub exchange_rates : List (ℕ × Decimal)
  pub apr : Option Decimal
