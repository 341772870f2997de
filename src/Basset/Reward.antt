-- ===== src/Basset/Reward.antt =====
-- packages/basset/src/reward.rs: the messages and replies of the reward contracts.
use cavern_lsd_wrapper.Base.{String, Option, List}
use cavern_lsd_wrapper.Std.{Uint128, Decimal}

pub record InstantiateMsg : Type 0 where
  pub hub_contract : String
  pub reward_denom : String
  pub astroport_addr : String
  pub phoenix_addr : String
  pub terraswap_addr : String
  pub known_tokens : List String

pub data ExecuteMsg : Type 0 where
  swap_to_reward_denom : ExecuteMsg
  update_config :
      Option String
      → Option String
      → Option (List String)
      → Option String
      → Option String
      → Option String
      → ExecuteMsg
  claim_rewards : Option String → ExecuteMsg

pub data QueryMsg : Type 0 where
  config : QueryMsg
  accrued_rewards : String → QueryMsg

pub record AccruedRewardsResponse : Type 0 where
  pub rewards : Uint128

pub record HolderResponse : Type 0 where
  pub address : String
  pub balance : Uint128
  pub index : Decimal
  pub pending_rewards : Decimal

pub record HoldersResponse : Type 0 where
  pub holders : List HolderResponse

-- `query` answers with the stored configuration, and not with this.
pub record ConfigResponse : Type 0 where
  pub hub_contract : String
  pub reward_denom : String

pub record MigrateMsg : Type 0 where
  pub max_decompound_ratio : Option Decimal
