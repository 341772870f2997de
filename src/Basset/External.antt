-- ===== src/Basset/External.antt =====
-- packages/basset/src/external.rs: the messages of the staking hubs and of Spectrum.
use cavern_lsd_wrapper.Base.{ℕ, String, List}
use cavern_lsd_wrapper.Std.{Uint128, Decimal, Coin}

pub data LsdQueryMsg : Type 0 where
  state : LsdQueryMsg

pub record LsdStateResponse : Type 0 where
  pub total_usteak : Uint128
  pub total_uluna : Uint128
  pub exchange_rate : Decimal
  pub unlocked_coins : List Coin

-- The trait, over the type of a hub's reply.
pub record LsdStateResponseTrait (T : Type 0) : Type 0 where
  pub exchange_rate : T → Decimal

abbrev pub steak_state : LsdStateResponseTrait LsdStateResponse
steak_state = record { exchange_rate = λ s. s.exchange_rate }

pub data SpectrumExecuteMsg : Type 0 where
  unbond : Uint128 → SpectrumExecuteMsg

pub data SpectrumQueryMsg : Type 0 where
  state : SpectrumQueryMsg
  user_info : String → String → SpectrumQueryMsg
  reward_info : String → SpectrumQueryMsg

pub record CTokenStateResponse : Type 0 where
  pub total_bond_share : Uint128

pub record UserInfoResponse : Type 0 where
  pub bond_share : Uint128
  pub bond_amount : Uint128
  pub reward_indexes : List (String × Decimal)
  pub pending_rewards : List (String × Decimal)

pub record RewardInfoResponseItem : Type 0 where
  pub staking_token : String
  pub bond_amount : Uint128
  pub bond_share : Uint128
  pub deposit_amount : Uint128
  pub deposit_time : ℕ
  pub deposit_costs : List Uint128

pub record RewardInfoResponse : Type 0 where
  pub staker_addr : String
  pub reward_info : RewardInfoResponseItem
