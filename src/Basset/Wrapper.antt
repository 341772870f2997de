-- ===== src/Basset/Wrapper.antt =====
-- packages/basset/src/wrapper.rs: the messages and replies of the wrapper tokens.
use cavern_lsd_wrapper.Base.{ℕ, String, Option, Bool, true, false}
use cavern_lsd_wrapper.Std.{Uint128, Decimal, Binary, Opaque}

pub data ExecuteMsg : Type 0 where
  transfer : String → Uint128 → ExecuteMsg
  burn : Uint128 → ExecuteMsg
  burn_all : ExecuteMsg
  send : String → Uint128 → Binary → ExecuteMsg
  increase_allowance : String → Uint128 → Option Opaque → ExecuteMsg
  decrease_allowance : String → Uint128 → Option Opaque → ExecuteMsg
  transfer_from : String → String → Uint128 → ExecuteMsg
  send_from : String → String → Uint128 → Binary → ExecuteMsg
  burn_from : String → Uint128 → ExecuteMsg
  mint : String → Uint128 → ExecuteMsg
  mint_with : String → Uint128 → ExecuteMsg
  update_minter : Option String → ExecuteMsg
  update_marketing : Option String → Option String → Option String → ExecuteMsg
  upload_logo : Opaque → ExecuteMsg
  decompound : Option String → ExecuteMsg

-- The message of the hub, and not of a holder.
abbrev pub is_decompound : ExecuteMsg → Bool
is_decompound (decompound _) = true
is_decompound _ = false

-- A message that destroys tokens for a payment.
abbrev pub is_burn : ExecuteMsg → Bool
is_burn (burn n) = true
is_burn burn_all = true
is_burn (burn_from owner n) = true
is_burn _ = false

pub record AccruedRewards : Type 0 where
  pub luna_rewards : Uint128
  pub lsd_rewards : Uint128

-- `AccruedRewards::default()`
abbrev pub no_rewards : AccruedRewards
no_rewards = record { luna_rewards = 0; lsd_rewards = 0 }

pub record AccruedRewardsLimited : Type 0 where
  pub rate_decrease : Decimal
  pub luna_rewards : Uint128
  pub lsd_rewards : Uint128

abbrev pub no_limited_rewards : AccruedRewardsLimited
no_limited_rewards = record { rate_decrease = 0; luna_rewards = 0; lsd_rewards = 0 }

pub record TokenInfoResponse : Type 0 where
  pub name : String
  pub symbol : String
  pub decimals : ℕ
  pub total_supply : Uint128
  pub exchange_rate : Decimal

pub record TokenInfoResponseWithLimit : Type 0 where
  pub name : String
  pub symbol : String
  pub decimals : ℕ
  pub total_supply : Uint128
  pub exchange_rate : Decimal
  pub expected_exchange_rate : Decimal
