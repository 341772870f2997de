-- ===== src/LsdHub/Trait.antt =====
-- packages/cavern_lsd_wrapper_token/src/trait_def.rs. `I` is the message that configures the
-- implementation, `T` its stored configuration, and `Deps` the host.
use cavern_lsd_wrapper.Base.{List, StdResult}
use cavern_lsd_wrapper.Std.{Uint128, Decimal, Addr, CosmosMsg, Env, MessageInfo}
use cavern_lsd_wrapper.Host.{Host}

pub record LsdHub (I T : Type 0) : Type 0 where
  pub instantiate_config : Host → I → StdResult T
  pub query_exchange_rate : T → Host → Env → StdResult Decimal
  pub get_balance : T → Host → Env → Addr → StdResult Uint128
  pub deposit_funds : T → Host → Env → MessageInfo → Uint128 → Addr → StdResult (List CosmosMsg)
  pub send_funds : T → Host → Env → Uint128 → Addr → StdResult (List CosmosMsg)
