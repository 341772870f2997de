-- ===== src/Basset/Payload.antt =====
-- What the contracts hand to `to_binary`: messages and replies of their own, and the messages of
-- cw20 and of the pairs of Astroport that they build.
use cavern_lsd_wrapper.Base.{String}
use cavern_lsd_wrapper.Std.{Uint128, Binary}
use cavern_lsd_wrapper.Basset.Wrapper
use cavern_lsd_wrapper.Basset.Hub
use cavern_lsd_wrapper.Basset.Reward
use cavern_lsd_wrapper.Basset.DexRouter
use cavern_lsd_wrapper.Basset.Oracle
use cavern_lsd_wrapper.Basset.External
use cavern_lsd_wrapper.Basset.ErisLp
use cavern_lsd_wrapper.Reward.Store.{Config}

pub data Payload : Type 0 where
  cw20_transfer : String → Uint128 → Payload
  cw20_transfer_from : String → String → Uint128 → Payload
  cw20_send : String → Uint128 → Binary → Payload
  cw20_balance : String → Payload
  wrapper_execute : Wrapper.ExecuteMsg → Payload
  reward_execute : Reward.ExecuteMsg → Payload
  router_execute : DexRouter.ExecuteMsg → Payload
  router_query : DexRouter.QueryMsg → Payload
  oracle_query : Oracle.QueryMsg → Payload
  lsd_query : External.LsdQueryMsg → Payload
  spectrum_execute : External.SpectrumExecuteMsg → Payload
  spectrum_query : External.SpectrumQueryMsg → Payload
  eris_execute : ErisLp.ExecuteMsg → Payload
  eris_hook : ErisLp.Cw20HookMsg → Payload
  eris_query : ErisLp.QueryMsg → Payload
  pair_query : Payload
  withdraw_liquidity : Payload
  token_info_response : Wrapper.TokenInfoResponse → Payload
  token_info_response_with_limit : Wrapper.TokenInfoResponseWithLimit → Payload
  hub_config_response : Hub.ConfigResponse → Payload
  hub_state_response : Hub.StateResponse → Payload
  hub_parameters : Hub.Parameters → Payload
  reward_config : Config → Payload
  accrued_rewards_response : Reward.AccruedRewardsResponse → Payload
