-- ===== src/Host.antt =====
-- What a contract call is given from outside: the arithmetic of `cosmwasm_std`, address validation,
-- serialization, and the answers of the bank and of the other contracts at the time of the call.
use cavern_lsd_wrapper.Base.{ℕ, String, List, StdResult, ContractError, Outcome}
use cavern_lsd_wrapper.Std.{Uint128, Decimal, Addr, Binary, Coin}
use cavern_lsd_wrapper.Std.Decimals.{Decimals}
use cavern_lsd_wrapper.Basset.Payload.{Payload}
use cavern_lsd_wrapper.Basset.Oracle.{PriceResponse}
use cavern_lsd_wrapper.Basset.DexRouter.{SimulateSwapOperationsResponse}
use cavern_lsd_wrapper.Basset.External.{CTokenStateResponse, UserInfoResponse, RewardInfoResponse}
use cavern_lsd_wrapper.Basset.ErisLp.{StateResponse}

pub record Host : Type 0 where
  pub decimals : Decimals
  pub open decimals use *
  -- `Uint128::try_from` on the atomics of a `Decimal256`, its `decimal_places`, and
  -- `Decimal::from_atomics` with the text of its error.
  pub try_into_uint128 : ℕ → StdResult Uint128
  pub decimal_places : ℕ
  pub from_atomics : Uint128 → ℕ → Outcome String Decimal
  pub uint_to_string : Uint128 → String
  pub coin_to_string : Coin → String
  -- The text that `{:?}` gives for a list of coins.
  pub coins_to_debug : List Coin → String
  -- The `Display` text of an error.
  pub error_to_string : ContractError → String
  pub addr_validate : String → StdResult Addr
  pub to_binary : Payload → StdResult Binary
  -- The bank: one balance, and all of an account.
  pub query_balance : String → String → StdResult Coin
  pub query_all_balances : Addr → StdResult (List Coin)
  -- Smart queries, by the type of the reply.
  pub smart_cw20_balance : String → Binary → StdResult Uint128
  pub smart_price : String → Binary → StdResult PriceResponse
  pub smart_simulation : String → Binary → StdResult SimulateSwapOperationsResponse
  pub smart_ctoken_state : String → Binary → StdResult CTokenStateResponse
  pub smart_user_info : String → Binary → StdResult UserInfoResponse
  pub smart_reward_info : String → Binary → StdResult RewardInfoResponse
  pub smart_eris_state : String → Binary → StdResult StateResponse
  -- The liquidity token of a pair's `PairInfo`.
  pub smart_liquidity_token : String → Binary → StdResult Addr
