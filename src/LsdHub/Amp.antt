-- ===== src/LsdHub/Amp.antt =====
-- contracts/amp-lp-wrapper/src/lib.rs: a wrapped amp[LP] token of Eris, whose pool reports the rate.
use cavern_lsd_wrapper.Base.{String, none, List, [], ◌∷◌, ok, StdResult, ◌>>=◌}
use cavern_lsd_wrapper.Std.{Uint128, Decimal, Addr, CosmosMsg, wasm_execute, Env, MessageInfo}
use cavern_lsd_wrapper.Basset.ErisLp
use cavern_lsd_wrapper.Basset.Payload.{eris_query, cw20_balance, cw20_transfer, cw20_transfer_from}
use cavern_lsd_wrapper.Host.{Host}
use cavern_lsd_wrapper.LsdHub.Trait.{LsdHub}

pub record Contracts : Type 0 where
  pub token : Addr
  pub hub : Addr

pub record ContractsRaw : Type 0 where
  pub token : String
  pub hub : String

pub record AmphHub : Type 0 where
  pub contracts : Contracts

unfoldable pub instantiate_config : Host → ContractsRaw → StdResult AmphHub
instantiate_config h config = do
  hub ← h.addr_validate config.hub
  token ← h.addr_validate config.token
  ok (record { contracts = record { token = token; hub = hub } })

unfoldable pub query_exchange_rate : AmphHub → Host → Env → StdResult Decimal
query_exchange_rate c h env = do
  query ← h.to_binary (eris_query (ErisLp.QueryMsg.state none))
  amp_token_state ← h.smart_eris_state c.contracts.hub query
  ok amp_token_state.exchange_rate

unfoldable pub get_balance : AmphHub → Host → Env → Addr → StdResult Uint128
get_balance c h env address = do
  query ← h.to_binary (cw20_balance address)
  h.smart_cw20_balance c.contracts.token query

unfoldable pub deposit_funds :
    AmphHub → Host → Env → MessageInfo → Uint128 → Addr → StdResult (List CosmosMsg)
deposit_funds c h env info amount from = do
  msg ← h.to_binary (cw20_transfer_from from env.contract amount)
  ok (wasm_execute c.contracts.token msg [] ∷ [])

unfoldable pub send_funds : AmphHub → Host → Env → Uint128 → Addr → StdResult (List CosmosMsg)
send_funds c h env amount to = do
  msg ← h.to_binary (cw20_transfer to amount)
  ok (wasm_execute c.contracts.token msg [] ∷ [])

abbrev pub amp_hub : LsdHub ContractsRaw AmphHub
amp_hub = record {
  instantiate_config = instantiate_config;
  query_exchange_rate = query_exchange_rate;
  get_balance = get_balance;
  deposit_funds = deposit_funds;
  send_funds = send_funds;
}
