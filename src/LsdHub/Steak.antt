-- ===== src/LsdHub/Steak.antt =====
-- packages/wrapper_implementations/src/steak.rs: a wrapped cw20 staking token, whose hub reports
-- the rate. `T` is the type of the hub's reply, with its trait, and `query_state` reads it.
use cavern_lsd_wrapper.Base.{String, List, [], ◌∷◌, ok, StdResult, ◌>>=◌}
use cavern_lsd_wrapper.Std.{
  Uint128, Decimal, Addr, Binary, CosmosMsg, wasm_execute, Coin, Env, MessageInfo,
}
use cavern_lsd_wrapper.Basset.External.{LsdStateResponseTrait, LsdQueryMsg}
use cavern_lsd_wrapper.Basset.Payload.{lsd_query, cw20_balance, cw20_transfer, cw20_transfer_from}
use cavern_lsd_wrapper.Host.{Host}
use cavern_lsd_wrapper.LsdHub.Trait.{LsdHub}

pub record LsdContracts : Type 0 where
  pub hub : Addr
  pub token : Addr

pub record LsdContractsRaw : Type 0 where
  pub hub : String
  pub token : String

-- The source declares it, and no code reads it.
pub record SteakLsdHubMessage : Type 0 where
  pub lsd_contracts : LsdContracts

-- `SteakLSDHub`; its field `types` holds no data.
pub record SteakLsdHub : Type 0 where
  pub lsd_contracts : LsdContracts

unfoldable pub instantiate_config : Host → LsdContractsRaw → StdResult SteakLsdHub
instantiate_config h config = do
  hub ← h.addr_validate config.hub
  token ← h.addr_validate config.token
  ok (record { lsd_contracts = record { hub = hub; token = token } })

unfoldable pub get_balance : SteakLsdHub → Host → Env → Addr → StdResult Uint128
get_balance c h env address = do
  query ← h.to_binary (cw20_balance address)
  h.smart_cw20_balance c.lsd_contracts.token query

unfoldable pub deposit_funds :
    SteakLsdHub → Host → Env → MessageInfo → Uint128 → Addr → StdResult (List CosmosMsg)
deposit_funds c h env info amount from = do
  msg ← h.to_binary (cw20_transfer_from from env.contract amount)
  ok (wasm_execute c.lsd_contracts.token msg [] ∷ [])

unfoldable pub send_funds : SteakLsdHub → Host → Env → Uint128 → Addr → StdResult (List CosmosMsg)
send_funds c h env amount to = do
  msg ← h.to_binary (cw20_transfer to amount)
  ok (wasm_execute c.lsd_contracts.token msg [] ∷ [])

module _ {T : Type 0} (query_state : String → Binary → StdResult T) where
  unfoldable pub query_lsd_state : Host → LsdContracts → StdResult T
  query_lsd_state h c =
      h.to_binary (lsd_query LsdQueryMsg.state) >>= λ query. query_state c.hub query

  module _ (t : LsdStateResponseTrait T) where
    unfoldable pub query_exchange_rate : SteakLsdHub → Host → Env → StdResult Decimal
    unfolding query_lsd_state
    query_exchange_rate c h env =
        query_lsd_state h c.lsd_contracts >>= λ lsd_state. ok (t.exchange_rate lsd_state)

    abbrev pub steak_hub : LsdHub LsdContractsRaw SteakLsdHub
    steak_hub = record {
      instantiate_config = instantiate_config;
      query_exchange_rate = query_exchange_rate;
      get_balance = get_balance;
      deposit_funds = deposit_funds;
      send_funds = send_funds;
    }

-- contracts/ampLuna-wrapper/src/lib.rs
pub record AmpLunaStateResponse : Type 0 where
  pub total_ustake : Uint128
  pub total_uluna : Uint128
  pub exchange_rate : Decimal
  pub unlocked_coins : List Coin
  pub unbonding : Uint128
  pub available : Uint128
  pub tvl_uluna : Uint128

abbrev pub amp_luna_state : LsdStateResponseTrait AmpLunaStateResponse
amp_luna_state = record { exchange_rate = λ s. s.exchange_rate }

-- contracts/bLuna-wrapper/src/lib.rs
pub record BLunaStateResponse : Type 0 where
  pub total_usteak : Uint128
  pub total_native : Uint128
  pub exchange_rate : Decimal
  pub unlocked_coins : List Coin

abbrev pub b_luna_state : LsdStateResponseTrait BLunaStateResponse
b_luna_state = record { exchange_rate = λ s. s.exchange_rate }
