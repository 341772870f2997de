-- ===== src/LsdHub/Spectrum.antt =====
-- contracts/spectrum-wrapper/src/lib.rs: a wrapped cToken of Spectrum, whose rate is the ratio of
-- the bonded amount to the bonded shares.
use cavern_lsd_wrapper.Base.{String, List, [], ◌∷◌, ok, or_panic, StdResult, ◌>>=◌}
use cavern_lsd_wrapper.Std.{Uint128, Decimal, Addr, CosmosMsg, wasm_execute, Env, MessageInfo}
use cavern_lsd_wrapper.Basset.External
use cavern_lsd_wrapper.Basset.Payload.{
  spectrum_query, cw20_balance, cw20_transfer, cw20_transfer_from,
}
use cavern_lsd_wrapper.Host.{Host}
use cavern_lsd_wrapper.LsdHub.Trait.{LsdHub}

pub record Contracts : Type 0 where
  pub token : Addr
  pub underlying_token : Addr
  pub generator : Addr

pub record ContractsRaw : Type 0 where
  pub token : String
  pub generator : String
  pub underlying_token : String

pub record SpectrumHub : Type 0 where
  pub contracts : Contracts

unfoldable pub query_total_bond_share : Host → Contracts → StdResult Uint128
query_total_bond_share h c = do
  query ← h.to_binary (spectrum_query External.SpectrumQueryMsg.state)
  c_token_state ← h.smart_ctoken_state c.token query
  ok c_token_state.total_bond_share

unfoldable pub query_total_bond_amount : Host → Contracts → StdResult Uint128
query_total_bond_amount h c = do
  query ←
      h.to_binary (spectrum_query (External.SpectrumQueryMsg.user_info c.token c.underlying_token))
  user_info ← h.smart_user_info c.generator query
  ok user_info.bond_amount

unfoldable pub instantiate_config : Host → ContractsRaw → StdResult SpectrumHub
instantiate_config h config = do
  generator ← h.addr_validate config.generator
  token ← h.addr_validate config.token
  underlying_token ← h.addr_validate config.underlying_token
  ok (record {
    contracts = record {
      token = token;
      underlying_token = underlying_token;
      generator = generator;
    };
  })

unfoldable pub query_exchange_rate : SpectrumHub → Host → Env → StdResult Decimal
unfolding query_total_bond_share query_total_bond_amount
query_exchange_rate c h env = do
  total_bond_share ← query_total_bond_share h c.contracts
  total_bond_amount ← query_total_bond_amount h c.contracts
  or_panic (h.from_ratio total_bond_amount total_bond_share)

unfoldable pub get_balance : SpectrumHub → Host → Env → Addr → StdResult Uint128
get_balance c h env address = do
  query ← h.to_binary (cw20_balance address)
  h.smart_cw20_balance c.contracts.token query

unfoldable pub deposit_funds :
    SpectrumHub → Host → Env → MessageInfo → Uint128 → Addr → StdResult (List CosmosMsg)
deposit_funds c h env info amount from = do
  msg ← h.to_binary (cw20_transfer_from from env.contract amount)
  ok (wasm_execute c.contracts.token msg [] ∷ [])

unfoldable pub send_funds : SpectrumHub → Host → Env → Uint128 → Addr → StdResult (List CosmosMsg)
send_funds c h env amount to = do
  msg ← h.to_binary (cw20_transfer to amount)
  ok (wasm_execute c.contracts.token msg [] ∷ [])

abbrev pub spectrum_hub : LsdHub ContractsRaw SpectrumHub
spectrum_hub = record {
  instantiate_config = instantiate_config;
  query_exchange_rate = query_exchange_rate;
  get_balance = get_balance;
  deposit_funds = deposit_funds;
  send_funds = send_funds;
}
