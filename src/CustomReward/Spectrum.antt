-- ===== src/CustomReward/Spectrum.antt =====
-- contracts/cavern_aAsset_spectrum_reward/src/lib.rs: the bonded tokens of Spectrum are unbonded,
-- and the liquidity is withdrawn from the pair.
use cavern_lsd_wrapper.Base.{
  String, Option, List, [], ◌∷◌, ◌==◌, nat_eq, if◌then◌else◌, ok, StdResult, ◌>>=◌,
}
use cavern_lsd_wrapper.Std.{Addr, CosmosMsg, wasm_execute, Env}
use cavern_lsd_wrapper.Basset.External
use cavern_lsd_wrapper.Basset.Payload.{
  cw20_send, spectrum_execute, spectrum_query, pair_query, withdraw_liquidity,
}
use cavern_lsd_wrapper.Host.{Host}
use cavern_lsd_wrapper.CustomReward.Trait.{ExecuteWithSwapReply}
use cavern_lsd_wrapper.CustomReward.Store.{read_retrieve_config}

pub record RetrieveConfigRaw : Type 0 where
  pub spectrum_token : String
  pub pair : String

pub record RetrieveConfig : Type 0 where
  pub spectrum_token : Addr
  pub pair : Addr

unfoldable pub get_retrieve_messages :
    Host → Option RetrieveConfig → Env → StdResult (List CosmosMsg)
get_retrieve_messages h stored env = do
  config ← read_retrieve_config stored
  info_query ← h.to_binary (spectrum_query (External.SpectrumQueryMsg.reward_info env.contract))
  lp_amount ← h.smart_reward_info config.spectrum_token info_query
  if lp_amount.reward_info.bond_share == 0
      then ok []
      else (h.to_binary pair_query >>= λ pair_info_query.
          h.smart_liquidity_token config.pair pair_info_query >>= λ liquidity_token.
          h.to_binary (
            spectrum_execute (External.SpectrumExecuteMsg.unbond lp_amount.reward_info.bond_amount))
          >>= λ unbond. h.to_binary withdraw_liquidity >>= λ withdraw.
              h.to_binary (cw20_send config.pair lp_amount.reward_info.bond_amount withdraw)
              >>= λ send. ok (
                  wasm_execute config.spectrum_token unbond []
                  ∷ wasm_execute liquidity_token send []
                  ∷ []))

unfoldable pub validate_retrieve_config : Host → RetrieveConfigRaw → StdResult RetrieveConfig
validate_retrieve_config h config = do
  pair ← h.addr_validate config.pair
  spectrum_token ← h.addr_validate config.spectrum_token
  ok (record { spectrum_token = spectrum_token; pair = pair })

abbrev pub spectrum_retrieve : ExecuteWithSwapReply RetrieveConfigRaw RetrieveConfig
spectrum_retrieve = record {
  get_retrieve_messages = get_retrieve_messages;
  validate_retrieve_config = validate_retrieve_config;
}
