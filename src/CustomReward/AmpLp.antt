-- ===== src/CustomReward/AmpLp.antt =====
-- contracts/cavern_aAsset_amp_lp_reward/src/lib.rs: the amp[LP] tokens are unbonded, and the
-- liquidity is withdrawn from the pair.
use cavern_lsd_wrapper.Base.{
  String, Option, none, List, [], ◌∷◌, ◌==◌, nat_eq, if◌then◌else◌, ok, or_panic, StdResult, ◌>>=◌,
}
use cavern_lsd_wrapper.Std.{Uint128, Addr, CosmosMsg, wasm_execute, Env}
use cavern_lsd_wrapper.Basset.ErisLp
use cavern_lsd_wrapper.Basset.ErisLp.{StateResponse}
use cavern_lsd_wrapper.Basset.Payload.{
  cw20_balance, cw20_send, eris_hook, eris_query, pair_query, withdraw_liquidity,
}
use cavern_lsd_wrapper.Host.{Host}
use cavern_lsd_wrapper.CustomReward.Trait.{ExecuteWithSwapReply}
use cavern_lsd_wrapper.CustomReward.Store.{read_retrieve_config}

pub record RetrieveConfigRaw : Type 0 where
  pub amp_lp_token : String
  pub hub : String
  pub pair : String

pub record RetrieveConfig : Type 0 where
  pub amp_lp_token : Addr
  pub hub : Addr
  pub pair : Addr

-- The liquidity tokens that unbonding `amount` gives.
unfoldable pub bond_amount : Host → StateResponse → Uint128 → StdResult Uint128
bond_amount h state amount =
    if state.total_amp_lp == 0
    then ok 0
    else or_panic (h.multiply_ratio state.total_lp amount state.total_amp_lp)

unfoldable pub get_retrieve_messages :
    Host → Option RetrieveConfig → Env → StdResult (List CosmosMsg)
unfolding bond_amount
get_retrieve_messages h stored env = do
  config ← read_retrieve_config stored
  balance_query ← h.to_binary (cw20_balance env.contract)
  amp_lp_balance ← h.smart_cw20_balance config.amp_lp_token balance_query
  if amp_lp_balance == 0
      then ok []
      else (h.to_binary (eris_hook (ErisLp.Cw20HookMsg.unbond none)) >>= λ hook.
          h.to_binary (cw20_send config.hub amp_lp_balance hook) >>= λ unbond.
          h.to_binary pair_query >>= λ pair_info_query.
          h.smart_liquidity_token config.pair pair_info_query >>= λ liquidity_token.
          h.to_binary (cw20_balance env.contract) >>= λ lp_query.
          h.smart_cw20_balance liquidity_token lp_query >>= λ astro_lp_balance.
          h.to_binary (eris_query (ErisLp.QueryMsg.state none)) >>= λ state_query.
          h.smart_eris_state config.hub state_query >>= λ state.
          bond_amount h state amp_lp_balance >>= λ bonded.
          or_panic (h.uint_add bonded astro_lp_balance) >>= λ amount.
          if amount == 0
          then ok []
          else (h.to_binary withdraw_liquidity >>= λ withdraw.
              h.to_binary (cw20_send config.pair amount withdraw) >>= λ send. ok (
                wasm_execute config.amp_lp_token unbond []
                ∷ wasm_execute liquidity_token send []
                ∷ [])))

unfoldable pub validate_retrieve_config : Host → RetrieveConfigRaw → StdResult RetrieveConfig
validate_retrieve_config h config = do
  pair ← h.addr_validate config.pair
  amp_lp_token ← h.addr_validate config.amp_lp_token
  hub ← h.addr_validate config.hub
  ok (record { amp_lp_token = amp_lp_token; hub = hub; pair = pair })

abbrev pub amp_lp_retrieve : ExecuteWithSwapReply RetrieveConfigRaw RetrieveConfig
amp_lp_retrieve = record {
  get_retrieve_messages = get_retrieve_messages;
  validate_retrieve_config = validate_retrieve_config;
}
