-- ===== src/Reward/Global.antt =====
-- contracts/cavern-lsd-reward/src/global.rs: every balance but the reward denomination is swapped.
use cavern_lsd_wrapper.Base.{
  String, Option, List, [], ◌∷◌, ◌++◌, ◌==◌, nat_eq, string_eq, if◌then◌else◌, ok, generic_err,
  ensure, StdResult, ◌>>=◌, ◌>>◌,
}
use cavern_lsd_wrapper.Std.{
  Coin, CosmosMsg, Env, MessageInfo, Response, empty_response, add_messages, add_attributes,
}
use cavern_lsd_wrapper.Basset.DexRouter.{native_token}
use cavern_lsd_wrapper.Host.{Host}
use cavern_lsd_wrapper.Reward.Store.{Store, Config, SwapConfig, read_config}
use cavern_lsd_wrapper.Reward.Swap.{Asset, create_swap_msgs}
use cavern_lsd_wrapper.Reward.Querier.{query_all_cw20_balances}

-- The assets of the native balances other than the reward denomination.
unfoldable pub native_assets : String → List Coin → List Asset
native_assets reward_denom [] = []
native_assets reward_denom (coin ∷ coins) =
    let rest = native_assets reward_denom coins in
    if reward_denom == coin.denom
    then rest
    else record { amount = coin.amount; asset_info = native_token coin.denom } ∷ rest

-- The assets with a balance.
unfoldable pub nonzero_assets : List Asset → List Asset
nonzero_assets [] = []
nonzero_assets (a ∷ as') = let rest = nonzero_assets as' in if a.amount == 0 then rest else a ∷ rest

module _ (h : Host) where
  -- The messages of all swaps, in order; the first error ends the list.
  unfoldable pub swap_each : Option SwapConfig → String → List Asset → StdResult (List CosmosMsg)
  swap_each stored reward_denom [] = ok []
  swap_each stored reward_denom (a ∷ as') = create_swap_msgs h stored a reward_denom >>= λ first.
      swap_each stored reward_denom as' >>= λ rest. ok (first ++ rest)

  -- The body that both reward contracts share.
  unfoldable pub swap_balances : Option SwapConfig → Config → Env → StdResult Response
  unfolding native_assets nonzero_assets swap_each
  swap_balances stored config env = do
    balances ← h.query_all_balances env.contract
    native_swap_messages ←
        swap_each stored config.reward_denom (native_assets config.reward_denom balances)
    cw20_balances ← query_all_cw20_balances h env.contract config.known_cw20_tokens
    cw20_messages ← swap_each stored config.reward_denom (nonzero_assets cw20_balances)
    ok (
        add_attributes (("action", "swap") ∷ [])
          (add_messages cw20_messages (add_messages native_swap_messages empty_response)))

  unfoldable pub execute_swap : Store → Env → MessageInfo → StdResult Response
  unfolding swap_balances
  execute_swap s env info = do
    config ← read_config s
    ensure (info.sender == config.hub_contract) (generic_err "unauthorized")
    swap_balances s.swap_config config env
