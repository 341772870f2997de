-- ===== src/Reward/Querier.antt =====
-- contracts/cavern-lsd-reward/src/querier.rs (and the same file of
-- packages/cavern_aAsset_custom_reward).
use cavern_lsd_wrapper.Base.{List, ok, unwrap_or, map_outcome, StdResult, ◌>>=◌}
use cavern_lsd_wrapper.Std.{Uint128, Addr}
use cavern_lsd_wrapper.Basset.DexRouter.{token}
use cavern_lsd_wrapper.Basset.Payload.{cw20_balance}
use cavern_lsd_wrapper.Host.{Host}
use cavern_lsd_wrapper.Reward.Swap.{Asset}

module _ (h : Host) where
  -- A failed query counts as no balance. `Uint256` holds every `Uint128`.
  unfoldable pub query_token_balance : Addr → Addr → StdResult Uint128
  query_token_balance contract_addr account_addr =
      h.to_binary (cw20_balance account_addr) >>= λ query.
      unwrap_or (h.smart_cw20_balance contract_addr query) 0

  unfoldable pub token_asset : Addr → Addr → StdResult Asset
  unfolding query_token_balance
  token_asset contract_addr address =
      unwrap_or (query_token_balance address contract_addr) 0 >>= λ amount.
      ok (record { amount = amount; asset_info = token address })

  unfoldable pub query_all_cw20_balances : Addr → List Addr → StdResult (List Asset)
  unfolding token_asset map_outcome
  query_all_cw20_balances contract_addr tokens = map_outcome (token_asset contract_addr) tokens
