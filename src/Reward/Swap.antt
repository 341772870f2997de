-- ===== src/Reward/Swap.antt =====
-- contracts/cavern-lsd-reward/src/swap.rs (and the same file of
-- packages/cavern_aAsset_custom_reward): the choice of the router with the best simulated price.
use cavern_lsd_wrapper.Base.{
  ℕ, zero, suc, String, Option, none, some, List, [], ◌∷◌, ◌==◌, nat_eq, leb, if◌then◌else◌, ok,
  err, panic, or_panic, load, StdResult, ◌>>=◌, ◌+◌,
}
use cavern_lsd_wrapper.Std.{Uint128, Addr, CosmosMsg, wasm_execute, Coin}
use cavern_lsd_wrapper.Basset.DexRouter.{
  AssetInfo, token, native_token, SwapOperation, astro_swap, token_swap, terra_swap,
  SwapMessageType, astroport, phoenix, terra_swap_router, swap_message_types,
  execute_swap_operations, simulate_swap_operations,
}
use cavern_lsd_wrapper.Basset.Payload.{Payload, cw20_send, router_execute, router_query}
use cavern_lsd_wrapper.Host.{Host}
use cavern_lsd_wrapper.Reward.Store.{SwapConfig}

pub record Asset : Type 0 where
  pub amount : Uint128
  pub asset_info : AssetInfo

abbrev pub get_astroport_swap_operation : AssetInfo → AssetInfo → SwapMessageType → SwapOperation
get_astroport_swap_operation offer ask astroport = astro_swap offer ask
get_astroport_swap_operation offer ask phoenix = token_swap offer ask
get_astroport_swap_operation offer ask terra_swap_router = terra_swap offer ask

abbrev pub router_address : SwapConfig → SwapMessageType → Addr
router_address c astroport = c.astroport_addr
router_address c phoenix = c.phoenix_addr
router_address c terra_swap_router = c.terraswap_addr

unfoldable pub get_contract_address : Option SwapConfig → SwapMessageType → StdResult Addr
get_contract_address stored message_type =
    load stored >>= λ swap_config. ok (router_address swap_config message_type)

-- `nth` on the iterator, and `max_by_key`, which keeps the last of equal keys.
abbrev pub nth : List SwapMessageType → ℕ → Option SwapMessageType
nth [] i = none
nth (t ∷ ts) zero = some t
nth (t ∷ ts) (suc i) = nth ts i

abbrev pub later_max : ℕ × Uint128 → ℕ × Uint128 → ℕ × Uint128
later_max best next = if leb best.1 next.1 then next else best

unfoldable pub max_by_price_from : ℕ × Uint128 → List (ℕ × Uint128) → ℕ × Uint128
max_by_price_from best [] = best
max_by_price_from best (next ∷ rest) = max_by_price_from (later_max best next) rest

unfoldable pub max_by_price : List (ℕ × Uint128) → Option (ℕ × Uint128)
unfolding max_by_price_from
max_by_price [] = none
max_by_price (first ∷ rest) = some (max_by_price_from first rest)

module _ (h : Host) (stored : Option SwapConfig) where
  -- The message that the router executes, alone or inside a cw20 `Send`.
  abbrev pub swap_operations : AssetInfo → AssetInfo → SwapMessageType → Payload
  swap_operations offer ask message_type = router_execute (
      execute_swap_operations (get_astroport_swap_operation offer ask message_type ∷ []) none none
        none)

  unfoldable pub into_cosmos_msg : Payload → Addr → List Coin → StdResult CosmosMsg
  into_cosmos_msg message contract_addr funds =
      h.to_binary message >>= λ msg. ok (wasm_execute contract_addr msg funds)

  unfoldable pub create_swap_message_for : Asset → String → SwapMessageType → StdResult CosmosMsg
  unfolding get_contract_address into_cosmos_msg
  create_swap_message_for asset stable_denom message_type = do
    swap_contract_address ← get_contract_address stored message_type
    let stable_token = native_token stable_denom
    let operations = swap_operations asset.asset_info stable_token message_type
    elim asset.asset_info [
      | token contract_addr ↦ h.to_binary operations >>= λ inner.
          h.to_binary (cw20_send swap_contract_address asset.amount inner) >>= λ msg.
          ok (wasm_execute contract_addr msg [])
      | native_token denom ↦
          into_cosmos_msg operations swap_contract_address
            (record { denom = denom; amount = asset.amount } ∷ [])
    ]

  unfoldable pub get_swap_result_for : Asset → String → SwapMessageType → StdResult Uint128
  unfolding get_contract_address
  get_swap_result_for asset stable_denom message_type = do
    contract_address ← get_contract_address stored message_type
    query ← h.to_binary (
        router_query (
          simulate_swap_operations asset.amount (
            get_astroport_swap_operation asset.asset_info (native_token stable_denom) message_type
            ∷ [])))
    response ← h.smart_simulation contract_address query
    ok response.amount

  -- The prices that the routers quote, each with the router's index; a failed simulation is left
  -- out.
  unfoldable pub quotes : Asset → String → ℕ → List SwapMessageType → StdResult (List (ℕ × Uint128))
  unfolding get_swap_result_for
  quotes asset reward_denom i [] = ok []
  quotes asset reward_denom i (t ∷ ts) =
      let rest = quotes asset reward_denom (i + 1) ts in
      elim (get_swap_result_for asset reward_denom t) [
        | ok price ↦ rest >>= λ others. ok ((i, price) ∷ others)
        | err _ ↦ rest
        | panic ↦ panic
      ]

  unfoldable pub create_swap_msgs : Asset → String → StdResult (List CosmosMsg)
  create_swap_msgs asset reward_denom = do
    prices ← quotes asset reward_denom 0 swap_message_types
    elim (max_by_price prices) [
      | none ↦ ok []
      | some (best_price_index, best_price) ↦
          if best_price == 0
          then ok []
          else (or_panic (nth swap_message_types best_price_index) >>= λ marketplace.
              create_swap_message_for asset reward_denom marketplace >>= λ msg. ok (msg ∷ []))
    ]
