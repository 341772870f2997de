-- ===== src/Tests/Swap.antt =====
-- A price that is too old, and a swap of the reward contract that holds coins of two denominations and a token, on a chain whose
-- second router quotes the most.
use cavern_lsd_wrapper.Base.{
  ◌≡◌, ◌↔◌, ◌≤◌, ◌+◌, refl, none, some, [], ◌∷◌, ok, if◌then◌else◌, ◌==◌, string_eq,
}
use cavern_lsd_wrapper.Base.Each.{Each}
use cavern_lsd_wrapper.Std.{Response, SubMsg}
use cavern_lsd_wrapper.Basset.Reward
use cavern_lsd_wrapper.Host.{Host}
use cavern_lsd_wrapper.Reward.Store
use cavern_lsd_wrapper.Reward.Contract.{execute}
use cavern_lsd_wrapper.Reward.Querier.{query_all_cw20_balances}
use cavern_lsd_wrapper.Reward.Global.{execute_swap}
use cavern_lsd_wrapper.Reward.Swap.{create_swap_msgs, quotes, max_by_price, create_swap_message_for}
use cavern_lsd_wrapper.Reward.Swapped.{KeepsDenom, swap-KeepsDenom}
use cavern_lsd_wrapper.LsdHub.Coin.{TimeConstraints, query_price}
use cavern_lsd_wrapper.LsdHub.Price.{query_price-accepts}
use cavern_lsd_wrapper.Tests.World.{one, host, env, info}
use cavern_lsd_wrapper.Tests.Coins.{coin_host}

abbrev pub configured : Store.Config
configured = record {
  owner = "owner";
  hub_contract = "hub";
  custody_contract = some "custody";
  reward_denom = "uusd";
  known_cw20_tokens = "lp" ∷ [];
}

abbrev pub routers : Store.SwapConfig
routers = record { astroport_addr = "astro"; phoenix_addr = "phoenix"; terraswap_addr = "terra" }

abbrev pub reward_store : Store.Store
reward_store = record {
  state = none;
  config = some configured;
  swap_config = some routers;
  holders = [];
}

abbrev pub quoting : Host
quoting = record (host one 5) {
  smart_simulation = λ a q. ok (record { amount = if a == "phoenix" then 7 else 3 });
  query_all_balances =
      λ a. ok (record { denom = "uluna"; amount = 9 } ∷ record { denom = "uusd"; amount = 4 } ∷ []);
}

swapped :
    (r : Response) × (execute quoting reward_store env
        (info "hub")
        Reward.ExecuteMsg.swap_to_reward_denom
      ≡ ok (reward_store, r))
unfolding execute execute_swap create_swap_msgs quotes max_by_price create_swap_message_for
    query_all_cw20_balances
swapped = (_, refl)

swap-KeepsDenom_example :
    ((info "hub").sender ≡ configured.hub_contract)
    × (reward_store ≡ reward_store)
    × Each (λ (m : SubMsg). KeepsDenom "uusd" m.msg) swapped.0.messages
swap-KeepsDenom_example =
    swap-KeepsDenom quoting reward_store reward_store env (info "hub") configured swapped.0 refl
      swapped.1

abbrev constraints : TimeConstraints
constraints = record { block_time = 100; valid_timeframe = 60 }

query_price-accepts_example :
    (query_price (coin_host one 0) "oracle" "stuluna" "uluna" (some constraints)
      ≡ ok (record { rate = one; last_updated_base = 0; last_updated_quote = 0 }))
    ↔ ((60 ≤ 100) × (100 ≤ 0 + 60) × (100 ≤ 0 + 60))
query_price-accepts_example =
    query_price-accepts (coin_host one 0) "oracle" "stuluna" "uluna" constraints "a message"
      (record { rate = one; last_updated_base = 0; last_updated_quote = 0 }) refl refl
