-- ===== src/Tests/Rewards.antt =====
-- The reward contracts of the hub "hub", and deposits of a native coin.
use cavern_lsd_wrapper.Base.{
  ℕ, ◌≡◌, ◌↔◌, refl, some, none, [], ◌∷◌, ok, err, if◌then◌else◌, ◌==◌, string_eq, not_found,
}
use cavern_lsd_wrapper.Std.{CosmosMsg, bank_send, sub_msg, wasm_execute, MessageInfo}
use cavern_lsd_wrapper.Basset.Reward
use cavern_lsd_wrapper.LsdHub.Coin.{StrideLsdConfig, deposit_funds}
use cavern_lsd_wrapper.LsdHub.Deposit.{RightFunds, deposit_funds-accepts}
use cavern_lsd_wrapper.Reward.Store.{Config}
use cavern_lsd_wrapper.Reward.Store
use cavern_lsd_wrapper.Reward.Contract.{execute}
use cavern_lsd_wrapper.Host.{Host}
use cavern_lsd_wrapper.Basset.DexRouter.{native_token, terra_swap_router}
use cavern_lsd_wrapper.Reward.Swap.{
  Asset, get_swap_result_for, quotes, max_by_price, create_swap_message_for, create_swap_msgs,
}
use cavern_lsd_wrapper.Reward.Best.{SentToBest, swap-SentToBest}
use cavern_lsd_wrapper.Reward.Claims.{claim-pays}
use cavern_lsd_wrapper.CustomReward.Trait.{ExecuteWithSwapReply}
use cavern_lsd_wrapper.CustomReward.Store.{Store as CustomStore}
use cavern_lsd_wrapper.CustomReward.Contract.{execute as custom_execute}
use cavern_lsd_wrapper.CustomReward.Callback.{calling_back, swap-retrieves}
use cavern_lsd_wrapper.Limited.Store.{Store as LimitedStore}
use cavern_lsd_wrapper.LsdHub.Amp.{AmphHub}
use cavern_lsd_wrapper.Tests.World.{one, host, config, env, info}

abbrev reward_config : Config
reward_config = record {
  owner = "owner";
  hub_contract = "hub";
  custody_contract = some "custody";
  reward_denom = "uusd";
  known_cw20_tokens = [];
}

abbrev rewards_store : Store.Store
rewards_store = record {
  state = none;
  config = some reward_config;
  swap_config = none;
  holders = [];
}

claim-pays_example :
    execute
      (host one 7)
      rewards_store
      env
      (info "custody")
      (Reward.ExecuteMsg.claim_rewards (some "bob"))
    ≡ ok (
      rewards_store,
      record {
        messages = sub_msg (bank_send "bob" (record { denom = "uusd"; amount = 7 } ∷ [])) ∷ [];
        attributes = ("action", "claim_reward") ∷ ("rewards", "uusd") ∷ [];
      },
    )
claim-pays_example =
    claim-pays (host one 7) rewards_store env (info "custody") reward_config "custody" (some "bob")
      refl refl refl (record { denom = "uusd"; amount = 7 }) (some "bob") refl refl refl

abbrev unbond : CosmosMsg
unbond = wasm_execute "amp" "unbond" []

abbrev withdraw : CosmosMsg
withdraw = wasm_execute "lp" "withdraw" []

-- A token that is retrieved in two messages.
abbrev two_steps : ExecuteWithSwapReply (Unit {0}) (Unit {0})
two_steps = record {
  get_retrieve_messages = λ h c env. ok (unbond ∷ withdraw ∷ []);
  validate_retrieve_config = λ h c. ok tt;
}

abbrev custom_store : CustomStore (Unit {0})
custom_store = record { base = rewards_store; retrieve_config = some tt }

swap-retrieves_example :
    custom_execute
      (host one 7)
      two_steps
      custom_store
      env
      (info "hub")
      Reward.ExecuteMsg.swap_to_reward_denom
    ≡ ok (custom_store, record { messages = calling_back (unbond ∷ []) withdraw; attributes = [] })
swap-retrieves_example =
    swap-retrieves (host one 7) two_steps custom_store env (info "hub") reward_config refl
      (unbond ∷ []) withdraw refl refl

abbrev coin_config : StrideLsdConfig
coin_config = record {
  denom = "stuluna";
  underlying_token_denom = "uluna";
  oracle_contract = "oracle";
}

abbrev paying : MessageInfo
paying = record { sender = "bob"; funds = record { denom = "stuluna"; amount = 67 } ∷ [] }

deposit_funds-accepts_example :
    (deposit_funds coin_config (host one 0) env paying 66 "bob" ≡ ok [])
    ↔ RightFunds coin_config 66 paying.funds
deposit_funds-accepts_example = deposit_funds-accepts coin_config (host one 0) env paying 66 "bob"

abbrev limited_store : LimitedStore AmphHub ℕ
limited_store = record {
  lsd_config = some config;
  hub_contract = some "hub";
  decompound_state = none;
  decompound_config = none;
  cw20 = 5;
}

-- Routers that quote nothing, seven and three.
abbrev quoting : Host
quoting = record (host one 0) {
  smart_simulation = λ a q.
      if a == "astro"
      then err not_found
      else ok (record { amount = if a == "phoenix" then 7 else 3 });
}

abbrev routers : Store.SwapConfig
routers = record { astroport_addr = "astro"; phoenix_addr = "phoenix"; terraswap_addr = "terra" }

abbrev luna : Asset
luna = record { amount = 9; asset_info = native_token "uluna" }

abbrev phoenix_swap : CosmosMsg
phoenix_swap = wasm_execute "phoenix" "a message" (record { denom = "uluna"; amount = 9 } ∷ [])

quoted : get_swap_result_for quoting (some routers) luna "uusd" terra_swap_router ≡ ok 3
unfolding get_swap_result_for
quoted = refl

sent : create_swap_msgs quoting (some routers) luna "uusd" ≡ ok (phoenix_swap ∷ [])
unfolding create_swap_msgs quotes max_by_price create_swap_message_for
sent = refl

swap-SentToBest_example : SentToBest quoting (some routers) luna "uusd" phoenix_swap [] 3
swap-SentToBest_example =
    swap-SentToBest quoting (some routers) luna "uusd" phoenix_swap [] terra_swap_router 3 quoted
      sent
