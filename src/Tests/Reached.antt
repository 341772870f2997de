-- ===== src/Tests/Reached.antt =====
-- The hub and the reward contracts from their deployment on.
use cavern_lsd_wrapper.Base.{ℕ, ◌≡◌, refl, none, some, [], ◌∷◌, ok, map_outcome, arith}
use cavern_lsd_wrapper.Basset.Hub
use cavern_lsd_wrapper.Basset.Reward
use cavern_lsd_wrapper.Hub.Store.{Store as HubStore}
use cavern_lsd_wrapper.Hub.Contract.{
  query, update_field, instantiate as hub_instantiate, execute as hub_execute,
}
use cavern_lsd_wrapper.Hub.Reach.{
  Reachable as HubReachable, deployed as hub_deployed, called as hub_called, Reachable-answers,
}
use cavern_lsd_wrapper.Reward.Store.{Store as RewardStore}
use cavern_lsd_wrapper.Reward.Contract.{
  has_unique_elements, set_custody_contract, instantiate as reward_instantiate,
  execute as reward_contract_execute,
}
use cavern_lsd_wrapper.Reward.Reach.{
  IsConfigured, SameText, Reachable as RewardReachable, deployed as reward_deployed,
  called as reward_called, Reachable-IsConfigured,
}
use cavern_lsd_wrapper.CustomReward.Store.{Store as CustomStore}
use cavern_lsd_wrapper.CustomReward.Contract.{
  update_config, instantiate as custom_instantiate, execute as custom_execute,
}
use cavern_lsd_wrapper.CustomReward.Reach.{
  Reachable as CustomReachable, deployed as custom_deployed, called as custom_called, IsReady,
  Reachable-IsReady,
}
use cavern_lsd_wrapper.CustomReward.Spectrum.{
  RetrieveConfig, spectrum_retrieve, validate_retrieve_config,
}
use cavern_lsd_wrapper.Tests.World.{one, host, env, info}
use cavern_lsd_wrapper.Tests.Hub.{hub_store, registered, state}

same_text : SameText (host one 0)
same_text raw a valid = ground arith

abbrev empty_hub : HubStore
empty_hub = record { config = none; parameters = none; state = none }

-- Deployed, both contracts registered, and updated.
updated_hub : HubReachable one "uusd" (record (hub_store registered) {
  state = some (record state { last_index_modification = 1700000000 });
})
unfolding hub_instantiate hub_execute update_field
updated_hub =
    hub_called (host one 0) _ _ env (info "eve") Hub.ExecuteMsg.update_global_index _
      (hub_called (host one 0) _ _ env (info "owner")
        (Hub.ExecuteMsg.update_config none (some "reward") (some "token")) _
        (hub_deployed (host one 0) empty_hub _ env (info "owner") (record { reward_denom = "uusd" })
          _ refl refl refl)
        refl)
      refl

Reachable-answers_example :
    (c : Hub.Config) × (time : ℕ) × (query
        (host one 0)
        (record (hub_store registered) {
          state = some (record state { last_index_modification = 1700000000 });
        })
        env
        Hub.QueryMsg.config
      ≡ ok "a message")
    × (query
          (host one 0)
          (record (hub_store registered) {
            state = some (record state { last_index_modification = 1700000000 });
          })
          env
          Hub.QueryMsg.state
        ≡ ok "a message")
    × (query
          (host one 0)
          (record (hub_store registered) {
            state = some (record state { last_index_modification = 1700000000 });
          })
          env
          Hub.QueryMsg.parameters
        ≡ ok "a message")
Reachable-answers_example =
    Reachable-answers one "uusd"
      (record (hub_store registered) {
        state = some (record state { last_index_modification = 1700000000 });
      })
      (host one 0) env updated_hub

abbrev empty_rewards : RewardStore
empty_rewards = record { state = none; config = none; swap_config = none; holders = [] }

-- Deployed with two tokens, and given the custody contract and another list of tokens.
abbrev updated_rewards : RewardStore
updated_rewards = record {
  state = some (record { global_index = 0; total_balance = 0; prev_reward_balance = 0 });
  config = some (record {
    owner = "owner";
    hub_contract = "hub";
    custody_contract = some "vault";
    reward_denom = "uusd";
    known_cw20_tokens = "c" ∷ "a" ∷ [];
  });
  swap_config =
      some
        (record { astroport_addr = "astro"; phoenix_addr = "phoenix"; terraswap_addr = "terra" });
  holders = [];
}

abbrev update : Reward.ExecuteMsg
update = Reward.ExecuteMsg.update_config none (some "vault") (some ("c" ∷ "a" ∷ [])) none none none

reached_rewards : RewardReachable "hub" "uusd" updated_rewards
unfolding reward_instantiate reward_contract_execute set_custody_contract has_unique_elements
    map_outcome
reached_rewards =
    reward_called (host one 0) _ _ env (info "owner") update _ same_text
      (reward_deployed (host one 0) empty_rewards _ env (info "owner")
        (record {
          hub_contract = "hub";
          reward_denom = "uusd";
          astroport_addr = "astro";
          phoenix_addr = "phoenix";
          terraswap_addr = "terra";
          known_tokens = "a" ∷ "b" ∷ [];
        })
        _ same_text refl refl refl)
      refl

Reachable-IsConfigured_example : IsConfigured "hub" "uusd" updated_rewards
Reachable-IsConfigured_example = Reachable-IsConfigured "hub" "uusd" updated_rewards reached_rewards

abbrev retrieve : RetrieveConfig
retrieve = record { spectrum_token = "spectrum"; pair = "pair" }

abbrev updated_custom : CustomStore RetrieveConfig
updated_custom = record { base = updated_rewards; retrieve_config = some retrieve }

reached_custom : CustomReachable spectrum_retrieve "hub" "uusd" retrieve updated_custom
unfolding custom_instantiate custom_execute validate_retrieve_config update_config
    has_unique_elements map_outcome
reached_custom =
    custom_called (host one 0) _ _ env (info "owner") update _ same_text
      (custom_deployed (host one 0) (record { base = empty_rewards; retrieve_config = none }) _ env
        (info "owner")
        (record {
          hub_contract = "hub";
          reward_denom = "uusd";
          astroport_addr = "astro";
          phoenix_addr = "phoenix";
          terraswap_addr = "terra";
          known_tokens = "a" ∷ "b" ∷ [];
          retrieve_config = record { spectrum_token = "spectrum"; pair = "pair" };
        })
        _ same_text refl refl refl refl)
      refl

Reachable-IsReady_example : IsReady spectrum_retrieve "hub" "uusd" retrieve updated_custom
Reachable-IsReady_example =
    Reachable-IsReady spectrum_retrieve "hub" "uusd" retrieve updated_custom reached_custom
