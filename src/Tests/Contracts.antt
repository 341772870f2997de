-- ===== src/Tests/Contracts.antt =====
-- Two deployed wrappers from their deployment on.
use cavern_lsd_wrapper.Base.{
  ℕ, ◌*◌, ◌≤◌, ◌≡◌, refl, none, some, [], ◌∷◌, ok, arith, String, StdResult, eq_false→ne,
}
use cavern_lsd_wrapper.Std.{Binary, empty_response}
use cavern_lsd_wrapper.Std.Decimals.{rounding_down}
use cavern_lsd_wrapper.Basset.Wrapper
use cavern_lsd_wrapper.Cw20.Supply.{Supplies}
use cavern_lsd_wrapper.Custody.{Custody}
use cavern_lsd_wrapper.Custody.Tokens.{token_custody, Decodes}
use cavern_lsd_wrapper.Custody.Implementations.{steak_custody}
use cavern_lsd_wrapper.LsdHub.Steak
use cavern_lsd_wrapper.LsdHub.Steak.{
  SteakLsdHub, AmpLunaStateResponse, amp_luna_state, steak_hub, query_exchange_rate, send_funds,
}
use cavern_lsd_wrapper.LsdHub.Coin.{StrideLsdConfig, StrideLsdConfigRaw, instantiate_config}
use cavern_lsd_wrapper.Token.Store
use cavern_lsd_wrapper.Token.Contract.{instantiate, execute}
use cavern_lsd_wrapper.Token.Reach.{World, Run, called, here, next, on, IsSolvent}
use cavern_lsd_wrapper.Token.Deployed.{deployed-IsSolvent}
use cavern_lsd_wrapper.Contracts.LsdWrapper
use cavern_lsd_wrapper.Contracts.Solvency.{lsd_wrapper-IsSolvent}
use cavern_lsd_wrapper.Tests.World.{one, capacity, supply_library, env, info, documented}
use cavern_lsd_wrapper.Tests.Library.{issues, supply_laws}
use cavern_lsd_wrapper.Tests.Payments.{read, cw20_host, decodes}
use cavern_lsd_wrapper.Tests.Coins.{
  stride, coin_host, wrapper_store, world, three_halves, laws, minted, grown, paid,
}

abbrev coin_msg : Store.TokenInitMsg StrideLsdConfigRaw
coin_msg = record {
  name = "wrapped";
  symbol = "W";
  decimals = 6;
  initial_balances = [];
  hub_contract = "hub";
  lsd_config = record {
    denom = "stuluna";
    underlying_token_denom = "uluna";
    oracle_contract = "oracle";
  };
}

abbrev empty_store : (T : Type 0) → Store.Store T ℕ
empty_store T = record { lsd_config = none; hub_contract = none; cw20 = 0 }

configured : instantiate_config (coin_host three_halves 0) coin_msg.lsd_config ≡ ok stride
unfolding instantiate_config
configured = refl

deployed :
    LsdWrapper.instantiate
      (coin_host three_halves 0)
      supply_library
      (empty_store StrideLsdConfig)
      env
      (info "owner")
      coin_msg
    ≡ ok (wrapper_store 0, empty_response)
unfolding LsdWrapper.instantiate instantiate_config
deployed = refl

-- Minted, its rate grown, and decompounded.
lsd_wrapper-IsSolvent_example : (some stride ≡ some stride) × (100 * one ≤ 51 * (2 * one))
lsd_wrapper-IsSolvent_example =
    lsd_wrapper-IsSolvent supply_library (λ s. s) issues "wrapper" stride
      (rounding_down one capacity) capacity documented laws (coin_host three_halves 0)
      (empty_store StrideLsdConfig) (wrapper_store 0) env (info "owner") coin_msg empty_response 0
      three_halves (world 100 51 (2 * one)) configured deployed (omega arith)
      (next (next (next here minted) grown) paid)

abbrev luna_msg : Store.TokenInitMsg Steak.LsdContractsRaw
luna_msg = record {
  name = "wrapped";
  symbol = "W";
  decimals = 6;
  initial_balances = ("bob", 15) ∷ [];
  hub_contract = "hub";
  lsd_config = record { hub = "steak hub"; token = "steak" };
}

abbrev steak : SteakLsdHub
steak = record { lsd_contracts = record { hub = "steak hub"; token = "steak" } }

-- The staking hub reports the rate 1.5.
abbrev luna_state : String → Binary → StdResult AmpLunaStateResponse
luna_state contract query = ok (record {
  total_ustake = 100;
  total_uluna = 150;
  exchange_rate = three_halves;
  unlocked_coins = [];
  unbonding = 0;
  available = 0;
  tvl_uluna = 150;
})

abbrev luna_custody : Custody (steak_hub luna_state amp_luna_state) steak
luna_custody = steak_custody read "wrapper" luna_state amp_luna_state steak

luna_laws : Supplies supply_library (λ s. s) luna_custody.Quiet
unfolding steak_custody token_custody
luna_laws = supply_laws luna_custody.Quiet refl

abbrev luna_store : ℕ → Store.Store SteakLsdHub ℕ
luna_store supply = record { lsd_config = some steak; hub_contract = some "hub"; cw20 = supply }

luna_configured : Steak.instantiate_config cw20_host luna_msg.lsd_config ≡ ok steak
unfolding Steak.instantiate_config
luna_configured = refl

luna_deployed :
    instantiate
      (on
        (steak_hub luna_state amp_luna_state)
        supply_library
        steak
        luna_custody
        (rounding_down one capacity)
        cw20_host)
      (empty_store SteakLsdHub)
      env
      (info "owner")
      luna_msg
    ≡ ok (luna_store 15, empty_response)
unfolding instantiate Steak.instantiate_config
luna_deployed = refl

abbrev luna_world : ℕ → ℕ → World SteakLsdHub ℕ
luna_world supply held = record { store = luna_store supply; held = held; rate = three_halves }

-- All that was issued is burnt, for all that is held.
luna-Run :
    Run
      (steak_hub luna_state amp_luna_state)
      supply_library
      steak
      luna_custody
      (rounding_down one capacity)
      (luna_world 15 10)
      (luna_world 0 0)
unfolding execute steak_custody token_custody query_exchange_rate send_funds Decodes
luna-Run = next here (
    called (luna_world 15 10) cw20_host env (info "bob") (Wrapper.ExecuteMsg.burn 15) (luna_store 0)
      _ 0 refl decodes refl (eq_false→ne "bob" "wrapper" refl) refl refl (refl, refl))

deployed-IsSolvent_example :
    IsSolvent
      (steak_hub luna_state amp_luna_state)
      supply_library
      steak
      luna_custody
      (rounding_down one capacity)
      (λ s. s)
      (luna_world 0 0)
deployed-IsSolvent_example =
    deployed-IsSolvent (steak_hub luna_state amp_luna_state) supply_library steak luna_custody
      (rounding_down one capacity) (λ s. s) issues capacity documented luna_laws cw20_host
      (empty_store SteakLsdHub) (luna_store 15) env (info "owner") luna_msg empty_response 10
      three_halves (luna_world 0 0) luna_configured luna_deployed (omega arith) luna-Run
