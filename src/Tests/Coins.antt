-- ===== src/Tests/Coins.antt =====
-- A wrapper of the coin "stuluna" over time: minted, its rate grown, and decompounded.
use cavern_lsd_wrapper.Base.{ℕ, ◌*◌, refl, some, [], ◌∷◌, ok, arith, eq_false→ne}
use cavern_lsd_wrapper.Std.Decimals.{rounding_down}
use cavern_lsd_wrapper.Host.{Host}
use cavern_lsd_wrapper.Basset.Wrapper
use cavern_lsd_wrapper.Cw20.Supply.{Supplies}
use cavern_lsd_wrapper.Custody.{Custody}
use cavern_lsd_wrapper.Custody.Coins.{coin_custody}
use cavern_lsd_wrapper.LsdHub.Coin.{
  StrideLsdConfig, stride_hub, query_exchange_rate, get_balance, deposit_funds, send_funds,
}
use cavern_lsd_wrapper.Token.Querier.{get_current_exchange_rate}
use cavern_lsd_wrapper.Token.Decompound.{compute_accrued_rewards, rewards_of, set_aside_one}
use cavern_lsd_wrapper.Token.Store
use cavern_lsd_wrapper.Token.Contract.{execute}
use cavern_lsd_wrapper.Token.Reach.{World, Step, called, decompounded, earned}
use cavern_lsd_wrapper.Tests.Library.{supply_laws}
use cavern_lsd_wrapper.Tests.World.{one, capacity, host, supply_library, env, info}

abbrev pub stride : StrideLsdConfig
stride = record { denom = "stuluna"; underlying_token_denom = "uluna"; oracle_contract = "oracle" }

-- The oracle answers with `rate`, and the bank with `held`.
abbrev pub coin_host : ℕ → ℕ → Host
coin_host rate held = record (host one held) {
  smart_price = λ a q. ok (record { rate = rate; last_updated_base = 0; last_updated_quote = 0 });
}

abbrev pub custody : Custody stride_hub stride
custody = coin_custody "wrapper" stride

pub laws : Supplies supply_library (λ s. s) custody.Quiet
unfolding coin_custody
laws = supply_laws custody.Quiet refl

abbrev pub wrapper_store : ℕ → Store.Store StrideLsdConfig ℕ
wrapper_store supply = record { lsd_config = some stride; hub_contract = some "hub"; cw20 = supply }

abbrev pub world : ℕ → ℕ → ℕ → World StrideLsdConfig ℕ
world supply held rate = record { store = wrapper_store supply; held = held; rate = rate }

abbrev pub three_halves : ℕ
three_halves = 1500000000000000000

-- A mint of 100 that attaches 67 coins.
pub minted :
    Step stride_hub supply_library stride custody
      (rounding_down one capacity)
      (world 0 0 three_halves)
      (world 100 67 three_halves)
unfolding execute coin_custody query_exchange_rate deposit_funds
minted =
    called (world 0 0 three_halves) (coin_host three_halves 67) env
      (record { sender = "bob"; funds = record { denom = "stuluna"; amount = 67 } ∷ [] })
      (Wrapper.ExecuteMsg.mint "bob" 100) (wrapper_store 100) _ 67 refl tt refl
      (eq_false→ne "bob" "wrapper" refl) refl refl refl

pub grown :
    Step stride_hub supply_library stride custody
      (rounding_down one capacity)
      (world 100 67 three_halves)
      (world 100 67 (2 * one))
grown = earned (world 100 67 three_halves) (2 * one) (omega arith)

pub paid :
    Step stride_hub supply_library stride custody
      (rounding_down one capacity)
      (world 100 67 (2 * one))
      (world 100 51 (2 * one))
unfolding execute coin_custody query_exchange_rate get_balance compute_accrued_rewards
    get_current_exchange_rate rewards_of set_aside_one send_funds
paid =
    decompounded (world 100 67 (2 * one)) (coin_host (2 * one) 67) env (info "hub") (some "reward")
      (wrapper_store 100) _ 51 refl tt refl refl refl refl refl
