-- ===== src/Tests/Backing.antt =====
-- The wrappers of a coin and with a limit: a burn that is paid in full, a decompounding of a backed
-- supply, and the rate that the holders expect.
use cavern_lsd_wrapper.Base.{ℕ, ◌+◌, ◌*◌, ◌≤◌, ◌<◌, ◌≡◌, refl, some, [], ◌∷◌, ok, arith, List}
use cavern_lsd_wrapper.Std.{CosmosMsg, add_messages, bank_send, empty_response}
use cavern_lsd_wrapper.Deployment.{Deployment}
use cavern_lsd_wrapper.LsdHub.Coin.{
  StrideLsdConfig, StrideLsdConfigRaw, stride_hub, query_exchange_rate, get_balance, send_funds,
}
use cavern_lsd_wrapper.Token.Handler.{execute_burn}
use cavern_lsd_wrapper.Token.Redeem.{execute_burn-payable}
use cavern_lsd_wrapper.Limited.Store
use cavern_lsd_wrapper.Limited.Store.{WrapperState}
use cavern_lsd_wrapper.Limited.Querier.{get_current_exchange_rate, get_expected_exchange_rate}
use cavern_lsd_wrapper.Limited.Limit.{WithinLimit}
use cavern_lsd_wrapper.Limited.Kept.{LimitKept}
use cavern_lsd_wrapper.Limited.Expected.{expected-bounds}
use cavern_lsd_wrapper.Tests.World.{one, capacity, supply_library, env, info, documented}
use cavern_lsd_wrapper.Tests.Coins.{stride, coin_host, wrapper_store, three_halves}

abbrev pub coin_deployment : ℕ → Deployment StrideLsdConfigRaw StrideLsdConfig ℕ
coin_deployment held = record {
  host = coin_host three_halves held;
  hub = stride_hub;
  cw20 = supply_library;
}

abbrev coins : ℕ → List CosmosMsg
coins n = bank_send "bob" (record { denom = "stuluna"; amount = n } ∷ []) ∷ []

pub rated : query_exchange_rate stride (coin_host three_halves 900) env ≡ ok three_halves
unfolding query_exchange_rate
rated = refl

pub held_balance : get_balance stride (coin_host three_halves 900) env "wrapper" ≡ ok 900
unfolding get_balance
held_balance = refl

sends : (n : ℕ) → send_funds stride (coin_host three_halves 900) env n "bob" ≡ ok (coins n)
unfolding send_funds
sends n = refl

execute_burn-payable_example :
    (n : ℕ) × (n ≤ 900)
    × (n * three_halves ≤ 600 * one)
    × (600 * one < (n + 1) * three_halves)
    × (execute_burn (coin_deployment 900) (wrapper_store 1000) env (info "bob") 600
        ≡ ok (record (wrapper_store 1000) { cw20 = 400 }, add_messages (coins n) empty_response))
execute_burn-payable_example =
    execute_burn-payable (coin_deployment 900) capacity documented (wrapper_store 1000) env
      (info "bob") stride three_halves 900 1000 600 coins (400, empty_response) refl rated
      (omega arith) (omega arith) (omega arith) (omega arith) (omega arith) (λ n le. sends n) refl

-- A tenth per year, three years after the start.
abbrev pub limited_store : Store.Store StrideLsdConfig ℕ
limited_store = record {
  lsd_config = some stride;
  hub_contract = some "hub";
  decompound_state =
      some (record { ratio_sum = 0; total_seconds = 0; last_decompound = 1600000000000000000 });
  decompound_config = some (record { max_decompound_ratio = some 100000000000000000 });
  cw20 = 1000;
}

unfoldable pub kept : LimitKept one 100000000000000000 limited_store
unfolding WithinLimit
kept = record {
  limited = refl;
  taken = record { ratio_sum = 0; total_seconds = 0; last_decompound = 1600000000000000000 };
  recorded = refl;
  within = omega arith;
}

current :
    (state : WrapperState) × (get_current_exchange_rate (coin_deployment 900) limited_store env
      ≡ ok (1350000000000000000, state))
unfolding get_current_exchange_rate query_exchange_rate get_balance
current = (_, refl)

expected :
    (state : WrapperState) × (get_expected_exchange_rate (coin_deployment 900) limited_store env
      ≡ ok (1032902080162354135, state))
unfolding get_expected_exchange_rate get_current_exchange_rate query_exchange_rate get_balance
expected = (_, refl)

expected-bounds_example :
    (one ≤ 1032902080162354135)
    × (1032902080162354135 ≤ 1350000000000000000)
    × (expected.0 ≡ current.0)
expected-bounds_example =
    expected-bounds (coin_deployment 900) capacity documented 100000000000000000 limited_store env
      1350000000000000000 1032902080162354135 current.0 expected.0 kept current.1 (omega arith)
      expected.1
