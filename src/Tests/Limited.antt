-- ===== src/Tests/Limited.antt =====
-- The wrapper with a limit of a tenth per year: deployed, and decompounded three years later.
use cavern_lsd_wrapper.Base.{
  ℕ, ◌+◌, ◌*◌, ◌≤◌, ◌<◌, ◌≡◌, ◌/◌, refl, some, none, [], ok, from_std, ◌>>=◌, arith, ◌-◌, ◌⊎◌, List,
  map,
}
use cavern_lsd_wrapper.Std.{Addr, CosmosMsg, Env, Response, sub_msg}
use cavern_lsd_wrapper.LsdHub.Amp.{
  ContractsRaw, AmphHub, deposit_funds, send_funds, get_balance, query_exchange_rate,
  instantiate_config,
}
use cavern_lsd_wrapper.Basset.Wrapper
use cavern_lsd_wrapper.Limited.Store
use cavern_lsd_wrapper.Limited.Contract.{instantiate, execute}
use cavern_lsd_wrapper.Limited.Querier.{get_lsd_wrapper_exchange_rate, get_current_exchange_rate}
use cavern_lsd_wrapper.Limited.Rewards.{
  compute_accrued_rewards, rewards_of, unlimited_rewards, limit_rewards, set_aside_one,
}
use cavern_lsd_wrapper.Limited.Handler.{library_call, execute_mint, execute_burn, execute_burn_from}
use cavern_lsd_wrapper.Limited.Prices.{limited_mint-charges, limited_burn-pays}
use cavern_lsd_wrapper.Limited.Reach.{Reachable, deployed, called}
use cavern_lsd_wrapper.Limited.Limit.{allowed_after}
use cavern_lsd_wrapper.Limited.Reach.Payments.{reachable_decompound-limited}
use cavern_lsd_wrapper.Std.Decimals.{rounding_down}
use cavern_lsd_wrapper.Tests.World.{
  one, capacity, host, supply_info, deployment, config, env, info, documented,
}

abbrev tenth : ℕ
tenth = 100000000000000000

abbrev rate : ℕ
rate = 1500000000000000000

holds : get_balance config (host rate 900) env "wrapper" ≡ ok 900
unfolding get_balance
holds = refl

abbrev start : Env
start = record { nanos = 1600000000000000000; contract = "wrapper" }

abbrev empty : Store.Store AmphHub ℕ
empty = record {
  lsd_config = none;
  hub_contract = none;
  decompound_state = none;
  decompound_config = none;
  cw20 = 0;
}

abbrev init : Store.TokenInitMsg ContractsRaw
init = record {
  name = "wrapped";
  symbol = "W";
  decimals = 6;
  initial_balances = [];
  max_decompound_ratio = some tenth;
  hub_contract = "hub";
  lsd_config = record { token = "amp"; hub = "eris" };
}

abbrev fresh : ℕ → Store.Store AmphHub ℕ
fresh supply = record {
  lsd_config = some config;
  hub_contract = some "hub";
  decompound_state =
      some (record { ratio_sum = 0; total_seconds = 0; last_decompound = 1600000000000000000 });
  decompound_config = some (record { max_decompound_ratio = some tenth });
  cw20 = supply;
}

abbrev decompounded : Store.Store AmphHub ℕ
decompounded = record (fresh 1000) {
  decompound_state = some (record {
    ratio_sum = 258518518518518518;
    total_seconds = 100000000;
    last_decompound = 1700000000000000000;
  });
}

reached_deployed : Reachable ContractsRaw (rounding_down one capacity) tenth 1600000000 (fresh 0) 0
unfolding instantiate instantiate_config
reached_deployed =
    deployed (deployment rate 0) empty _ start (info "owner") init _ refl refl refl refl

reached_minted : Reachable ContractsRaw (rounding_down one capacity) tenth 1600000000 (fresh 1000) 0
unfolding execute get_lsd_wrapper_exchange_rate get_balance deposit_funds
reached_minted =
    called (deployment rate 0) _ _ start (info "bob") (Wrapper.ExecuteMsg.mint "bob" 1000) _ 0 refl
      reached_deployed refl

-- The decompounding.
run :
    (r : Response) × (execute
        (deployment rate 900)
        (fresh 1000)
        env
        (info "hub")
        (Wrapper.ExecuteMsg.decompound (some "reward"))
      ≡ ok (decompounded, r))
unfolding execute compute_accrued_rewards get_current_exchange_rate query_exchange_rate get_balance
    rewards_of unlimited_rewards limit_rewards set_aside_one send_funds
run = (_, refl)

-- A third of the 900 tokens may be paid after the three years.
reachable_decompound-limited_example :
    (run.0.messages ≡ [])
    ⊎ ((n : ℕ) × (to : Addr) × (ms : List CosmosMsg) × (send_funds config (host rate 900) env n to
          ≡ ok ms)
        × (run.0.messages ≡ map sub_msg ms)
        × ((n + 1) * one ≤ (allowed_after one tenth (1700000000 - 1600000000) - 0) * 900))
reachable_decompound-limited_example =
    reachable_decompound-limited (rounding_down one capacity) capacity documented tenth 1600000000
      (fresh 1000) 0 reached_minted (deployment rate 900) refl env config 900 refl holds
      (info "hub") (some "reward") decompounded run.0 run.1

limited_mint-charges_example :
    (charge : ℕ) × (execute_mint (deployment rate 900) (fresh 1000) env (info "bob") "bob" 100 ≡ (
      from_std (deposit_funds config (host rate 900) env (info "bob") charge "bob") >>= λ ms.
      library_call
        (deployment rate 900)
        (fresh 1000)
        ms
        (ok (1100, record { messages = []; attributes = [] }))))
    × (100 * 900 < charge * 1000)
    × (charge * (1000 * one / 900) ≤ 100 * one + 1000 * one / 900)
limited_mint-charges_example =
    limited_mint-charges (deployment rate 900) capacity documented (fresh 1000) env (info "bob")
      config 900 (supply_info 1000) refl holds refl (omega arith) (omega arith) (omega arith)
      (omega arith) "bob" 100 (omega arith) (omega arith)

limited_burn-pays_example :
    (payout : ℕ) × (execute_burn (deployment rate 900) (fresh 1000) env (info "bob") 100 ≡ (
      from_std (send_funds config (host rate 900) env payout "bob") >>= λ ms.
      library_call
        (deployment rate 900)
        (fresh 1000)
        ms
        (ok (900, record { messages = []; attributes = [] }))))
    × (execute_burn_from (deployment rate 900) (fresh 1000) env (info "bob") "eve" 100 ≡ (
        from_std (send_funds config (host rate 900) env payout "bob") >>= λ ms.
        library_call
          (deployment rate 900)
          (fresh 1000)
          ms
          (ok (900, record { messages = []; attributes = [] }))))
    × (payout * (1000 * one / 900) ≤ 100 * one)
    × (100 * 900 < (payout + 1) * 1000)
limited_burn-pays_example =
    limited_burn-pays (deployment rate 900) capacity documented (fresh 1000) env (info "bob") config
      900 (supply_info 1000) refl holds refl (omega arith) (omega arith) (omega arith) (omega arith)
      "eve" 100 (omega arith) (omega arith)
