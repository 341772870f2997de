-- ===== src/Tests/Update.antt =====
-- A global update: the hub of Tests.Hub, the wrapper of a coin whose rate has grown, and the reward
-- contract of Tests.Swap.
use cavern_lsd_wrapper.Base.{
  ℕ, ◌*◌, ◌≤◌, ◌≡◌, refl, Option, some, none, [], ok, err, not_found, arith, ◌==◌, string_eq,
  if◌then◌else◌, StdResult, Bool-cases, inl, inr, eq_false→ne,
}
use cavern_lsd_wrapper.Base.Each.{Each}
use cavern_lsd_wrapper.Std.{Binary, Env, seconds_of, Response, SubMsg}
use cavern_lsd_wrapper.Host.{Host}
use cavern_lsd_wrapper.Basset.Hub
use cavern_lsd_wrapper.Basset.Wrapper
use cavern_lsd_wrapper.Basset.Reward
use cavern_lsd_wrapper.Basset.Payload.{Payload, wrapper_execute, reward_execute}
use cavern_lsd_wrapper.Custody.Tokens.{Decodes}
use cavern_lsd_wrapper.Custody.Coins.{coin_custody}
use cavern_lsd_wrapper.Deployment.{Deployment}
use cavern_lsd_wrapper.Token.Store.{Store}
use cavern_lsd_wrapper.Reward.Store.{Store as RewardStore}
use cavern_lsd_wrapper.Hub.Store.{Store as HubStore}
use cavern_lsd_wrapper.Hub.Contract.{execute as hub_execute}
use cavern_lsd_wrapper.LsdHub.Coin.{
  StrideLsdConfig, StrideLsdConfigRaw, stride_hub, query_exchange_rate, get_balance, send_funds,
}
use cavern_lsd_wrapper.Token.Querier.{get_current_exchange_rate}
use cavern_lsd_wrapper.Token.Decompound.{compute_accrued_rewards, rewards_of, set_aside_one}
use cavern_lsd_wrapper.Token.Contract.{execute}
use cavern_lsd_wrapper.Reward.Contract.{execute as reward_contract_execute}
use cavern_lsd_wrapper.Reward.Querier.{query_all_cw20_balances}
use cavern_lsd_wrapper.Reward.Global.{execute_swap}
use cavern_lsd_wrapper.Reward.Swap.{create_swap_msgs, quotes, max_by_price, create_swap_message_for}
use cavern_lsd_wrapper.Reward.Swapped.{KeepsDenom}
use cavern_lsd_wrapper.Update.{Parties, Routes, Chain, deliver, deliver_all}
use cavern_lsd_wrapper.Update.Delivery.{two_calls}
use cavern_lsd_wrapper.Update.Safety.{plain, update_global-backed}
use cavern_lsd_wrapper.Tests.World.{one, capacity, host, supply_library, env, info, documented}
use cavern_lsd_wrapper.Tests.Library.{informed}
use cavern_lsd_wrapper.Tests.Coins.{stride, coin_host, custody, wrapper_store}
use cavern_lsd_wrapper.Tests.Hub.{state, hub_store}
use cavern_lsd_wrapper.Tests.Swap.{reward_store, quoting, configured}

abbrev pub read : Binary → Option Payload
read b =
    if b == "decompound"
    then some (wrapper_execute (Wrapper.ExecuteMsg.decompound (some "reward")))
    else if b == "swap"
    then some (reward_execute Reward.ExecuteMsg.swap_to_reward_denom)
    else none

abbrev pub written : Payload → StdResult Binary
written (wrapper_execute (Wrapper.ExecuteMsg.decompound (some to))) =
    if to == "reward" then ok "decompound" else err not_found
written (reward_execute Reward.ExecuteMsg.swap_to_reward_denom) = ok "swap"
written _ = err not_found

abbrev pub hub_host : Host
hub_host = record (host one 0) { to_binary = written }

pub decodes : Decodes read hub_host
unfolding Decodes
decodes (wrapper_execute (Wrapper.ExecuteMsg.decompound (some to))) b h =
    elim (Bool-cases (to == "reward")) [
      | inr other ↦ let refused = rw other at h in ground arith
      | inl reward ↦
          let same : to ≡ "reward" = (string_eq.decides to "reward").0 reward in
          let text : "decompound" ≡ b = let made = rw reward at h in ground arith in
          rw (← text, same)
    ]
decodes (reward_execute Reward.ExecuteMsg.swap_to_reward_denom) b h =
    let text : "swap" ≡ b = ground arith in rw (← text)
decodes m b h = cc

abbrev pub double : ℕ
double = 2000000000000000000

abbrev pub routes : Routes
routes = record { decode = read; hub_addr = "hub"; token_addr = "wrapper"; reward_addr = "reward" }

abbrev wrapper_runs : Deployment StrideLsdConfigRaw StrideLsdConfig ℕ
wrapper_runs = record { host = coin_host double 67; hub = stride_hub; cw20 = supply_library }

abbrev reward_env : Env
reward_env = record { nanos = 1700000000000000000; contract = "reward" }

abbrev chain : Chain (Store StrideLsdConfig ℕ) RewardStore
chain = plain routes wrapper_runs env quoting reward_env

abbrev pub registered_here : Hub.Config
registered_here = record {
  creator = "owner";
  reward_contract = some "reward";
  token_contract = some "wrapper";
}

unfoldable pub updated :
    (hs : HubStore) × (r : Response) × (hub_execute hub_host
        (hub_store registered_here)
        env
        (info "eve")
        Hub.ExecuteMsg.update_global_index
      ≡ ok (hs, r))
unfolding hub_execute
updated = (_, _, refl)

delivered :
    (st : Parties (Store StrideLsdConfig ℕ) RewardStore) × (deliver_all chain updated.1.messages
        (record { wrapper = wrapper_store 100; rewards = reward_store; payments = []; swaps = [] })
      ≡ some st)
unfolding updated deliver deliver_all execute query_exchange_rate get_balance
    compute_accrued_rewards get_current_exchange_rate rewards_of set_aside_one send_funds
    reward_contract_execute execute_swap create_swap_msgs quotes max_by_price
    create_swap_message_for query_all_cw20_balances
delivered = (_, refl)

pub rated : query_exchange_rate stride (coin_host double 67) env ≡ ok double
unfolding query_exchange_rate
rated = refl

pub holds : get_balance stride (coin_host double 67) env "wrapper" ≡ ok 67
unfolding get_balance
holds = refl

update_global-backed_example :
    (updated.0 ≡ record (hub_store registered_here) {
      state = some (record state { last_index_modification = seconds_of env.nanos });
    })
    × (updated.1.messages ≡ two_calls routes "decompound" "swap")
    × ((r : Response) × (v : Response) × (execute wrapper_runs
            (wrapper_store 100)
            env
            (record { sender = "hub"; funds = [] })
            (Wrapper.ExecuteMsg.decompound (some "reward"))
          ≡ ok (delivered.0.wrapper, r))
        × (reward_contract_execute quoting reward_store reward_env
              (record { sender = "hub"; funds = [] })
              Reward.ExecuteMsg.swap_to_reward_denom
            ≡ ok (delivered.0.rewards, v))
        × (delivered.0.payments ≡ r.messages)
        × (delivered.0.swaps ≡ v.messages))
    × (delivered.0.wrapper ≡ wrapper_store 100)
    × (delivered.0.wrapper.cw20 * one ≤ 51 * double)
    × (delivered.0.rewards ≡ reward_store)
    × Each (λ (m : SubMsg). KeepsDenom "uusd" m.msg) delivered.0.swaps
unfolding delivered coin_custody
update_global-backed_example =
    update_global-backed routes wrapper_runs env quoting reward_env capacity documented (λ s. s)
      stride custody hub_host (hub_store registered_here) updated.0 env (info "eve") registered_here
      state "decompound" "swap" updated.1 (wrapper_store 100) reward_store configured delivered.0
      double 67 51 decodes refl refl refl refl (eq_false→ne "reward" "wrapper" refl) refl refl refl
      refl tt rated holds (λ i h. informed 100 i h) (omega arith) updated.2 delivered.1 refl
