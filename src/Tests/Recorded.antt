-- ===== src/Tests/Recorded.antt =====
-- The wrapper of Tests.Backing, decompounded: 233 of its 900 coins are spare, and the limit leaves 285.
use cavern_lsd_wrapper.Base.{◌≡◌, refl, some, [], ◌∷◌, ok, arith, map}
use cavern_lsd_wrapper.Std.{Response, sub_msg, bank_send}
use cavern_lsd_wrapper.LsdHub.Coin.{query_exchange_rate, get_balance, send_funds}
use cavern_lsd_wrapper.Limited.Store.{WrapperState}
use cavern_lsd_wrapper.Limited.Querier.{get_current_exchange_rate}
use cavern_lsd_wrapper.Limited.Decompound.{execute_decompound}
use cavern_lsd_wrapper.Limited.Pays.Recorded.{limited_decompound-pays}
use cavern_lsd_wrapper.Tests.World.{capacity, env, info, documented}
use cavern_lsd_wrapper.Tests.Coins.{stride, three_halves}
use cavern_lsd_wrapper.Tests.Backing.{coin_deployment, limited_store, kept}

abbrev state : WrapperState
state = record {
  lsd_exchange_rate = three_halves;
  wlsd_supply = 1000;
  backing_luna = 1350000000000000000000;
  lsd_balance = 900;
}

observed :
    get_current_exchange_rate (coin_deployment 900) limited_store env
    ≡ ok (1350000000000000000, state)
unfolding get_current_exchange_rate query_exchange_rate get_balance
observed = refl

paid :
    send_funds stride (coin_deployment 900).host env 232 "reward"
    ≡ ok (bank_send "reward" (record { denom = "stuluna"; amount = 232 } ∷ []) ∷ [])
unfolding send_funds
paid = refl

limited_decompound-pays_example :
    (r : Response) × (execute_decompound
        (coin_deployment 900)
        limited_store
        env
        (info "hub")
        (some "reward")
      ≡ ok (
        record limited_store {
          decompound_state = some (record {
            ratio_sum = 258518518518518518;
            total_seconds = 100000000;
            last_decompound = 1700000000000000000;
          });
        },
        r,
      ))
    × (r.messages
        ≡ map sub_msg (bank_send "reward" (record { denom = "stuluna"; amount = 232 } ∷ []) ∷ []))
unfolding kept
limited_decompound-pays_example =
    limited_decompound-pays (coin_deployment 900) capacity documented 100000000000000000
      limited_store env (info "hub") (some "reward") (some "reward") stride 1350000000000000000
      state (bank_send "reward" (record { denom = "stuluna"; amount = 232 } ∷ []) ∷ []) kept refl
      refl refl observed (omega arith) (omega arith) (omega arith) (omega arith) (omega arith)
      (omega arith) (omega arith) (omega arith) (omega arith) (omega arith) (omega arith)
      (omega arith) (omega arith) (omega arith) (omega arith) (omega arith) (omega arith)
      (omega arith) (omega arith) (omega arith) (omega arith) paid
