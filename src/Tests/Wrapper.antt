-- ===== src/Tests/Wrapper.antt =====
-- The wrapper at the rate 1.5.
use cavern_lsd_wrapper.Base.{
  ℕ, ◌+◌, ◌-◌, ◌*◌, ◌≤◌, ◌<◌, ◌≡◌, refl, some, [], ok, panic, from_std, ◌>>=◌, arith,
}
use cavern_lsd_wrapper.LsdHub.Amp.{deposit_funds, send_funds, query_exchange_rate, get_balance}
use cavern_lsd_wrapper.Token.Handler.{
  library_call, execute_mint, execute_burn, execute_burn_from, execute_mint_with,
}
use cavern_lsd_wrapper.Token.Handler.Prices.{
  execute_mint-charges, execute_burn-pays, execute_mint_with-issues,
}
use cavern_lsd_wrapper.Token.Querier.Rate.{Answers, InRange}
use cavern_lsd_wrapper.Token.Decompound.{execute_decompound}
use cavern_lsd_wrapper.Token.Decompound.Backed.{
  decompound_response, decompound-unbacked, decompound-pays, decompound-panics, paid_out,
}
use cavern_lsd_wrapper.Tests.World.{
  one, capacity, host, supply_info, deployment, config, store, env, info, documented,
}

abbrev rate : ℕ
rate = 1500000000000000000

rated : query_exchange_rate config (host rate 900) env ≡ ok rate
unfolding query_exchange_rate
rated = refl

execute_mint-charges_example :
    (charge : ℕ) × (execute_mint (deployment rate 900) (store 1000) env (info "bob") "bob" 100 ≡ (
      from_std (deposit_funds config (host rate 900) env (info "bob") charge "bob") >>= λ ms.
      library_call
        (deployment rate 900)
        (store 1000)
        ms
        (ok (1100, record { messages = []; attributes = [] }))))
    × (100 * one < charge * rate)
    × (charge * rate ≤ 100 * one + rate)
execute_mint-charges_example =
    execute_mint-charges (deployment rate 900) capacity documented (store 1000) env (info "bob")
      config rate refl rated (omega arith) "bob" 100 (omega arith) (omega arith)

execute_burn-pays_example :
    (payout : ℕ) × (execute_burn (deployment rate 900) (store 1000) env (info "bob") 100 ≡ (
      from_std (send_funds config (host rate 900) env payout "bob") >>= λ ms.
      library_call
        (deployment rate 900)
        (store 1000)
        ms
        (ok (900, record { messages = []; attributes = [] }))))
    × (execute_burn_from (deployment rate 900) (store 1000) env (info "bob") "eve" 100 ≡ (
        from_std (send_funds config (host rate 900) env payout "bob") >>= λ ms.
        library_call
          (deployment rate 900)
          (store 1000)
          ms
          (ok (900, record { messages = []; attributes = [] }))))
    × (payout * rate ≤ 100 * one)
    × (100 * one < (payout + 1) * rate)
execute_burn-pays_example =
    execute_burn-pays (deployment rate 900) capacity documented (store 1000) env (info "bob") config
      rate refl rated (omega arith) "eve" 100 (omega arith) (omega arith)

execute_mint_with-issues_example :
    (issued : ℕ) × (execute_mint_with (deployment rate 900) (store 1000) env (info "bob") "bob" 101
      ≡ (from_std (deposit_funds config (host rate 900) env (info "bob") 101 "bob") >>= λ ms.
          library_call
            (deployment rate 900)
            (store 1000)
            ms
            (ok (1000 + issued, record { messages = []; attributes = [] }))))
    × (issued * one ≤ 101 * rate)
    × (101 * rate < (issued + 1) * one)
execute_mint_with-issues_example =
    execute_mint_with-issues (deployment rate 900) capacity documented (store 1000) env (info "bob")
      config rate refl rated (omega arith) "bob" 101 (omega arith) (omega arith)

answers :
    (r held supply : ℕ)
    → Answers (deployment r held) (store supply) env config r held (supply_info supply)
unfolding query_exchange_rate get_balance
answers r held supply = record { has_config = refl; rated = refl; holds = refl; supplied = refl }

in_range : InRange one capacity rate 900 1000
in_range = omega arith

decompound-pays_example :
    (luna paid : ℕ) × (execute_decompound
        (deployment rate 900)
        (store 1000)
        env
        (info "hub")
        (some "reward")
      ≡ paid_out (deployment rate 900) (store 1000) env config "reward" luna paid)
    × (paid ≤ 900)
    × (1000 * one ≤ (900 - paid) * rate)
    × ((900 - (paid + 2)) * rate ≤ 1000 * one)
decompound-pays_example =
    decompound-pays (deployment rate 900) capacity documented (store 1000) env config rate 900
      (supply_info 1000) (answers rate 900 1000) in_range (info "hub") (some "reward")
      (some "reward") refl refl (omega arith) (omega arith)

decompound-unbacked_example :
    execute_decompound (deployment rate 600) (store 1000) env (info "hub") (some "reward")
    ≡ ok (store 1000, decompound_response (deployment rate 600) [] 0)
decompound-unbacked_example =
    decompound-unbacked (deployment rate 600) capacity documented (store 1000) env config rate 600
      (supply_info 1000) (answers rate 600 1000) (omega arith) (info "hub") (some "reward")
      (some "reward") refl refl (omega arith)

-- A rate of three and one atomic unit, with a surplus that rounds down to two.
abbrev odd_rate : ℕ
odd_rate = 3000000000000000001

decompound-panics_example :
    execute_decompound
      (deployment odd_rate 999999999999999999)
      (store 2999999999999999995)
      env
      (info "hub")
      (some "reward")
    ≡ panic
decompound-panics_example =
    decompound-panics (deployment odd_rate 999999999999999999) capacity documented
      (store 2999999999999999995) env config odd_rate 999999999999999999
      (supply_info 2999999999999999995) (answers odd_rate 999999999999999999 2999999999999999995)
      (omega arith) (info "hub") (some "reward") (some "reward") refl refl (omega arith)
      (omega arith) (omega arith)
