-- ===== src/Tests/Shares.antt =====
-- A mint and a burn of a wrapper of "stuluna": with a limit, and without one at the same rate.
use cavern_lsd_wrapper.Base.{ℕ, ◌+◌, ◌*◌, ◌≤◌, ◌≡◌, refl, [], ◌∷◌, ok, arith, eq_false→ne}
use cavern_lsd_wrapper.Std.{MessageInfo, Response}
use cavern_lsd_wrapper.Basset.Wrapper
use cavern_lsd_wrapper.LsdHub.Coin.{query_exchange_rate, get_balance, deposit_funds, send_funds}
use cavern_lsd_wrapper.Custody.Coins.{coin_custody}
use cavern_lsd_wrapper.Token.Handler.{execute_mint, execute_burn}
use cavern_lsd_wrapper.Token.Solvency.RoundTrip.{mint-burn_costs_one}
use cavern_lsd_wrapper.Pricing.Bounds.{burn_payout}
use cavern_lsd_wrapper.Limited.Prices.{share_rate}
use cavern_lsd_wrapper.Limited.Contract.{execute}
use cavern_lsd_wrapper.Limited.Querier.{get_lsd_wrapper_exchange_rate}
use cavern_lsd_wrapper.Limited.Solvency.Messages.{limited_message-backed}
use cavern_lsd_wrapper.Tests.World.{one, capacity, env, info, documented}
use cavern_lsd_wrapper.Tests.Coins.{stride, custody, laws, wrapper_store, three_halves}
use cavern_lsd_wrapper.Tests.Backing.{coin_deployment, limited_store, rated, held_balance}

-- "bob" with so many coins attached.
abbrev paying : ℕ → MessageInfo
paying n = record { sender = "bob"; funds = record { denom = "stuluna"; amount = n } ∷ [] }

minted :
    (r : Response) × (execute
        (coin_deployment 900)
        limited_store
        env
        (paying 91)
        (Wrapper.ExecuteMsg.mint "bob" 100)
      ≡ ok (record limited_store { cw20 = 1100 }, r))
unfolding execute get_lsd_wrapper_exchange_rate get_balance deposit_funds
minted = (_, refl)

minted_after : custody.After env (paying 91) minted.0.messages 900 991
unfolding coin_custody minted
minted_after = refl

-- A thousand tokens over 900 coins: a hundred more cost 91.
limited_message-backed_example : 1100 * one ≤ 991 * three_halves
unfolding coin_custody
limited_message-backed_example =
    limited_message-backed (coin_deployment 900) capacity documented limited_store env (paying 91)
      stride three_halves 900 refl held_balance (λ s. s) custody laws tt 991
      (record limited_store { cw20 = 1100 }) minted.0 minted_after (omega arith)
      (eq_false→ne "bob" "wrapper" refl) (omega arith) rated (Wrapper.ExecuteMsg.mint "bob" 100)
      refl minted.1

burnt :
    (r : Response) × (execute
        (coin_deployment 900)
        limited_store
        env
        (info "bob")
        (Wrapper.ExecuteMsg.burn 100)
      ≡ ok (record limited_store { cw20 = 900 }, r))
unfolding execute get_lsd_wrapper_exchange_rate get_balance send_funds
burnt = (_, refl)

bought :
    (r : Response) × (execute_mint (coin_deployment 900) (wrapper_store 0) env (paying 67) "bob" 100
      ≡ ok (wrapper_store 100, r))
unfolding execute_mint query_exchange_rate deposit_funds
bought = (_, refl)

sold :
    (r : Response) × (execute_burn (coin_deployment 900) (wrapper_store 100) env (info "bob") 100
      ≡ ok (wrapper_store 0, r))
unfolding execute_burn query_exchange_rate send_funds
sold = (_, refl)

bought_after : custody.After env (paying 67) bought.0.messages 0 67
unfolding coin_custody bought
bought_after = refl

sold_after : custody.After env (info "bob") sold.0.messages 67 1
unfolding coin_custody sold
sold_after = refl

mint-burn_costs_one_example : (0 + 1 ≤ 1) × ((wrapper_store 0).cw20 ≡ 0)
unfolding coin_custody
mint-burn_costs_one_example =
    mint-burn_costs_one (coin_deployment 900) capacity documented (wrapper_store 0) env env
      (paying 67) (info "bob") stride three_halves refl rated rated (λ s. s) custody laws tt
      (wrapper_store 100) (wrapper_store 0) bought.0 sold.0 0 67 1 bought_after sold_after "bob" 100
      (eq_false→ne "bob" "wrapper" refl) bought.1 sold.1

-- With a supply of 10^18 and three times as much held, a burn of all asks for three units more.
last_burn : burn_payout one (share_rate one one (3 * one)) one ≡ 3 * one + 3
last_burn = refl
