-- ===== src/Tests/Authority.antt =====
-- What "eve", who is nobody to the contracts, is refused.
use cavern_lsd_wrapper.Base.{ℕ, ◌≡◌, refl, none, some, err, generic_err, unauthorized, eq_false→ne}
use cavern_lsd_wrapper.Basset.Wrapper
use cavern_lsd_wrapper.Basset.Hub
use cavern_lsd_wrapper.Basset.Reward
use cavern_lsd_wrapper.LsdHub.Amp.{AmphHub}
use cavern_lsd_wrapper.Token.Contract.{execute as token_execute}
use cavern_lsd_wrapper.Limited.Store.{Store as LimitedStore}
use cavern_lsd_wrapper.Limited.Contract.{execute as limited_execute}
use cavern_lsd_wrapper.Hub.Contract.{execute as hub_execute}
use cavern_lsd_wrapper.Reward.Contract.{execute as reward_contract_execute}
use cavern_lsd_wrapper.CustomReward.Store.{Store as CustomStore}
use cavern_lsd_wrapper.CustomReward.Contract.{execute as custom_execute}
use cavern_lsd_wrapper.Authority.{hub-unauthorized}
use cavern_lsd_wrapper.Tests.World.{one, host, deployment, config, store, env, info}
use cavern_lsd_wrapper.Tests.Hub.{hub_store, registered}
use cavern_lsd_wrapper.Tests.Swap.{reward_store}

abbrev limited_store : LimitedStore AmphHub ℕ
limited_store = record {
  lsd_config = some config;
  hub_contract = some "hub";
  decompound_state = none;
  decompound_config = none;
  cw20 = 5;
}

abbrev custom_store : CustomStore (Unit {0})
custom_store = record { base = reward_store; retrieve_config = some tt }

hub-unauthorized_example :
    (token_execute
        (deployment one 7)
        (store 5)
        env
        (info "eve")
        (Wrapper.ExecuteMsg.decompound none)
      ≡ err unauthorized)
    × (limited_execute
          (deployment one 7)
          limited_store
          env
          (info "eve")
          (Wrapper.ExecuteMsg.decompound none)
        ≡ err unauthorized)
    × (hub_execute
          (host one 0)
          (hub_store registered)
          env
          (info "eve")
          (Hub.ExecuteMsg.update_config (some "eve") none none)
        ≡ err (generic_err "unauthorized"))
hub-unauthorized_example =
    hub-unauthorized (host one 0) env (info "eve") (deployment one 7) none (store 5) limited_store
      (hub_store registered) "hub" registered (some "eve") none none refl refl refl
      (eq_false→ne "eve" "hub" refl) (eq_false→ne "eve" "owner" refl)

abbrev update : Reward.ExecuteMsg
update = Reward.ExecuteMsg.update_config (some "eve") none none none none none
