-- ===== src/Tests/Hub.antt =====
-- The hub of the account "owner", with both contracts registered and with none.
use cavern_lsd_wrapper.Base.{◌≡◌, refl, some, none, ok}
use cavern_lsd_wrapper.Std.{Response}
use cavern_lsd_wrapper.Basset.Hub
use cavern_lsd_wrapper.Basset.Hub.{Config, State}
use cavern_lsd_wrapper.Hub.Store
use cavern_lsd_wrapper.Hub.Contract.{execute}
use cavern_lsd_wrapper.Hub.Authority.{update_config-writes}
use cavern_lsd_wrapper.Tests.World.{one, host, env, info}

abbrev fresh : Config
fresh = record { creator = "owner"; reward_contract = none; token_contract = none }

abbrev pub registered : Config
registered = record {
  creator = "owner";
  reward_contract = some "reward";
  token_contract = some "token";
}

abbrev pub state : State
state = record {
  exchange_rate = one;
  total_bond_amount = 0;
  last_index_modification = 5;
  prev_hub_balance = 0;
}

abbrev pub hub_store : Config → Store.Store
hub_store c = record {
  config = some c;
  parameters = some (record { reward_denom = "uusd" });
  state = some state;
}

update_config-writes_example :
    (r : Response) × (execute
        (host one 0)
        (hub_store fresh)
        env
        (info "owner")
        (Hub.ExecuteMsg.update_config none (some "reward") (some "token"))
      ≡ ok (hub_store registered, r))
update_config-writes_example =
    update_config-writes (host one 0) (hub_store fresh) env (info "owner") fresh none
      (some "reward") (some "token") none (some "reward") (some "token") refl refl refl refl refl
