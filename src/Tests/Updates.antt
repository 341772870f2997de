-- ===== src/Tests/Updates.antt =====
-- Updates of the configuration of the reward contract of Tests.Swap.
use cavern_lsd_wrapper.Base.{
  ◌≡◌, refl, none, some, [], ◌∷◌, ok, map_option, map_outcome, eq_false→ne,
}
use cavern_lsd_wrapper.Basset.Reward
use cavern_lsd_wrapper.Reward.Contract.{execute}
use cavern_lsd_wrapper.Reward.Updates.{update_config-writes_given}
use cavern_lsd_wrapper.Tests.World.{one, host, env, info}
use cavern_lsd_wrapper.Tests.Swap.{reward_store, configured, routers}

mapped :
    map_option (map_outcome (host one 0).addr_validate) (some ("a" ∷ "b" ∷ []))
    ≡ ok (some ("a" ∷ "b" ∷ []))
unfolding map_outcome
mapped = refl

update_config-writes_given_example :
    execute (host one 0) reward_store env (info "owner") (
      Reward.ExecuteMsg.update_config none
        (some "vault")
        (some ("a" ∷ "b" ∷ []))
        none
        (some "dex")
        none)
    ≡ ok (
      record reward_store {
        config = some (record configured {
          custody_contract = some "vault";
          known_cw20_tokens = "a" ∷ "b" ∷ [];
        });
        swap_config = some (record routers { phoenix_addr = "dex" });
      },
      record { messages = []; attributes = ("action", "set_custody_contract") ∷ [] },
    )
update_config-writes_given_example =
    update_config-writes_given (host one 0) reward_store env (info "owner") configured routers none
      (some "vault") none (some "dex") none (some ("a" ∷ "b" ∷ [])) none (some "vault") none
      (some "dex") none (some ("a" ∷ "b" ∷ [])) refl refl refl refl refl refl refl refl
      ((eq_false→ne "a" "b" refl, tt), (tt, tt)) mapped
