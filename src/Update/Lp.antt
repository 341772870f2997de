-- ===== src/Update/Lp.antt =====
-- The global update of a wrapper with a limit (packages/cavern_lsd_wrapper_token_with_limit) whose
-- rewards go to a custom reward contract (packages/cavern_aAsset_custom_reward).
use cavern_lsd_wrapper.Base.{ℕ, []}
use cavern_lsd_wrapper.Std.{Env, MessageInfo}
use cavern_lsd_wrapper.Std.Decimals.{Documented}
use cavern_lsd_wrapper.Basset.Hub
use cavern_lsd_wrapper.Basset.Wrapper
use cavern_lsd_wrapper.Basset.Reward
use cavern_lsd_wrapper.Host.{Host}
use cavern_lsd_wrapper.Deployment.{Deployment}
use cavern_lsd_wrapper.Custody.{Custody}
use cavern_lsd_wrapper.Hub.Store.{Store as HubStore}
use cavern_lsd_wrapper.Hub.Contract.{execute as hub_execute}
use cavern_lsd_wrapper.Limited.Store.{Store}
use cavern_lsd_wrapper.Limited.Contract.{execute}
use cavern_lsd_wrapper.CustomReward.Trait.{ExecuteWithSwapReply}
use cavern_lsd_wrapper.CustomReward.Store.{Store as CustomStore}
use cavern_lsd_wrapper.CustomReward.Contract.{execute as custom_execute}
use cavern_lsd_wrapper.Update.{Routes, Chain}

-- The wrapper with a limit, and the custom reward contract.
abbrev pub retrieving :
    {I T S R C : Type 0}
    → Routes
    → Deployment I T S
    → Env
    → Host
    → ExecuteWithSwapReply R C
    → Env
    → Chain (Store T S) (CustomStore C)
retrieving routes p env h t reward_env = record {
  routes = routes;
  run_wrapper = λ s info msg. execute p s env info msg;
  run_rewards = λ q info msg. custom_execute h t q reward_env info msg;
}

module _ {I T S R C : Type 0} (c : Routes) (p : Deployment I T S) (wrapper_env : Env)
    (reward_host : Host) (t : ExecuteWithSwapReply R C) (reward_env : Env) (cap : ℕ)
    (doc : Documented p.host.decimals cap) (m : ℕ) (supply : S → ℕ) (cfg : T)
    (custody : Custody p.hub cfg) where
  -- The call by the hub, which sends no funds.
  abbrev by_hub : MessageInfo
  by_hub = record { sender = c.hub_addr; funds = [] }
