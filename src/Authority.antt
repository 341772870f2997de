-- ===== src/Authority.antt =====
-- Who may ask for what, across the contracts: the wrappers obey the hub, the hub its creator, and
-- the reward contracts the hub, their owner and the custody contract.
use cavern_lsd_wrapper.Base.{◌≡◌, ◌≢◌, String, Option, some, err, generic_err, unauthorized}
use cavern_lsd_wrapper.Std.{Addr, Env, MessageInfo}
use cavern_lsd_wrapper.Basset.Wrapper
use cavern_lsd_wrapper.Basset.Reward
use cavern_lsd_wrapper.Basset.Hub
use cavern_lsd_wrapper.Host.{Host}
use cavern_lsd_wrapper.Deployment.{Deployment}
use cavern_lsd_wrapper.Token.Store.{Store as TokenStore}
use cavern_lsd_wrapper.Token.Contract.{execute as token_execute}
use cavern_lsd_wrapper.Token.Decompound.Authority.{decompound-unauthorized}
use cavern_lsd_wrapper.Limited.Store.{Store as LimitedStore}
use cavern_lsd_wrapper.Limited.Contract.{execute as limited_execute}
use cavern_lsd_wrapper.Hub.Store.{Store as HubStore}
use cavern_lsd_wrapper.Hub.Contract.{execute as hub_execute}
use cavern_lsd_wrapper.Hub.Authority.{update_config-unauthorized}
use cavern_lsd_wrapper.Reward.Store.{Config}
use cavern_lsd_wrapper.Reward.Contract.{execute as reward_contract_execute}
use cavern_lsd_wrapper.CustomReward.Store.{Store as CustomStore}
use cavern_lsd_wrapper.CustomReward.Contract.{execute as custom_execute}

module _ (h : Host) (env : Env) (info : MessageInfo) where
  -- Both wrappers refuse a decompounding that anyone but the hub asks for, and the hub an update of
  -- its configuration that anyone but its creator asks for, whatever it gives.
  pub hub-unauthorized :
      {I T S : Type 0} (p : Deployment I T S) (recipient : Option String) (s : TokenStore T S)
      (l : LimitedStore T S) (u : HubStore) (hub : Addr) (conf : Hub.Config)
      (owner reward token : Option String)
      → s.hub_contract ≡ some hub
      → l.hub_contract ≡ some hub
      → u.config ≡ some conf
      → info.sender ≢ hub
      → info.sender ≢ conf.creator
      → (token_execute p s env info (Wrapper.ExecuteMsg.decompound recipient) ≡ err unauthorized)
        × (limited_execute p l env info (Wrapper.ExecuteMsg.decompound recipient)
            ≡ err unauthorized)
        × (hub_execute h u env info (Hub.ExecuteMsg.update_config owner reward token)
            ≡ err (generic_err "unauthorized"))
  hub-unauthorized p recipient s l u hub conf owner reward token es el eu not_hub not_creator =
      let (plain, limited) = decompound-unauthorized p env info hub recipient not_hub s l es el in
      (
        plain,
        limited,
        update_config-unauthorized h u env info conf owner reward token eu not_creator,
      )
