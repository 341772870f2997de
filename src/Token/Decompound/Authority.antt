-- ===== src/Token/Decompound/Authority.antt =====
-- Who may decompound.
use cavern_lsd_wrapper.Base.{◌≡◌, ◌≢◌, String, Option, some, err, unauthorized, ne→eq_false}
use cavern_lsd_wrapper.Std.{Addr, Env, MessageInfo}
use cavern_lsd_wrapper.Basset.Wrapper
use cavern_lsd_wrapper.Deployment.{Deployment}
use cavern_lsd_wrapper.Token.Store.{Store}
use cavern_lsd_wrapper.Token.Contract.{execute}
use cavern_lsd_wrapper.Limited.Store.{Store as LimitedStore}
use cavern_lsd_wrapper.Limited.Contract.{execute as limited_execute}

module _ {I T S : Type 0} (p : Deployment I T S) (env : Env) (info : MessageInfo) (hub : Addr)
    (recipient : Option String) (stranger : info.sender ≢ hub) where
  -- Both wrappers refuse a decompounding that anyone but the hub asks for, whatever else holds.
  pub decompound-unauthorized :
      (s : Store T S) (l : LimitedStore T S)
      → s.hub_contract ≡ some hub
      → l.hub_contract ≡ some hub
      → (execute p s env info (Wrapper.ExecuteMsg.decompound recipient) ≡ err unauthorized)
        × (limited_execute p l env info (Wrapper.ExecuteMsg.decompound recipient)
            ≡ err unauthorized)
  unfolding execute limited_execute
  decompound-unauthorized s l e f = (
    simp (e, ne→eq_false info.sender hub stranger),
    simp (f, ne→eq_false info.sender hub stranger),
  )
