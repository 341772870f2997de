-- ===== src/Custody/Calls.antt =====
-- A call of a wrapper that adds the messages of a deposit or a payment to those of the token library.
use cavern_lsd_wrapper.Base.{ℕ, ◌+◌, ◌≤◌, ◌≡◌, ◌≢◌, List, ok, subst, ◌++◌, map}
use cavern_lsd_wrapper.Std.{Addr, CosmosMsg, Env, MessageInfo, Response, sub_msg, add_messages}
use cavern_lsd_wrapper.Host.{Host}
use cavern_lsd_wrapper.LsdHub.Trait.{LsdHub}
use cavern_lsd_wrapper.Custody.{Custody}

module _ {I T : Type 0} (hub : LsdHub I T) (cfg : T) (custody : Custody hub cfg) (h : Host)
    (runs : custody.Runs h) (env : Env) (info : MessageInfo) (n : ℕ) (ms : List CosmosMsg)
    (library r : Response) (held held' : ℕ) (quiet : custody.Quiet library.messages)
    (sent : r ≡ add_messages ms library)
    (after : custody.After env info r.messages held held') where
  moved : custody.After env info (library.messages ++ map sub_msg ms) held held'
  moved = subst (λ (z : Response). custody.After env info z.messages held held') sent after

  pub deposit_received :
      info.sender ≢ env.contract
      → hub.deposit_funds cfg h env info n info.sender ≡ ok ms
      → held + n ≤ held'
  deposit_received stranger made =
      custody.deposits h env info n ms library.messages held held' runs stranger quiet made moved

  pub payment_left : (to : Addr) → hub.send_funds cfg h env n to ≡ ok ms → held ≤ held' + n
  payment_left to made =
      custody.pays h env info n to ms library.messages held held' runs quiet made moved
