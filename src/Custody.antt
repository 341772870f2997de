-- ===== src/Custody.antt =====
-- What the trait LSDHub (packages/cavern_lsd_wrapper_token/src/trait_def.rs) promises of the
-- holdings of a wrapper: the interface between a wrapper and the token that it wraps.
pub mod Moves
pub mod Tokens
pub mod Coins
pub mod Implementations
pub mod Calls
use cavern_lsd_wrapper.Base.{ℕ, ◌+◌, ◌≤◌, ◌≡◌, ◌≢◌, List, [], ◌++◌, map, ok}
use cavern_lsd_wrapper.Std.{Addr, CosmosMsg, Env, MessageInfo, SubMsg, sub_msg}
use cavern_lsd_wrapper.Host.{Host}
use cavern_lsd_wrapper.LsdHub.Trait.{LsdHub}

-- `Runs` is a host of the chain at hand, `Quiet` messages move none of the wrapped token, and
-- `After env info ms a b` is an execution of a call with its messages that takes the holdings of
-- the called contract from `a` to `b`.
pub record Custody {I T : Type 0} (hub : LsdHub I T) (cfg : T) : Type 1 where
  pub Runs : Host → Type 0
  pub Quiet : List SubMsg → Type 0
  pub After : Env → MessageInfo → List SubMsg → ℕ → ℕ → Type 0
  pub quiet_none : Quiet []
  pub keeps :
      (env : Env) (info : MessageInfo) (qs : List SubMsg) (a b : ℕ)
      → Quiet qs
      → After env info qs a b
      → a ≤ b
  pub deposits :
      (h : Host) (env : Env) (info : MessageInfo) (n : ℕ) (ms : List CosmosMsg) (qs : List SubMsg)
      (a b : ℕ)
      → Runs h
      → info.sender ≢ env.contract
      → Quiet qs
      → hub.deposit_funds cfg h env info n info.sender ≡ ok ms
      → After env info (qs ++ map sub_msg ms) a b
      → a + n ≤ b
  pub pays :
      (h : Host) (env : Env) (info : MessageInfo) (n : ℕ) (to : Addr) (ms : List CosmosMsg)
      (qs : List SubMsg) (a b : ℕ)
      → Runs h
      → Quiet qs
      → hub.send_funds cfg h env n to ≡ ok ms
      → After env info (qs ++ map sub_msg ms) a b
      → a ≤ b + n
