-- ===== src/CustomReward/Reach.antt =====
-- The storages of the custom reward contract (packages/cavern_aAsset_custom_reward/src/contract.rs)
-- that calls and callbacks lead to from its deployment.
use cavern_lsd_wrapper.Base.{
  ℕ, ◌≡◌, refl, String, Option, none, some, ok, map_outcome, generic_err, bind_succeeded,
  ensure_succeeded, StdResult, arith, nat_eq, List,
}
use cavern_lsd_wrapper.Std.{Addr, Env, MessageInfo, Response}
use cavern_lsd_wrapper.Basset.Reward
use cavern_lsd_wrapper.Basset.Reward.{ExecuteMsg}
use cavern_lsd_wrapper.Host.{Host}
use cavern_lsd_wrapper.Reward.Reach.{
  IsConfigured, SameText, mapped-Distinct, set_custody_contract-IsConfigured,
}
use cavern_lsd_wrapper.Reward.Store.{Store as RewardStore}
use cavern_lsd_wrapper.Reward.Contract.{
  has_unique_elements, duplicates_message, set_custody_contract, execute as reward_contract_execute,
}
use cavern_lsd_wrapper.CustomReward.Trait.{ExecuteWithSwapReply, InstantiateMsg}
use cavern_lsd_wrapper.CustomReward.Store.{Store}
use cavern_lsd_wrapper.CustomReward.Contract.{instantiate, execute, reply}
use cavern_lsd_wrapper.CustomReward.Same.{on_base, execute-on_base}

module _ {R C : Type 0} (t : ExecuteWithSwapReply R C) where
  -- The items of the reward contract are well formed, and the retrieve configuration is the one
  -- that was validated at the deployment.
  abbrev pub IsReady : Addr → String → C → Store C → Type 0
  IsReady hub denom c s = IsConfigured hub denom s.base × (s.retrieve_config ≡ some c)

  -- The storages of a contract deployed for `hub`, `denom` and the retrieve configuration `c`.
  pub data Reachable (hub : Addr) (denom : String) (c : C) : Store C → Type 0 where
    deployed :
        (h : Host) (s s' : Store C) (env : Env) (info : MessageInfo) (msg : InstantiateMsg R)
        (r : Response)
        → SameText h
        → h.addr_validate msg.hub_contract ≡ ok hub
        → msg.reward_denom ≡ denom
        → t.validate_retrieve_config h msg.retrieve_config ≡ ok c
        → instantiate h t s env info msg ≡ ok (s', r)
        → Reachable hub denom c s'
    called :
        (h : Host) (s s' : Store C) (env : Env) (info : MessageInfo) (msg : ExecuteMsg)
        (r : Response)
        → SameText h
        → Reachable hub denom c s
        → execute h t s env info msg ≡ ok (s', r)
        → Reachable hub denom c s'
    called_back :
        (h : Host) (s s' : Store C) (env : Env) (id : ℕ) (r : Response)
        → Reachable hub denom c s
        → reply h t s env id ≡ ok (s', r)
        → Reachable hub denom c s'

  instantiate-IsReady :
      (h : Host) (same_text : SameText h) (hub : Addr) (c : C) (s s' : Store C) (env : Env)
      (info : MessageInfo) (msg : InstantiateMsg R) (r : Response)
      → h.addr_validate msg.hub_contract ≡ ok hub
      → t.validate_retrieve_config h msg.retrieve_config ≡ ok c
      → instantiate h t s env info msg ≡ ok (s', r)
      → IsReady hub msg.reward_denom c s'
  unfolding instantiate
  instantiate-IsReady h same_text hub c s s' env info msg r valid retrieve e =
      let (unique, e₁) =
        ensure_succeeded (has_unique_elements msg.known_tokens) (generic_err duplicates_message) _
          e in
      let (a, here, e₂) = bind_succeeded (h.addr_validate msg.hub_contract) _ e₁ in
      let (k, mapped, e₃) = bind_succeeded (map_outcome h.addr_validate msg.known_tokens) _ e₂ in
      let (v, found, e₄) = bind_succeeded (t.validate_retrieve_config h msg.retrieve_config) _ e₃ in
      let (x, _, e₅) = bind_succeeded (h.addr_validate msg.astroport_addr) _ e₄ in
      let (y, _, e₆) = bind_succeeded (h.addr_validate msg.phoenix_addr) _ e₅ in
      let (z, _, e₇) = bind_succeeded (h.addr_validate msg.terraswap_addr) _ e₆ in
      (
        record {
          config = record {
            owner = info.sender;
            hub_contract = a;
            custody_contract = none;
            reward_denom = msg.reward_denom;
            known_cw20_tokens = k;
          };
          routers = record { astroport_addr = x; phoenix_addr = y; terraswap_addr = z };
          configured = ground arith;
          swap_configured = ground arith;
          same_hub = ground arith;
          same_denom = refl;
          distinct = mapped-Distinct h same_text msg.known_tokens k unique mapped;
        },
        ground arith,
      )

  -- An update of the configuration, as the reward contract does it.
  updated-IsReady :
      (h : Host) (same_text : SameText h) (hub : Addr) (denom : String) (c : C) (s s' : Store C)
      (env : Env) (info : MessageInfo) (owner custody astroport phoenix terraswap : Option String)
      (tokens : Option (List String)) (r : Response)
      → IsReady hub denom c s
      → execute h t s env info
          (Reward.ExecuteMsg.update_config owner custody tokens astroport phoenix terraswap)
        ≡ ok (s', r)
      → IsReady hub denom c s'
  unfolding reward_contract_execute
  updated-IsReady h same_text hub denom c s s' env info owner custody astroport phoenix terraswap
        tokens r (i, kept) e =
      let same =
        (execute-on_base h t s env info none owner custody tokens astroport phoenix terraswap).1 in
      let call : StdResult (RewardStore × Response) =
        set_custody_contract h s.base info owner custody tokens astroport phoenix terraswap in
      let based : on_base s call ≡ ok (s', r) = cc in
      let (done, made, e₁) = bind_succeeded call _ based in
      let base : done.0 ≡ s'.base = ground arith in
      let retrieve : s.retrieve_config ≡ s'.retrieve_config = ground arith in
      let now =
        set_custody_contract-IsConfigured h same_text hub denom s.base done.0 info owner custody
          astroport phoenix terraswap tokens done.1 i made in
      (rw (← base) now, rw (← retrieve) kept)

  execute-IsReady :
      (h : Host) (same_text : SameText h) (hub : Addr) (denom : String) (c : C) (s s' : Store C)
      (env : Env) (info : MessageInfo) (msg : ExecuteMsg) (r : Response)
      → IsReady hub denom c s
      → execute h t s env info msg ≡ ok (s', r)
      → IsReady hub denom c s'
  unfolding execute
  execute-IsReady h same_text hub denom c s s' env info (Reward.ExecuteMsg.claim_rewards to) r i e =
      let same : s ≡ s' = ground arith in rw (← same) i
  execute-IsReady h same_text hub denom c s s' env info Reward.ExecuteMsg.swap_to_reward_denom r i
        e =
      let same : s ≡ s' = ground arith in rw (← same) i
  execute-IsReady h same_text hub denom c s s' env info
        (Reward.ExecuteMsg.update_config owner custody tokens astroport phoenix terraswap) r i e =
      updated-IsReady h same_text hub denom c s s' env info owner custody astroport phoenix
        terraswap tokens r i e

  reply-same :
      (h : Host) (s s' : Store C) (env : Env) (id : ℕ) (r : Response)
      → reply h t s env id ≡ ok (s', r)
      → s ≡ s'
  unfolding reply
  reply-same h s s' env id r e = ground arith

  -- In every storage that calls and callbacks lead to, the items of the reward contract are well
  -- formed, with the hub and the reward denomination of the deployment, and the retrieve
  -- configuration is the one that was validated at the deployment.
  pub Reachable-IsReady :
      (hub : Addr) (denom : String) (c : C) (s : Store C)
      → Reachable hub denom c s
      → IsReady hub denom c s
  Reachable-IsReady hub denom c s' (deployed h s _ env info msg r text valid same retrieve e) =
      let i = instantiate-IsReady h text hub c s s' env info msg r valid retrieve e in rw (← same) i
  Reachable-IsReady hub denom c s' (called h s _ env info msg r text before e) =
      execute-IsReady h text hub denom c s s' env info msg r
        (Reachable-IsReady hub denom c s before) e
  Reachable-IsReady hub denom c s' (called_back h s _ env id r before e) =
      let same : s ≡ s' = reply-same h s s' env id r e in
      let i = Reachable-IsReady hub denom c s before in rw (← same) i
