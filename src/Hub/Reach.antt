-- ===== src/Hub/Reach.antt =====
-- The storages of the hub that calls lead to from its deployment, and what its queries answer there.
use cavern_lsd_wrapper.Base.{
  ℕ, ◌≡◌, refl, String, Option, none, some, ok, generic_err, bind_succeeded, ensure_succeeded, load,
  ◌==◌, string_eq, arith,
}
use cavern_lsd_wrapper.Std.{Addr, Env, MessageInfo, Response, seconds_of}
use cavern_lsd_wrapper.Basset.Hub
use cavern_lsd_wrapper.Basset.Hub.{Config, State, ExecuteMsg, InstantiateMsg}
use cavern_lsd_wrapper.Basset.Payload.{hub_config_response, hub_state_response, hub_parameters}
use cavern_lsd_wrapper.Host.{Host}
use cavern_lsd_wrapper.Hub.Store.{Store}
use cavern_lsd_wrapper.Hub.Contract.{
  instantiate, execute, execute_update_global, execute_update_config, update_field, set_creator,
  set_reward, set_token, query,
}

-- All three items are saved, with the denomination of the deployment; the state is the one of the
-- deployment but for the time.
pub record IsSaved (one : ℕ) (denom : String) (s : Store) : Type 0 where
  pub config : Config
  pub time : ℕ
  pub configured : s.config ≡ some config
  pub parametrized : s.parameters ≡ some (record { reward_denom = denom })
  pub stated :
      s.state
      ≡ some (record {
        exchange_rate = one;
        total_bond_amount = 0;
        last_index_modification = time;
        prev_hub_balance = 0;
      })

module _ (h : Host) (one : ℕ) (denom : String) where
  field-IsSaved :
      (raw : Option String) (write : Addr → Config → Config) (s s' : Store)
      → IsSaved one denom s
      → update_field h raw write s ≡ ok s'
      → IsSaved one denom s'
  unfolding update_field
  field-IsSaved none write s s' i e = let same : s ≡ s' = ground arith in rw (← same) i
  field-IsSaved (some raw) write s s' i e =
      let (a, _, e₁) = bind_succeeded (h.addr_validate raw) _ e in
      let (c, _, e₂) = bind_succeeded (load s.config) _ e₁ in
      let same : record s { config = some (write a c) } ≡ s' = ground arith in
      rw (← same) (record {
        config = write a c;
        time = i.time;
        configured = refl;
        parametrized = i.parametrized;
        stated = i.stated;
      })

  config-IsSaved :
      (s s' : Store) (env : Env) (info : MessageInfo) (owner reward token : Option String)
      (r : Response)
      → IsSaved one denom s
      → execute_update_config h s env info owner reward token ≡ ok (s', r)
      → IsSaved one denom s'
  unfolding execute_update_config
  config-IsSaved s s' env info owner reward token r i e =
      let (c, _, e₁) = bind_succeeded (load s.config) _ e in
      let (_, e₂) = ensure_succeeded (info.sender == c.creator) (generic_err "unauthorized") _ e₁ in
      let (s₁, f₁, e₃) = bind_succeeded (update_field h owner set_creator s) _ e₂ in
      let (s₂, f₂, e₄) = bind_succeeded (update_field h reward set_reward s₁) _ e₃ in
      let (s₃, f₃, e₅) = bind_succeeded (update_field h token set_token s₂) _ e₄ in
      let same : s₃ ≡ s' = ground arith in
      let i₁ = field-IsSaved owner set_creator s s₁ i f₁ in
      let i₂ = field-IsSaved reward set_reward s₁ s₂ i₁ f₂ in
      rw (← same) (field-IsSaved token set_token s₂ s₃ i₂ f₃)

  global-IsSaved :
      (s s' : Store) (env : Env) (r : Response)
      → IsSaved one denom s
      → execute_update_global h s env ≡ ok (s', r)
      → IsSaved one denom s'
  unfolding execute_update_global
  global-IsSaved s s' env r i e =
      let known = i.stated in
      let saved = i.configured in
      let written = i.parametrized in
      record {
        config = i.config;
        time = seconds_of env.nanos;
        configured = ground arith;
        parametrized = ground arith;
        stated = ground arith;
      }

  execute-IsSaved :
      (s s' : Store) (env : Env) (info : MessageInfo) (msg : ExecuteMsg) (r : Response)
      → IsSaved one denom s
      → execute h s env info msg ≡ ok (s', r)
      → IsSaved one denom s'
  unfolding execute
  execute-IsSaved s s' env info Hub.ExecuteMsg.update_global_index r i e =
      global-IsSaved s s' env r i e
  execute-IsSaved s s' env info (Hub.ExecuteMsg.update_config owner reward token) r i e =
      config-IsSaved s s' env info owner reward token r i e

-- The storages of a hub deployed with a reward denomination, where a decimal of one has the atomics
-- `one`. Each call has its own answers of the chain.
pub data Reachable (one : ℕ) (denom : String) : Store → Type 0 where
  deployed :
      (h : Host) (s s' : Store) (env : Env) (info : MessageInfo) (msg : InstantiateMsg)
      (r : Response)
      → h.one ≡ one
      → msg.reward_denom ≡ denom
      → instantiate h s env info msg ≡ ok (s', r)
      → Reachable one denom s'
  called :
      (h : Host) (s s' : Store) (env : Env) (info : MessageInfo) (msg : ExecuteMsg) (r : Response)
      → Reachable one denom s
      → execute h s env info msg ≡ ok (s', r)
      → Reachable one denom s'

Reachable-IsSaved :
    (one : ℕ) (denom : String) (s : Store) → Reachable one denom s → IsSaved one denom s
unfolding instantiate
Reachable-IsSaved one denom s' (deployed h s _ env info msg r scale same e) = record {
  config = record { creator = info.sender; reward_contract = none; token_contract = none };
  time = seconds_of env.nanos;
  configured = ground arith;
  parametrized = rw (← same) (ground arith);
  stated = rw (← scale) (ground arith);
}
Reachable-IsSaved one denom s' (called h s _ env info msg r before e) =
    execute-IsSaved h one denom s s' env info msg r (Reachable-IsSaved one denom s before) e

-- In every storage that calls lead to, each of the three queries has a reply, which the host
-- serializes: some configuration, the denomination of the deployment, and a state whose rate is
-- still one and whose amounts are still zero.
pub Reachable-answers :
    (one : ℕ) (denom : String) (s : Store) (h : Host) (env : Env)
    → Reachable one denom s
    → (c : Config) × (time : ℕ) × (query h s env Hub.QueryMsg.config
        ≡ h.to_binary (
            hub_config_response (record {
              owner = c.creator;
              reward_contract = c.reward_contract;
              token_contract = c.token_contract;
            })))
      × (query h s env Hub.QueryMsg.state
          ≡ h.to_binary (
              hub_state_response (record {
                exchange_rate = one;
                total_bond_amount = 0;
                last_index_modification = time;
                prev_hub_balance = 0;
              })))
      × (query h s env Hub.QueryMsg.parameters
          ≡ h.to_binary (hub_parameters (record { reward_denom = denom })))
unfolding query
Reachable-answers one denom s h env reached =
    let i = Reachable-IsSaved one denom s reached in
    (i.config, i.time, simp i.configured, simp i.stated, simp i.parametrized)
