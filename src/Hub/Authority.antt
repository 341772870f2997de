-- ===== src/Hub/Authority.antt =====
-- Who may change the hub, and what its permissionless call sends.
use cavern_lsd_wrapper.Base.{
  kept_or, ◌≡◌, ◌≢◌, refl, String, Option, none, some, [], ◌∷◌, ok, err, generic_err, string_eq,
  map, ne→eq_false, eq_self, arith, map_option, option_or,
}
use cavern_lsd_wrapper.Std.{
  Addr, Binary, Env, seconds_of, MessageInfo, Response, wasm_execute, sub_msg, empty_response,
  add_attributes,
}
use cavern_lsd_wrapper.Basset.Hub.{Config, State}
use cavern_lsd_wrapper.Basset.Hub
use cavern_lsd_wrapper.Basset.Wrapper
use cavern_lsd_wrapper.Basset.Reward
use cavern_lsd_wrapper.Basset.Payload.{wrapper_execute, reward_execute}
use cavern_lsd_wrapper.Host.{Host}
use cavern_lsd_wrapper.Hub.Store.{Store}
use cavern_lsd_wrapper.Hub.Contract.{execute, update_field, set_creator, set_reward, set_token}

abbrev with_field : Option Addr → (Addr → Config → Config) → Config → Config
with_field (some a) write c = write a c
with_field none write c = c

fields_written :
    (owner reward token : Option Addr) (c : Config)
    → with_field token set_token (with_field reward set_reward (with_field owner set_creator c))
      ≡ record {
        creator = option_or owner c.creator;
        reward_contract = kept_or reward c.reward_contract;
        token_contract = kept_or token c.token_contract;
      }
fields_written none none none c = refl
fields_written none none (some t) c = refl
fields_written none (some r) none c = refl
fields_written none (some r) (some t) c = refl
fields_written (some o) none none c = refl
fields_written (some o) none (some t) c = refl
fields_written (some o) (some r) none c = refl
fields_written (some o) (some r) (some t) c = refl

module _ (h : Host) where
  update_field_eq :
      (raw : Option String) (v : Option Addr) (write : Addr → Config → Config) (s : Store)
      (c : Config)
      → s.config ≡ some c
      → map_option h.addr_validate raw ≡ ok v
      → update_field h raw write s ≡ ok (record s { config = some (with_field v write c) })
  unfolding update_field
  update_field_eq none none write s c e valid = simp (← e)
  update_field_eq none (some v) write s c e valid = cc
  update_field_eq (some raw) none write s c e valid = ground arith
  update_field_eq (some raw) (some v) write s c e valid = ground arith

  -- Whoever is not the creator cannot change the configuration: an update of any fields is refused.
  pub update_config-unauthorized :
      (s : Store) (env : Env) (info : MessageInfo) (conf : Config)
      (owner reward token : Option String)
      → s.config ≡ some conf
      → info.sender ≢ conf.creator
      → execute h s env info (Hub.ExecuteMsg.update_config owner reward token)
        ≡ err (generic_err "unauthorized")
  unfolding execute
  update_config-unauthorized s env info conf owner reward token e ne =
      simp (e, ne→eq_false info.sender conf.creator ne)

  -- An update by the creator whose addresses are valid writes exactly the fields that it gives, and
  -- leaves the parameters and the state alone.
  pub update_config-writes :
      (s : Store) (env : Env) (info : MessageInfo) (conf : Config)
      (owner reward token owner' reward' token' : Option String)
      → s.config ≡ some conf
      → info.sender ≡ conf.creator
      → map_option h.addr_validate owner ≡ ok owner'
      → map_option h.addr_validate reward ≡ ok reward'
      → map_option h.addr_validate token ≡ ok token'
      → (r : Response) × (execute h s env info (Hub.ExecuteMsg.update_config owner reward token)
          ≡ ok (
            record s {
              config = some (record {
                creator = option_or owner' conf.creator;
                reward_contract = kept_or reward' conf.reward_contract;
                token_contract = kept_or token' conf.token_contract;
              });
            },
            r,
          ))
  unfolding execute
  update_config-writes s env info conf owner reward token owner' reward' token' e same vo vr vt =
      let c₁ = with_field owner' set_creator conf in
      let c₂ = with_field reward' set_reward c₁ in
      (
        add_attributes (("action", "update_config") ∷ []) empty_response,
        simp (
          e,
          same,
          eq_self conf.creator,
          update_field_eq owner owner' set_creator s conf e vo,
          update_field_eq reward reward' set_reward (record s { config = some c₁ }) c₁ refl vr,
          update_field_eq token token' set_token (record s { config = some c₂ }) c₂ refl vt,
          fields_written owner' reward' token' conf,
        ),
      )

  -- The permissionless update succeeds once both contracts are registered, whoever calls it: it
  -- sends the wrapper a decompounding to the reward contract, then the reward contract its swap,
  -- and it records the block time and nothing else.
  pub update_global-sends :
      (s : Store) (env : Env) (info : MessageInfo) (conf : Config) (state : State)
      (reward token : Addr) (decompound swap : Binary)
      → s.config ≡ some conf
      → s.state ≡ some state
      → conf.reward_contract ≡ some reward
      → conf.token_contract ≡ some token
      → h.to_binary (wrapper_execute (Wrapper.ExecuteMsg.decompound (some reward))) ≡ ok decompound
      → h.to_binary (reward_execute Reward.ExecuteMsg.swap_to_reward_denom) ≡ ok swap
      → execute h s env info Hub.ExecuteMsg.update_global_index
        ≡ ok (
          record s {
            state = some (record state { last_index_modification = seconds_of env.nanos });
          },
          record {
            messages =
                map sub_msg (wasm_execute token decompound [] ∷ wasm_execute reward swap [] ∷ []);
            attributes = ("action", "update_global_index") ∷ [];
          },
        )
  unfolding execute
  update_global-sends s env info conf state reward token decompound swap e es er et ed ew =
      simp (e, es, er, et, ed, ew)
