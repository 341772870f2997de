-- ===== src/Hub/Contract.antt =====
-- contracts/cavern-lsd-hub/src/contract.rs and config.rs.
use cavern_lsd_wrapper.Base.{
  String, Option, none, some, [], ◌∷◌, ◌==◌, string_eq, StdResult, ok, generic_err, ensure, unwrap,
  load, ok_or, ◌>>=◌, ◌>>◌,
}
use cavern_lsd_wrapper.Std.{
  Addr, Binary, wasm_execute, Env, seconds_of, MessageInfo, Response, empty_response, add_messages,
  add_attributes,
}
use cavern_lsd_wrapper.Basset.Hub
use cavern_lsd_wrapper.Basset.Hub.{
  Config, State, Parameters, InstantiateMsg, ExecuteMsg, QueryMsg, ConfigResponse, StateResponse,
}
use cavern_lsd_wrapper.Basset.Wrapper
use cavern_lsd_wrapper.Basset.Reward
use cavern_lsd_wrapper.Basset.Payload.{
  wrapper_execute, reward_execute, hub_config_response, hub_state_response, hub_parameters,
}
use cavern_lsd_wrapper.Host.{Host}
use cavern_lsd_wrapper.Hub.Store.{Store}

-- What the three closures of `CONFIG.update` write.
abbrev pub set_creator : Addr → Config → Config
set_creator a c = record c { creator = a }

abbrev pub set_reward : Addr → Config → Config
set_reward a c = record c { reward_contract = some a }

abbrev pub set_token : Addr → Config → Config
set_token a c = record c { token_contract = some a }

module _ (h : Host) where
  -- `State::default()` but for the rate and the time.
  unfoldable pub instantiate :
      Store → Env → MessageInfo → InstantiateMsg → StdResult (Store × Response)
  instantiate s env info msg = ok (
    record {
      config =
          some (record { creator = info.sender; reward_contract = none; token_contract = none });
      parameters = some (record { reward_denom = msg.reward_denom });
      state = some (record {
        exchange_rate = h.one;
        total_bond_amount = 0;
        last_index_modification = seconds_of env.nanos;
        prev_hub_balance = 0;
      });
    },
    empty_response,
  )

  unfoldable pub execute_update_global : Store → Env → StdResult (Store × Response)
  execute_update_global s env = do
    config ← load s.config
    reward_addr ←
        ok_or config.reward_contract (generic_err "the reward contract must have been registered")
    lsd_wrapper_contract ←
        ok_or config.token_contract (generic_err "the token contract must have been registered")
    decompound ← h.to_binary (wrapper_execute (Wrapper.ExecuteMsg.decompound (some reward_addr)))
    swap ← unwrap (h.to_binary (reward_execute Reward.ExecuteMsg.swap_to_reward_denom))
    last_state ← load s.state
    ok (
      record s {
        state = some (record last_state { last_index_modification = seconds_of env.nanos });
      },
      add_attributes (("action", "update_global_index") ∷ []) (
          add_messages
            (wasm_execute lsd_wrapper_contract decompound []
              ∷ wasm_execute reward_addr swap []
              ∷ [])
            empty_response),
    )

  -- One optional field: validated, and written to the stored configuration.
  unfoldable pub update_field : Option String → (Addr → Config → Config) → Store → StdResult Store
  update_field none write s = ok s
  update_field (some raw) write s = do
    addr ← h.addr_validate raw
    last_config ← load s.config
    ok (record s { config = some (write addr last_config) })

  unfoldable pub execute_update_config :
      Store
      → Env
      → MessageInfo
      → Option String
      → Option String
      → Option String
      → StdResult (Store × Response)
  execute_update_config s env info owner reward_contract token_contract = do
    conf ← load s.config
    ensure (info.sender == conf.creator) (generic_err "unauthorized")
    s₁ ← update_field owner set_creator s
    s₂ ← update_field reward_contract set_reward s₁
    s₃ ← update_field token_contract set_token s₂
    ok (s₃, add_attributes (("action", "update_config") ∷ []) empty_response)

  unfoldable pub execute : Store → Env → MessageInfo → ExecuteMsg → StdResult (Store × Response)
  unfolding execute_update_global execute_update_config
  execute s env info Hub.ExecuteMsg.update_global_index = execute_update_global s env
  execute s env info (Hub.ExecuteMsg.update_config owner reward_contract token_contract) =
      execute_update_config s env info owner reward_contract token_contract

-- The three queries, before their replies are serialized.
unfoldable pub query_config : Store → StdResult ConfigResponse
query_config s = do
  config ← load s.config
  ok (record {
    owner = config.creator;
    reward_contract = config.reward_contract;
    token_contract = config.token_contract;
  })

unfoldable pub query_state : Store → StdResult StateResponse
query_state s = do
  state ← load s.state
  ok (record {
    exchange_rate = state.exchange_rate;
    total_bond_amount = state.total_bond_amount;
    last_index_modification = state.last_index_modification;
    prev_hub_balance = state.prev_hub_balance;
  })

unfoldable pub query_params : Store → StdResult Parameters
query_params s = load s.parameters

unfoldable pub query : Host → Store → Env → QueryMsg → StdResult Binary
unfolding query_config query_state query_params
query h s env Hub.QueryMsg.config =
    query_config s >>= λ response. h.to_binary (hub_config_response response)
query h s env Hub.QueryMsg.state =
    query_state s >>= λ response. h.to_binary (hub_state_response response)
query h s env Hub.QueryMsg.parameters =
    query_params s >>= λ response. h.to_binary (hub_parameters response)

-- The message is `Empty`.
unfoldable pub migrate : Store → Env → Unit {0} → StdResult (Store × Response)
migrate s env msg = ok (s, empty_response)
