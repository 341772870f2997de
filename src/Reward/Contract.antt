-- ===== src/Reward/Contract.antt =====
-- contracts/cavern-lsd-reward/src/contract.rs: the entry points.
use cavern_lsd_wrapper.Base.{
  String, Bool, true, false, Option, none, some, List, [], ◌∷◌, ◌==◌, string_eq, ◌||◌,
  if◌then◌else◌, ok, generic_err, ensure, load, map_option, map_outcome, option_or, StdResult,
  ◌>>=◌, ◌>>◌,
}
use cavern_lsd_wrapper.Std.{
  Addr, Binary, Env, MessageInfo, Response, empty_response, add_attributes,
}
use cavern_lsd_wrapper.Basset.Reward
use cavern_lsd_wrapper.Basset.Reward.{InstantiateMsg, ExecuteMsg, QueryMsg, MigrateMsg}
use cavern_lsd_wrapper.Basset.Payload.{reward_config, accrued_rewards_response}
use cavern_lsd_wrapper.Host.{Host}
use cavern_lsd_wrapper.Reward.Store.{Store, Config, read_config, store_config, store_state}
use cavern_lsd_wrapper.Reward.Global.{execute_swap}
use cavern_lsd_wrapper.Reward.User.{execute_claim_rewards, query_accrued_rewards}

abbrev pub contains : String → List String → Bool
contains x [] = false
contains x (y ∷ ys) = x == y || contains x ys

-- `all` with the insertion into the set of what was seen.
unfoldable pub all_new : List String → List String → Bool
all_new seen [] = true
all_new seen (x ∷ xs) = let rest = all_new (x ∷ seen) xs in if contains x seen then false else rest

unfoldable pub has_unique_elements : List String → Bool
unfolding all_new
has_unique_elements list = all_new [] list

abbrev pub duplicates_message : String
duplicates_message = "Known tokens shouldn't contain duplicate assets"

module _ (h : Host) where
  unfoldable pub instantiate :
      Store → Env → MessageInfo → InstantiateMsg → StdResult (Store × Response)
  unfolding has_unique_elements map_outcome
  instantiate s env info msg = do
    ensure (has_unique_elements msg.known_tokens) (generic_err duplicates_message)
    hub_contract ← h.addr_validate msg.hub_contract
    known_cw20_tokens ← map_outcome h.addr_validate msg.known_tokens
    let s' =
        store_state
          (store_config s (record {
            owner = info.sender;
            hub_contract = hub_contract;
            custody_contract = none;
            reward_denom = msg.reward_denom;
            known_cw20_tokens = known_cw20_tokens;
          }))
          (record { global_index = 0; total_balance = 0; prev_reward_balance = 0 })
    astroport_addr ← h.addr_validate msg.astroport_addr
    phoenix_addr ← h.addr_validate msg.phoenix_addr
    terraswap_addr ← h.addr_validate msg.terraswap_addr
    ok (
      record s' {
        swap_config = some (record {
          astroport_addr = astroport_addr;
          phoenix_addr = phoenix_addr;
          terraswap_addr = terraswap_addr;
        });
      },
      empty_response,
    )

  -- An optional address, or the old value.
  abbrev pub validated_or : Option String → Addr → StdResult Addr
  validated_or raw old = map_option h.addr_validate raw >>= λ v. ok (option_or v old)

  -- The optional custody contract.
  abbrev pub validated_custody : Option String → Option Addr → StdResult (Option Addr)
  validated_custody none old = ok old
  validated_custody (some raw) old = h.addr_validate raw >>= λ v. ok (some v)

  -- The optional list of tokens, which must not repeat.
  abbrev pub validated_tokens : Option (List String) → List Addr → StdResult (List Addr)
  validated_tokens none old = ok old
  validated_tokens (some raw) old =
      ensure (has_unique_elements raw) (generic_err duplicates_message)
      >> map_outcome h.addr_validate raw

  unfoldable pub set_custody_contract :
      Store
      → MessageInfo
      → Option String
      → Option String
      → Option (List String)
      → Option String
      → Option String
      → Option String
      → StdResult (Store × Response)
  unfolding has_unique_elements map_outcome
  set_custody_contract s info owner custody_contract known_tokens astroport phoenix terraswap = do
    config ← read_config s
    swap_config ← load s.swap_config
    ensure (info.sender == config.owner) (generic_err "unauthorized")
    owner' ← validated_or owner config.owner
    custody' ← validated_custody custody_contract config.custody_contract
    astroport_addr ← validated_or astroport swap_config.astroport_addr
    phoenix_addr ← validated_or phoenix swap_config.phoenix_addr
    terraswap_addr ← validated_or terraswap swap_config.terraswap_addr
    known_cw20_tokens ← validated_tokens known_tokens config.known_cw20_tokens
    ok (
      record s {
        config = some (record config {
          owner = owner';
          custody_contract = custody';
          known_cw20_tokens = known_cw20_tokens;
        });
        swap_config = some (record {
          astroport_addr = astroport_addr;
          phoenix_addr = phoenix_addr;
          terraswap_addr = terraswap_addr;
        });
      },
      add_attributes (("action", "set_custody_contract") ∷ []) empty_response,
    )

  unfoldable pub execute : Store → Env → MessageInfo → ExecuteMsg → StdResult (Store × Response)
  execute s env info (Reward.ExecuteMsg.claim_rewards recipient) =
      execute_claim_rewards h s env info recipient >>= λ r. ok (s, r)
  execute s env info Reward.ExecuteMsg.swap_to_reward_denom =
      execute_swap h s env info >>= λ r. ok (s, r)
  execute s env info
        (Reward.ExecuteMsg.update_config owner custody known_tokens astroport phoenix terraswap) =
      set_custody_contract s info owner custody known_tokens astroport phoenix terraswap

unfoldable pub query_config : Store → StdResult Config
query_config s = read_config s

unfoldable pub query : Host → Store → Env → QueryMsg → StdResult Binary
unfolding query_config query_accrued_rewards
query h s env Reward.QueryMsg.config =
    query_config s >>= λ config. h.to_binary (reward_config config)
query h s env (Reward.QueryMsg.accrued_rewards address) =
    query_accrued_rewards h s env address >>= λ response.
    h.to_binary (accrued_rewards_response response)

unfoldable pub migrate : Store → Env → MigrateMsg → StdResult (Store × Response)
migrate s env msg = ok (s, empty_response)
