-- ===== src/CustomReward/Contract.antt =====
-- packages/cavern_aAsset_custom_reward/src/contract.rs: the entry points.
use cavern_lsd_wrapper.Base.{
  ℕ, String, Option, none, some, List, [], ◌∷◌, ◌==◌, nat_eq, string_eq, if◌then◌else◌, ok, err,
  generic_err, ensure, load, map_outcome, StdResult, ◌>>=◌, ◌>>◌,
}
use cavern_lsd_wrapper.Std.{Binary, Env, MessageInfo, Response, empty_response, add_attributes}
use cavern_lsd_wrapper.Basset.Reward
use cavern_lsd_wrapper.Basset.Reward.{ExecuteMsg, QueryMsg, MigrateMsg}
use cavern_lsd_wrapper.Basset.Payload.{reward_config, accrued_rewards_response}
use cavern_lsd_wrapper.Host.{Host}
use cavern_lsd_wrapper.CustomReward.Trait.{ExecuteWithSwapReply, InstantiateMsg}
use cavern_lsd_wrapper.CustomReward.Store.{Store}
use cavern_lsd_wrapper.CustomReward.Global.{
  execute_swap, execute_retrieve_normal_tokens, retrieve_normal_tokens_operation,
}
use cavern_lsd_wrapper.Reward.Store.{Config, read_config, store_config, store_state}
use cavern_lsd_wrapper.Reward.Contract.{
  has_unique_elements, duplicates_message, validated_or, validated_custody, validated_tokens,
}
use cavern_lsd_wrapper.Reward.User.{execute_claim_rewards, query_accrued_rewards}

module _ {R C : Type 0} (h : Host) (t : ExecuteWithSwapReply R C) where
  unfoldable pub instantiate :
      Store C → Env → MessageInfo → InstantiateMsg R → StdResult (Store C × Response)
  unfolding has_unique_elements map_outcome
  instantiate s env info msg = do
    ensure (has_unique_elements msg.known_tokens) (generic_err duplicates_message)
    hub_contract ← h.addr_validate msg.hub_contract
    known_cw20_tokens ← map_outcome h.addr_validate msg.known_tokens
    let base =
        store_state
          (store_config s.base (record {
            owner = info.sender;
            hub_contract = hub_contract;
            custody_contract = none;
            reward_denom = msg.reward_denom;
            known_cw20_tokens = known_cw20_tokens;
          }))
          (record { global_index = 0; total_balance = 0; prev_reward_balance = 0 })
    validated_retrieve_config ← t.validate_retrieve_config h msg.retrieve_config
    astroport_addr ← h.addr_validate msg.astroport_addr
    phoenix_addr ← h.addr_validate msg.phoenix_addr
    terraswap_addr ← h.addr_validate msg.terraswap_addr
    ok (
      record {
        base = record base {
          swap_config = some (record {
            astroport_addr = astroport_addr;
            phoenix_addr = phoenix_addr;
            terraswap_addr = terraswap_addr;
          });
        };
        retrieve_config = some validated_retrieve_config;
      },
      empty_response,
    )

  -- The callback of the last retrieving message.
  unfoldable pub reply : Store C → Env → ℕ → StdResult (Store C × Response)
  unfolding execute_swap
  reply s env id =
      if id == retrieve_normal_tokens_operation
      then (execute_swap h t s env >>= λ r. ok (s, r))
      else err (generic_err "Invalid Reply Id")

  unfoldable pub update_config :
      Store C
      → MessageInfo
      → Option String
      → Option String
      → Option (List String)
      → Option String
      → Option String
      → Option String
      → StdResult (Store C × Response)
  unfolding has_unique_elements map_outcome
  update_config s info owner custody_contract known_tokens astroport phoenix terraswap = do
    config ← read_config s.base
    swap_config ← load s.base.swap_config
    ensure (info.sender == config.owner) (generic_err "unauthorized")
    owner' ← validated_or h owner config.owner
    custody' ← validated_custody h custody_contract config.custody_contract
    astroport_addr ← validated_or h astroport swap_config.astroport_addr
    phoenix_addr ← validated_or h phoenix swap_config.phoenix_addr
    terraswap_addr ← validated_or h terraswap swap_config.terraswap_addr
    known_cw20_tokens ← validated_tokens h known_tokens config.known_cw20_tokens
    let base = s.base
    ok (
      record s {
        base = record base {
          config = some (record config {
            owner = owner';
            custody_contract = custody';
            known_cw20_tokens = known_cw20_tokens;
          });
          swap_config = some (record {
            astroport_addr = astroport_addr;
            phoenix_addr = phoenix_addr;
            terraswap_addr = terraswap_addr;
          });
        };
      },
      add_attributes (("action", "set_custody_contract") ∷ []) empty_response,
    )

  unfoldable pub execute : Store C → Env → MessageInfo → ExecuteMsg → StdResult (Store C × Response)
  execute s env info (Reward.ExecuteMsg.claim_rewards recipient) =
      execute_claim_rewards h s.base env info recipient >>= λ r. ok (s, r)
  execute s env info Reward.ExecuteMsg.swap_to_reward_denom = do
    config ← read_config s.base
    ensure (info.sender == config.hub_contract) (generic_err "unauthorized")
    r ← execute_retrieve_normal_tokens h t s env info
    ok (s, r)
  execute s env info
        (Reward.ExecuteMsg.update_config owner custody known_tokens astroport phoenix terraswap) =
      update_config s info owner custody known_tokens astroport phoenix terraswap

unfoldable pub query_config : {C : Type 0} → Store C → StdResult Config
query_config s = read_config s.base

unfoldable pub query : {C : Type 0} → Host → Store C → Env → QueryMsg → StdResult Binary
unfolding query_config query_accrued_rewards
query h s env Reward.QueryMsg.config =
    query_config s >>= λ config. h.to_binary (reward_config config)
query h s env (Reward.QueryMsg.accrued_rewards address) =
    query_accrued_rewards h s.base env address >>= λ response.
    h.to_binary (accrued_rewards_response response)

unfoldable pub migrate : {C : Type 0} → Store C → Env → MigrateMsg → StdResult (Store C × Response)
migrate s env msg = ok (s, empty_response)
