-- ===== src/Token/Decompound.antt =====
-- packages/cavern_lsd_wrapper_token/src/contract.rs: what the wrapped token has earned is taken out
-- for the reward contract.
pub mod Rewards
pub mod Backed
pub mod Authority
use cavern_lsd_wrapper.Base.{
  String, Bool, true, false, Option, List, [], ◌∷◌, ltb, not, ◌==◌, nat_eq, string_eq,
  if◌then◌else◌, Outcome, ok, err, panic, StdError, generic_err, ContractError, std, unauthorized,
  ensure, from_std, or_panic, load, map_option, option_or, ContractResult, ◌>>=◌, ◌>>◌,
}
use cavern_lsd_wrapper.Std.{
  Uint128, Addr, CosmosMsg, Env, MessageInfo, Response, empty_response, add_messages,
  add_attributes,
}
use cavern_lsd_wrapper.Basset.Wrapper.{AccruedRewards, no_rewards}
use cavern_lsd_wrapper.Deployment.{Deployment}
use cavern_lsd_wrapper.Token.Store.{Store, WrapperState, read_lsd_config}
use cavern_lsd_wrapper.Token.Querier.{get_current_exchange_rate}

abbrev pub no_rewards_message : String
no_rewards_message = "No rewards to decompound"

-- `err == slashing_error`
abbrev pub is_slashing_error : ContractError → Bool
is_slashing_error (std (generic_err m)) = m == no_rewards_message
is_slashing_error _ = false

module _ {I T S : Type 0} (p : Deployment I T S) where
  -- One wrapped token is left in the wrapper, so that the supply stays backed.
  unfoldable pub set_aside_one :
      WrapperState → Uint128 → Uint128 → ContractResult (Uint128 × Uint128)
  set_aside_one state luna_rewards rewards_to_decompound =
      if ltb 0 rewards_to_decompound
      then (or_panic (p.host.uint_sub rewards_to_decompound 1) >>= λ lsd.
          or_panic (p.host.mul_uint state.lsd_exchange_rate 1) >>= λ one_lsd.
          or_panic (p.host.uint_sub luna_rewards one_lsd) >>= λ luna. ok (luna, lsd))
      else ok (luna_rewards, rewards_to_decompound)

  -- The rewards, once the rate is known not to be below one.
  unfoldable pub rewards_of : WrapperState → ContractResult AccruedRewards
  rewards_of state = do
    backing ← or_panic (p.host.mul_uint state.backing_luna 1)
    luna_rewards ← or_panic (p.host.uint_sub backing state.wlsd_supply)
    held ← or_panic (p.host.from_ratio state.lsd_balance 1)
    supply ← or_panic (p.host.from_ratio state.wlsd_supply 1)
    needed ← or_panic (p.host.div supply state.lsd_exchange_rate)
    spare ← or_panic (p.host.checked_sub held needed)
    rewards_to_decompound ← or_panic (p.host.mul_uint spare 1)
    (luna_rewards', rewards') ← set_aside_one state luna_rewards rewards_to_decompound
    luna ← or_panic (p.host.uint_mul luna_rewards' 1)
    lsd ← or_panic (p.host.uint_mul rewards' 1)
    ok (record { luna_rewards = luna; lsd_rewards = lsd })

  unfoldable pub compute_accrued_rewards : Store T S → Env → ContractResult AccruedRewards
  compute_accrued_rewards s env = do
    (current_exchange_rate, state) ← get_current_exchange_rate p s env
    ensure (not (ltb current_exchange_rate p.host.one)) (std (generic_err no_rewards_message))
    rewards_of state

  -- The `match` on the computed rewards.
  abbrev pub settle :
      T
      → Env
      → Addr
      → ContractResult AccruedRewards
      → ContractResult (List CosmosMsg × AccruedRewards)
  settle lsd_config env recipient (err e) =
      if is_slashing_error e then ok ([], no_rewards) else err e
  settle lsd_config env recipient panic = panic
  settle lsd_config env recipient (ok rewards) = do
    messages ←
        if not (rewards.lsd_rewards == 0)
        then from_std (p.hub.send_funds lsd_config p.host env rewards.lsd_rewards recipient)
        else ok []
    ok (messages, rewards)

  unfoldable pub execute_decompound :
      Store T S → Env → MessageInfo → Option String → ContractResult (Store T S × Response)
  execute_decompound s env info recipient = do
    hub_contract ← from_std (load s.hub_contract)
    ensure (info.sender == hub_contract) unauthorized
    validated ← from_std (map_option p.host.addr_validate recipient)
    lsd_config ← from_std (read_lsd_config s)
    (out_messages, accrued_rewards) ←
        settle lsd_config env (option_or validated info.sender) (compute_accrued_rewards s env)
    ok (
      s,
      add_messages out_messages (
          add_attributes
            (("action", "execute_decompound")
              ∷ ("total_luna_rewards", p.host.uint_to_string accrued_rewards.luna_rewards)
              ∷ [])
            empty_response),
    )
