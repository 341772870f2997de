-- ===== src/Limited/Decompound.antt =====
-- packages/cavern_lsd_wrapper_token_with_limit/src/contract.rs: `execute_decompound`, which records
-- the ratio that it takes out and the time.
use cavern_lsd_wrapper.Base.{
  ℕ, String, Option, some, List, [], ◌∷◌, ltb, not, ◌==◌, nat_eq, string_eq, if◌then◌else◌, ok, err,
  panic, generic_err, std, unauthorized, ensure, from_std, or_panic, load, map_option, option_or,
  ContractResult, ◌>>=◌, ◌>>◌,
}
use cavern_lsd_wrapper.Std.{
  Addr, CosmosMsg, Env, seconds_of, MessageInfo, Response, empty_response, add_messages,
  add_attributes,
}
use cavern_lsd_wrapper.Basset.Wrapper.{AccruedRewardsLimited, no_limited_rewards}
use cavern_lsd_wrapper.Deployment.{Deployment}
use cavern_lsd_wrapper.Limited.Store.{Store, DecompoundState, read_lsd_config}
use cavern_lsd_wrapper.Limited.Querier.{add_u64, sub_u64}
use cavern_lsd_wrapper.Limited.Rewards.{compute_accrued_rewards}
use cavern_lsd_wrapper.Token.Decompound.{is_slashing_error}

module _ {I T S : Type 0} (p : Deployment I T S) where
  -- The new record of the decompoundings after one that takes out `rate_decrease`.
  unfoldable pub next_state : Env → DecompoundState → ℕ → ContractResult DecompoundState
  next_state env old rate_decrease = do
    ensure (ltb old.last_decompound env.nanos) (std (generic_err "Can't decompound too often"))
    ratio_sum ← or_panic (p.host.add old.ratio_sum rate_decrease)
    until_now ← add_u64 old.total_seconds (seconds_of env.nanos)
    total_seconds ← sub_u64 until_now (seconds_of old.last_decompound)
    ok (record {
      ratio_sum = ratio_sum;
      total_seconds = total_seconds;
      last_decompound = env.nanos;
    })

  -- The `match` on the computed rewards.
  abbrev pub settle :
      T
      → Store T S
      → Env
      → Addr
      → ContractResult AccruedRewardsLimited
      → ContractResult (Store T S × List CosmosMsg × AccruedRewardsLimited)
  settle lsd_config s env recipient (err e) =
      if is_slashing_error e then ok (s, [], no_limited_rewards) else err e
  settle lsd_config s env recipient panic = panic
  settle lsd_config s env recipient (ok rewards) = do
    old_decompound ← from_std (load s.decompound_state)
    new_decompound ← next_state env old_decompound rewards.rate_decrease
    messages ←
        if not (rewards.lsd_rewards == 0)
        then from_std (p.hub.send_funds lsd_config p.host env rewards.lsd_rewards recipient)
        else ok []
    ok (record s { decompound_state = some new_decompound }, messages, rewards)

  unfoldable pub execute_decompound :
      Store T S → Env → MessageInfo → Option String → ContractResult (Store T S × Response)
  unfolding next_state
  execute_decompound s env info recipient = do
    hub_contract ← from_std (load s.hub_contract)
    ensure (info.sender == hub_contract) unauthorized
    validated ← from_std (map_option p.host.addr_validate recipient)
    lsd_config ← from_std (read_lsd_config s)
    (s', out_messages, accrued_rewards) ←
        settle lsd_config s env (option_or validated info.sender) (compute_accrued_rewards p s env)
    ok (
      s',
      add_messages out_messages (
          add_attributes
            (("action", "execute_decompound")
              ∷ ("total_luna_rewards", p.host.uint_to_string accrued_rewards.luna_rewards)
              ∷ [])
            empty_response),
    )
