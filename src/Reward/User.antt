-- ===== src/Reward/User.antt =====
-- contracts/cavern-lsd-reward/src/user.rs (and the same file of
-- packages/cavern_aAsset_custom_reward): the payment of the rewards.
use cavern_lsd_wrapper.Base.{
  String, Option, [], ◌∷◌, ◌==◌, nat_eq, string_eq, not, ok, generic_err, ensure, ok_or, unwrap_or,
  map_option, option_or, StdResult, ◌>>=◌, ◌>>◌,
}
use cavern_lsd_wrapper.Std.{
  bank_send, Env, MessageInfo, Response, empty_response, add_messages, add_attributes,
}
use cavern_lsd_wrapper.Basset.Reward.{AccruedRewardsResponse}
use cavern_lsd_wrapper.Host.{Host}
use cavern_lsd_wrapper.Reward.Store.{Store, read_config}

module _ (h : Host) where
  unfoldable pub execute_claim_rewards :
      Store → Env → MessageInfo → Option String → StdResult Response
  execute_claim_rewards s env info recipient = do
    config ← read_config s
    custody_addr ←
        ok_or config.custody_contract (generic_err "the custody contract must have been registered")
    custody ← h.addr_validate custody_addr
    ensure (info.sender == custody) (generic_err "unauthorized")
    validated ← map_option h.addr_validate recipient
    rewards ← h.query_balance env.contract config.reward_denom
    ensure (not (rewards.amount == 0)) (generic_err "No rewards have accrued yet")
    ok (
        add_messages (bank_send (option_or validated info.sender) (rewards ∷ []) ∷ []) (
          add_attributes (("action", "claim_reward") ∷ ("rewards", h.coin_to_string rewards) ∷ [])
            empty_response))

  unfoldable pub query_accrued_rewards : Store → Env → String → StdResult AccruedRewardsResponse
  query_accrued_rewards s env address = do
    config ← read_config s
    rewards ← unwrap_or (h.query_balance env.contract config.reward_denom >>= λ c. ok c.amount) 0
    ok (record { rewards = rewards })
