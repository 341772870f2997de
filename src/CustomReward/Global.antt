-- ===== src/CustomReward/Global.antt =====
-- packages/cavern_aAsset_custom_reward/src/global.rs
use cavern_lsd_wrapper.Base.{
  ℕ, List, [], ◌∷◌, ◌==◌, string_eq, ok, generic_err, ensure, StdResult, ◌>>=◌, ◌>>◌,
}
use cavern_lsd_wrapper.Std.{CosmosMsg, Env, MessageInfo, Response, SubMsg, sub_msg, success}
use cavern_lsd_wrapper.Host.{Host}
use cavern_lsd_wrapper.CustomReward.Trait.{ExecuteWithSwapReply}
use cavern_lsd_wrapper.CustomReward.Store.{Store}
use cavern_lsd_wrapper.Reward.Store.{read_config}
use cavern_lsd_wrapper.Reward.Global.{swap_balances}

abbrev pub retrieve_normal_tokens_operation : ℕ
retrieve_normal_tokens_operation = 1

-- `messages.last_mut()`: the last message is to call back when it succeeds.
abbrev pub with_reply : CosmosMsg → List CosmosMsg → List SubMsg
with_reply m [] = record { id = retrieve_normal_tokens_operation; msg = m; reply_on = success } ∷ []
with_reply m (next ∷ rest) = sub_msg m ∷ with_reply next rest

module _ {R C : Type 0} (h : Host) (t : ExecuteWithSwapReply R C) where
  unfoldable pub execute_swap : Store C → Env → StdResult Response
  execute_swap s env = do config ← read_config s.base; swap_balances h s.base.swap_config config env

  unfoldable pub execute_retrieve_normal_tokens : Store C → Env → MessageInfo → StdResult Response
  unfolding execute_swap
  execute_retrieve_normal_tokens s env info = do
    config ← read_config s.base
    ensure (info.sender == config.hub_contract) (generic_err "unauthorized")
    messages ← t.get_retrieve_messages h s.retrieve_config env
    elim messages [
      | [] ↦ execute_swap s env
      | m ∷ rest ↦ ok (record { messages = with_reply m rest; attributes = [] })
    ]
