-- ===== src/CustomReward/Callback.antt =====
-- packages/cavern_aAsset_custom_reward/src/global.rs: the retrieving messages, and the callback.
use cavern_lsd_wrapper.Base.{
  ℕ, ◌≡◌, refl, ap, some, List, [], ◌∷◌, ◌++◌, map, ok, err, generic_err, eq_self, nat_eq, arith,
  ◌≢◌,
}
use cavern_lsd_wrapper.Std.{CosmosMsg, Env, MessageInfo, SubMsg, sub_msg, success}
use cavern_lsd_wrapper.Basset.Reward
use cavern_lsd_wrapper.Host.{Host}
use cavern_lsd_wrapper.CustomReward.Trait.{ExecuteWithSwapReply}
use cavern_lsd_wrapper.CustomReward.Store.{Store}
use cavern_lsd_wrapper.CustomReward.Global.{
  with_reply, execute_retrieve_normal_tokens, retrieve_normal_tokens_operation,
}
use cavern_lsd_wrapper.CustomReward.Contract.{execute, reply}
use cavern_lsd_wrapper.Reward.Store.{Config}

-- The messages before the last as they are, and the last one with the callback.
abbrev pub calling_back : List CosmosMsg → CosmosMsg → List SubMsg
calling_back before last =
    map sub_msg before
    ++ (record { id = retrieve_normal_tokens_operation; msg = last; reply_on = success } ∷ [])

with_reply_eq :
    (m : CosmosMsg) (before : List CosmosMsg) (last : CosmosMsg)
    → with_reply m (before ++ (last ∷ [])) ≡ sub_msg m ∷ calling_back before last
with_reply_eq m [] last = refl
with_reply_eq m (n ∷ before) last = ap (λ ms. sub_msg m ∷ ms) (with_reply_eq n before last)

-- The retrieving messages, of which only the last one calls back.
pub with_reply_calls_back :
    (m : CosmosMsg) (rest : List CosmosMsg)
    → (before : List CosmosMsg) × (last : CosmosMsg) × (m ∷ rest ≡ before ++ (last ∷ []))
      × (with_reply m rest ≡ calling_back before last)
with_reply_calls_back m [] = ([], m, refl, refl)
with_reply_calls_back m (n ∷ rest) =
    let (before, last, split, called) = with_reply_calls_back n rest in
    (m ∷ before, last, ap (λ ms. m ∷ ms) split, ap (λ ms. sub_msg m ∷ ms) called)

module _ {R C : Type 0} (h : Host) (t : ExecuteWithSwapReply R C) (s : Store C) (env : Env)
    (info : MessageInfo) (c : Config) (configured : s.base.config ≡ some c) where
  -- The hub's swap sends the retrieving messages in their order, and only the last one calls back;
  -- where there is nothing to retrieve, it swaps at once.
  pub swap-retrieves :
      (before : List CosmosMsg) (last : CosmosMsg)
      → info.sender ≡ c.hub_contract
      → t.get_retrieve_messages h s.retrieve_config env ≡ ok (before ++ (last ∷ []))
      → execute h t s env info Reward.ExecuteMsg.swap_to_reward_denom
        ≡ ok (s, record { messages = calling_back before last; attributes = [] })
  unfolding execute execute_retrieve_normal_tokens
  swap-retrieves [] last same e = simp (configured, same, eq_self c.hub_contract, e)
  swap-retrieves (m ∷ before) last same e =
      simp (configured, same, eq_self c.hub_contract, e, with_reply_eq m before last)

  -- Where there is nothing to retrieve, the hub's swap swaps at once, as the
  -- callback does, and a callback with another number is refused.
  pub swap-at_once :
      (id : ℕ)
      → id ≢ retrieve_normal_tokens_operation
      → info.sender ≡ c.hub_contract
      → t.get_retrieve_messages h s.retrieve_config env ≡ ok []
      → (execute h t s env info Reward.ExecuteMsg.swap_to_reward_denom
          ≡ reply h t s env retrieve_normal_tokens_operation)
        × (reply h t s env id ≡ err (generic_err "Invalid Reply Id"))
  unfolding execute execute_retrieve_normal_tokens reply
  swap-at_once id other same e = (simp (configured, same, eq_self c.hub_contract, e), ground arith)
