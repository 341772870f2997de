-- ===== src/CustomReward/Swapped.antt =====
-- What a swap of the custom reward contract that succeeds has sent, and its callback
-- (packages/cavern_aAsset_custom_reward/src/contract.rs and global.rs).
use cavern_lsd_wrapper.Base.{
  ℕ, ◌≡◌, ◌⊎◌, inl, inr, some, List, [], ◌∷◌, ok, ◌==◌, nat_eq, string_eq, generic_err,
  bind_succeeded, ensure_succeeded, Bool-cases, StdResult, arith, sym, ap, ◌++◌, ◌∙◌,
}
use cavern_lsd_wrapper.Base.Each.{Each}
use cavern_lsd_wrapper.Std.{CosmosMsg, Env, MessageInfo, Response, SubMsg}
use cavern_lsd_wrapper.Basset.Reward
use cavern_lsd_wrapper.Host.{Host}
use cavern_lsd_wrapper.CustomReward.Trait.{ExecuteWithSwapReply}
use cavern_lsd_wrapper.CustomReward.Store.{Store}
use cavern_lsd_wrapper.CustomReward.Global.{
  with_reply, execute_swap, execute_retrieve_normal_tokens, retrieve_normal_tokens_operation,
}
use cavern_lsd_wrapper.CustomReward.Contract.{execute, reply}
use cavern_lsd_wrapper.CustomReward.Callback.{calling_back, with_reply_calls_back}
use cavern_lsd_wrapper.Reward.Store.{Config, read_config}
use cavern_lsd_wrapper.Reward.Swapped.{KeepsDenom, swap_balances-KeepsDenom}

module _ {R C : Type 0} (h : Host) (t : ExecuteWithSwapReply R C) (s : Store C) (env : Env)
    (c : Config) (configured : s.base.config ≡ some c) where
  -- None of the messages sends a coin of the reward denomination.
  abbrev pub AllKeep : List SubMsg → Type 0
  AllKeep = Each (λ (m : SubMsg). KeepsDenom c.reward_denom m.msg)

  -- The messages are the retrieving ones, in their order, and only the last one calls back; or there is nothing to retrieve, and
  -- they swap.
  abbrev pub Retrieves : List SubMsg → Type 0
  Retrieves ms =
      ((t.get_retrieve_messages h s.retrieve_config env ≡ ok []) × AllKeep ms)
      ⊎ ((before : List CosmosMsg) × (last : CosmosMsg) × (t.get_retrieve_messages h
              s.retrieve_config env
            ≡ ok (before ++ (last ∷ [])))
          × (ms ≡ calling_back before last))

  swapped-AllKeep : (r : Response) → execute_swap h t s env ≡ ok r → AllKeep r.messages
  unfolding execute_swap
  swapped-AllKeep r done =
      swap_balances-KeepsDenom h s.base.swap_config c env r (simp configured at done)

  retrieved :
      (info : MessageInfo) (r : Response)
      → execute_retrieve_normal_tokens h t s env info ≡ ok r
      → Retrieves r.messages
  unfolding execute_retrieve_normal_tokens
  retrieved info r done =
      let (d, loaded, e₁) = bind_succeeded (read_config s.base) _ done in
      let (_, e₂) =
        ensure_succeeded (info.sender == d.hub_contract) (generic_err "unauthorized") _ e₁ in
      let (ms, found, e₃) = bind_succeeded (t.get_retrieve_messages h s.retrieve_config env) _ e₂ in
      go ms found e₃
    where
      go :
          (ms : List CosmosMsg)
          → t.get_retrieve_messages h s.retrieve_config env ≡ ok ms
          → (elim ms [
            | [] ↦ execute_swap h t s env
            | m ∷ rest ↦ ok (record { messages = with_reply m rest; attributes = [] })
          ])
            ≡ ok r
          → Retrieves r.messages
      go [] found e = inl (found, swapped-AllKeep r e)
      go (m ∷ rest) found e =
          let (before, last, split, called) = with_reply_calls_back m rest in
          let sent : r.messages ≡ with_reply m rest = ground arith in
          inr (before, last, found ∙ ap ok split, sent ∙ called)

  -- A swap that succeeds leaves the storage alone and retrieves or swaps.
  pub swap-Retrieves :
      (info : MessageInfo) (s' : Store C) (r : Response)
      → execute h t s env info Reward.ExecuteMsg.swap_to_reward_denom ≡ ok (s', r)
      → (s' ≡ s) × Retrieves r.messages
  unfolding execute
  swap-Retrieves info s' r done =
      let (d, loaded, e₁) = bind_succeeded (read_config s.base) _ done in
      let (_, e₂) =
        ensure_succeeded (info.sender == d.hub_contract) (generic_err "unauthorized") _ e₁ in
      let (v, sent, e₃) = bind_succeeded (execute_retrieve_normal_tokens h t s env info) _ e₂ in
      let same : v ≡ r = ground arith in (ground arith, retrieved info r (rw (← same) sent))

  -- A callback that succeeds is that of the last retrieving message; it leaves the storage alone,
  -- and its messages send none of the reward denomination.
  pub reply-AllKeep :
      (id : ℕ) (s' : Store C) (r : Response)
      → reply h t s env id ≡ ok (s', r)
      → (id ≡ retrieve_normal_tokens_operation) × (s' ≡ s) × AllKeep r.messages
  unfolding reply
  reply-AllKeep id s' r done = elim (Bool-cases (id == retrieve_normal_tokens_operation)) [
    | inr other ↦ let refused = rw other at done in ground arith
    | inl asked ↦
        let after : Response → StdResult (Store C × Response) = λ v. ok (s, v) in
        let (v, sent, e) = bind_succeeded (execute_swap h t s env) after (rw asked at done) in
        let same : v ≡ r = ground arith in
        let kept : s ≡ s' = ground arith in
        (
          (nat_eq.decides id retrieve_normal_tokens_operation).0 asked,
          sym kept,
          swapped-AllKeep r (rw (← same) sent),
        )
  ]
