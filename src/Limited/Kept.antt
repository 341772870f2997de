-- ===== src/Limited/Kept.antt =====
-- Every message keeps the limit on what decompoundings take out.
use cavern_lsd_wrapper.Base.{
  ℕ, ◌≡◌, refl, String, Option, some, List, ok, err, panic, false, inl, inr, ◌⊎◌, arith,
  Outcome-cases, Option-cases, ◌∙◌, map_option, option_or, ContractResult, ContractError,
}
use cavern_lsd_wrapper.Std.{Addr, CosmosMsg, Env, MessageInfo, Response}
use cavern_lsd_wrapper.Std.Decimals.{Documented}
use cavern_lsd_wrapper.Basset.Wrapper
use cavern_lsd_wrapper.Basset.Wrapper.{ExecuteMsg, is_decompound, AccruedRewardsLimited}
use cavern_lsd_wrapper.Deployment.{Deployment}
use cavern_lsd_wrapper.Limited.Store.{Store, DecompoundState}
use cavern_lsd_wrapper.Limited.Rewards.{compute_accrued_rewards}
use cavern_lsd_wrapper.Limited.Decompound.{next_state, settle, execute_decompound}
use cavern_lsd_wrapper.Limited.Contract.{execute}
use cavern_lsd_wrapper.Limited.Limit.{WithinLimit, compute_ok, next_state_ok}

-- The limit `m` is configured, and what has been taken out keeps it.
pub record LimitKept {T S : Type 0} (one m : ℕ) (s : Store T S) : Type 0 where
  pub limited : s.decompound_config ≡ some (record { max_decompound_ratio = some m })
  pub taken : DecompoundState
  pub recorded : s.decompound_state ≡ some taken
  pub within : WithinLimit one m taken

-- Neither the limit nor the record changes.
abbrev pub Untouched : {T S : Type 0} → Store T S → Store T S → Type 0
Untouched s s' =
    (s'.decompound_config ≡ s.decompound_config) × (s'.decompound_state ≡ s.decompound_state)

module _ {I T S : Type 0} (p : Deployment I T S) where
  -- A message that decompounds nothing touches neither the limit nor the record.
  pub other_messages :
      (s s' : Store T S) (env : Env) (info : MessageInfo) (msg : ExecuteMsg) (r : Response)
      → is_decompound msg ≡ false
      → execute p s env info msg ≡ ok (s', r)
      → Untouched s s'
  unfolding execute
  other_messages s s' env info (Wrapper.ExecuteMsg.transfer a b) r other h = ground arith
  other_messages s s' env info (Wrapper.ExecuteMsg.burn a) r other h = ground arith
  other_messages s s' env info Wrapper.ExecuteMsg.burn_all r other h = ground arith
  other_messages s s' env info (Wrapper.ExecuteMsg.send a b c) r other h = ground arith
  other_messages s s' env info (Wrapper.ExecuteMsg.increase_allowance a b c) r other h =
      ground arith
  other_messages s s' env info (Wrapper.ExecuteMsg.decrease_allowance a b c) r other h =
      ground arith
  other_messages s s' env info (Wrapper.ExecuteMsg.transfer_from a b c) r other h = ground arith
  other_messages s s' env info (Wrapper.ExecuteMsg.send_from a b c d) r other h = ground arith
  other_messages s s' env info (Wrapper.ExecuteMsg.burn_from a b) r other h = ground arith
  other_messages s s' env info (Wrapper.ExecuteMsg.mint a b) r other h = ground arith
  other_messages s s' env info (Wrapper.ExecuteMsg.mint_with a b) r other h = ground arith
  other_messages s s' env info (Wrapper.ExecuteMsg.update_minter a) r other h = ground arith
  other_messages s s' env info (Wrapper.ExecuteMsg.update_marketing a b c) r other h = ground arith
  other_messages s s' env info (Wrapper.ExecuteMsg.upload_logo a) r other h = ground arith
  other_messages s s' env info (Wrapper.ExecuteMsg.decompound a) r other h = cc

module _ {I T S : Type 0} (p : Deployment I T S) (cap : ℕ) (doc : Documented p.host.decimals cap)
    (m : ℕ) where
  -- The new record is the one that `next_state` gives, or the old one where there are no rewards.
  pub settle_cases :
      (s s' : Store T S) (env : Env) (cfg : T) (to : Addr) (d : DecompoundState)
      (result : ContractResult AccruedRewardsLimited) (ms : List CosmosMsg)
      (paid : AccruedRewardsLimited)
      → s.decompound_state ≡ some d
      → settle p cfg s env to result ≡ ok (s', ms, paid)
      → (Untouched s s' × ((e : ContractError) × (result ≡ err e)))
        ⊎ ((rewards : AccruedRewardsLimited) × (d' : DecompoundState) × (result ≡ ok rewards)
            × (next_state p env d rewards.rate_decrease ≡ ok d')
            × (s'.decompound_config ≡ s.decompound_config)
            × (s'.decompound_state ≡ some d'))
  settle_cases s s' env cfg to d panic ms paid recorded h = cc
  settle_cases s s' env cfg to d (err e) ms paid recorded h = inl (ground arith, (e, refl))
  settle_cases s s' env cfg to d (ok rewards) ms paid recorded h =
      elim (Outcome-cases (next_state p env d rewards.rate_decrease)) [
        | inl (d', e) ↦ inr (rewards, d', refl, e, ground arith, ground arith)
        | inr fails ↦ ground arith
      ]

  pub decompound_settles :
      (s s' : Store T S) (env : Env) (info : MessageInfo) (recipient : Option String) (r : Response)
      → execute_decompound p s env info recipient ≡ ok (s', r)
      → (cfg : T) × (to : Addr) × (ms : List CosmosMsg) × (paid : AccruedRewardsLimited) × (settle p
            cfg s env to
            (compute_accrued_rewards p s env)
          ≡ ok (s', ms, paid))
  unfolding execute_decompound
  decompound_settles s s' env info recipient r h =
      elim (Outcome-cases (map_option p.host.addr_validate recipient)) [
        | inr fails ↦ ground arith
        | inl (v, ev) ↦ elim (Option-cases s.lsd_config) [
          | inl missing ↦ ground arith
          | inr (cfg, ec) ↦
              elim (Outcome-cases
                (settle p cfg s env (option_or v info.sender) (compute_accrued_rewards p s env))) [
                  | inr fails ↦ ground arith
                  | inl ((s₁, ms, paid), e) ↦ (
                    cfg,
                    option_or v info.sender,
                    ms,
                    paid,
                    let same : s₁ ≡ s' = ground arith in rw (← same) e,
                  )
                ]
        ]
      ]

  pub LimitKept-Untouched :
      (s s' : Store T S) → Untouched s s' → LimitKept p.host.one m s → LimitKept p.host.one m s'
  LimitKept-Untouched s s' (same_config, same_state) kept = record {
    limited = same_config ∙ kept.limited;
    taken = kept.taken;
    recorded = same_state ∙ kept.recorded;
    within = kept.within;
  }

  decompound_keeps :
      (s s' : Store T S) (env : Env) (info : MessageInfo) (recipient : Option String) (r : Response)
      → LimitKept p.host.one m s
      → execute_decompound p s env info recipient ≡ ok (s', r)
      → LimitKept p.host.one m s'
  unfolding WithinLimit
  decompound_keeps s s' env info recipient r kept h =
      let (cfg, to, ms, paid, settled) = decompound_settles s s' env info recipient r h in
      elim (settle_cases s s' env cfg to kept.taken (compute_accrued_rewards p s env) ms paid
        kept.recorded settled) [
          | inl (untouched, failed) ↦ LimitKept-Untouched s s' untouched kept
          | inr (rewards, d', computed, recorded, same_config, state') ↦
              let bound =
                compute_ok p cap doc env m kept.taken s kept.limited kept.recorded computed in
              let (sum, seconds) =
                next_state_ok p cap doc env m kept.taken rewards.rate_decrease recorded in
              record {
                limited = same_config ∙ kept.limited;
                taken = d';
                recorded = state';
                within = rw (sum, seconds) bound;
              }
        ]

  -- Every message that succeeds keeps the limit: the ratios taken out so far are together at most
  -- the configured ratio per year for the seconds that the decompoundings have covered.
  pub execute-LimitKept :
      (s s' : Store T S) (env : Env) (info : MessageInfo) (msg : ExecuteMsg) (r : Response)
      → LimitKept p.host.one m s
      → execute p s env info msg ≡ ok (s', r)
      → LimitKept p.host.one m s'
  unfolding execute
  execute-LimitKept s s' env info (Wrapper.ExecuteMsg.decompound recipient) r kept h =
      decompound_keeps s s' env info recipient r kept h
  execute-LimitKept s s' env info msg r kept h =
      LimitKept-Untouched s s' (other_messages p s s' env info msg r refl h) kept
