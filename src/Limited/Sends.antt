-- ===== src/Limited/Sends.antt =====
-- What a decompounding of the wrapper with a limit that succeeds has sent
-- (packages/cavern_lsd_wrapper_token_with_limit/src/contract.rs).
use cavern_lsd_wrapper.Base.{
  ◌<◌, ◌≡◌, Option, some, List, [], map, ok, inl, inr, ◌⊎◌, arith, Outcome-cases, Bool-cases,
  map_option, option_or, String, ◌==◌, nat_eq,
}
use cavern_lsd_wrapper.Std.{Addr, CosmosMsg, Env, MessageInfo, Response, sub_msg}
use cavern_lsd_wrapper.Basset.Wrapper.{AccruedRewardsLimited}
use cavern_lsd_wrapper.Deployment.{Deployment}
use cavern_lsd_wrapper.Limited.Store.{Store}
use cavern_lsd_wrapper.Limited.Rewards.{compute_accrued_rewards}
use cavern_lsd_wrapper.Limited.Decompound.{execute_decompound}

module _ {I T S : Type 0} (p : Deployment I T S) (s : Store T S) (env : Env) (cfg : T)
    (has_config : s.lsd_config ≡ some cfg) where
  -- One payment of the computed rewards, or no message.
  abbrev pub SendsRewards : Response → Type 0
  SendsRewards r =
      (r.messages ≡ [])
      ⊎ ((rewards : AccruedRewardsLimited) × (to : Addr) × (ms : List CosmosMsg)
          × (compute_accrued_rewards p s env ≡ ok rewards)
          × (0 < rewards.lsd_rewards)
          × (p.hub.send_funds cfg p.host env rewards.lsd_rewards to ≡ ok ms)
          × (r.messages ≡ map sub_msg ms))

  pub decompound_sends :
      (info : MessageInfo) (recipient : Option String) (s' : Store T S) (r : Response)
      → execute_decompound p s env info recipient ≡ ok (s', r)
      → (s'.cw20 ≡ s.cw20) × SendsRewards r
  unfolding execute_decompound
  decompound_sends info recipient s' r h =
      elim (Outcome-cases (map_option p.host.addr_validate recipient)) [
        | inr fails ↦ ground arith
        | inl (v, ev) ↦ elim (Outcome-cases (compute_accrued_rewards p s env)) [
          | inr fails ↦ (ground arith, inl (ground arith))
          | inl (rewards, computed) ↦ elim (Bool-cases (rewards.lsd_rewards == 0)) [
            | inl nothing ↦ (ground arith, inl (ground arith))
            | inr some_left ↦
                elim (Outcome-cases
                  (p.hub.send_funds cfg p.host env rewards.lsd_rewards (option_or v info.sender))) [
                    | inr fails ↦ ground arith
                    | inl (ms, sent) ↦ (
                      ground arith,
                      inr (
                        rewards,
                        option_or v info.sender,
                        ms,
                        computed,
                        ground arith,
                        sent,
                        ground arith,
                      ),
                    )
                  ]
          ]
        ]
      ]
