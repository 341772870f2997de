-- ===== src/CustomReward/Same.antt =====
-- packages/cavern_aAsset_custom_reward/src/contract.rs against contracts/cavern-lsd-reward: the two
-- contracts differ in the swap alone.
use cavern_lsd_wrapper.Base.{
  ◌≡◌, refl, String, Option, List, ok, StdResult, ◌>>=◌, Outcome, err, panic, load, ensure,
  generic_err, ◌==◌, string_eq,
}
use cavern_lsd_wrapper.Std.{Env, MessageInfo, Response}
use cavern_lsd_wrapper.Basset.Reward
use cavern_lsd_wrapper.Host.{Host}
use cavern_lsd_wrapper.CustomReward.Trait.{ExecuteWithSwapReply}
use cavern_lsd_wrapper.CustomReward.Store.{Store}
use cavern_lsd_wrapper.CustomReward.Contract.{execute, update_config}
use cavern_lsd_wrapper.Reward.Store.{Store as RewardStore, read_config}
use cavern_lsd_wrapper.Reward.User.{execute_claim_rewards}
use cavern_lsd_wrapper.Reward.Contract.{
  execute as reward_contract_execute, set_custody_contract, validated_or, validated_custody,
  validated_tokens,
}

-- What comes after a step is compared for each of its values.
bind_agrees :
    {E A B C : Type 0} (m : Outcome E A) (k : A → Outcome E B) (k' : A → Outcome E C)
    (g : B → Outcome E C)
    → ((a : A) → k' a ≡ (k a >>= g))
    → (m >>= k') ≡ (m >>= k >>= g)
bind_agrees panic k k' g agree = refl
bind_agrees (err e) k k' g agree = refl
bind_agrees (ok a) k k' g agree = agree a

-- The call of the reward contract, inside the storage that has a retrieve configuration as well.
abbrev pub on_base :
    {C : Type 0} → Store C → StdResult (RewardStore × Response) → StdResult (Store C × Response)
on_base s call = call >>= λ done. ok (record s { base = done.0 }, done.1)

-- A claim and an update of the configuration do in the custom reward contract what they do in the
-- reward contract, errors included, and keep the retrieve configuration.
pub execute-on_base :
    {R C : Type 0} (h : Host) (t : ExecuteWithSwapReply R C) (s : Store C) (env : Env)
    (info : MessageInfo) (recipient owner custody : Option String) (tokens : Option (List String))
    (astroport phoenix terraswap : Option String)
    → (execute h t s env info (Reward.ExecuteMsg.claim_rewards recipient)
        ≡ on_base s
            (reward_contract_execute h s.base env info (Reward.ExecuteMsg.claim_rewards recipient)))
      × (execute h t s env info
            (Reward.ExecuteMsg.update_config owner custody tokens astroport phoenix terraswap)
          ≡ on_base s (
              reward_contract_execute h s.base env info
                (Reward.ExecuteMsg.update_config owner custody tokens astroport phoenix terraswap)))
unfolding execute reward_contract_execute update_config set_custody_contract
execute-on_base h t s env info recipient owner custody tokens astroport phoenix terraswap = (
  bind_agrees (execute_claim_rewards h s.base env info recipient) _ _ _ (λ r. refl),
  bind_agrees (read_config s.base) _ _ _ (λ c. bind_agrees (load s.base.swap_config) _ _ _ (λ w.
      bind_agrees (ensure (info.sender == c.owner) (generic_err "unauthorized")) _ _ _ (λ u.
        bind_agrees (validated_or h owner c.owner) _ _ _ (λ o.
          bind_agrees (validated_custody h custody c.custody_contract) _ _ _ (λ v.
            bind_agrees (validated_or h astroport w.astroport_addr) _ _ _ (λ x.
              bind_agrees (validated_or h phoenix w.phoenix_addr) _ _ _ (λ y.
                bind_agrees (validated_or h terraswap w.terraswap_addr) _ _ _ (λ z.
                  bind_agrees (validated_tokens h tokens c.known_cw20_tokens) _ _ _
                    (λ k. refl))))))))),
)
