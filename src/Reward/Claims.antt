-- ===== src/Reward/Claims.antt =====
-- contracts/cavern-lsd-reward/src/user.rs: who is paid the rewards, and how much.
use cavern_lsd_wrapper.Base.{
  ◌≡◌, ◌≢◌, String, Option, some, [], ◌∷◌, ok, err, generic_err, map_option, option_or, eq_self,
  ne→eq_false, ◌==◌, nat_eq, Bool-cases, inl, inr, if◌then◌else◌,
}
use cavern_lsd_wrapper.Std.{Addr, Coin, Env, MessageInfo, bank_send, sub_msg}
use cavern_lsd_wrapper.Basset.Reward
use cavern_lsd_wrapper.Host.{Host}
use cavern_lsd_wrapper.Reward.Store.{Store, Config}
use cavern_lsd_wrapper.Reward.User.{execute_claim_rewards}
use cavern_lsd_wrapper.Reward.Contract.{execute}

module _ (h : Host) (s : Store) (env : Env) (info : MessageInfo) (c : Config) (custody : Addr)
    (recipient : Option String) (configured : s.config ≡ some c)
    (registered : c.custody_contract ≡ some custody)
    (custody_valid : h.addr_validate custody ≡ ok custody) where
  -- Whoever is not the custody contract is refused, whatever the balance.
  pub claim-unauthorized :
      info.sender ≢ custody
      → execute h s env info (Reward.ExecuteMsg.claim_rewards recipient)
        ≡ err (generic_err "unauthorized")
  unfolding execute execute_claim_rewards
  claim-unauthorized ne =
      simp (configured, registered, custody_valid, ne→eq_false info.sender custody ne)

  -- The custody contract, which may name a valid recipient, is paid the whole balance in the reward
  -- denomination, in one message and without a change of the storage, or is refused where the
  -- balance is zero.
  pub claim-pays :
      (rewards : Coin) (valid : Option Addr)
      → info.sender ≡ custody
      → map_option h.addr_validate recipient ≡ ok valid
      → h.query_balance env.contract c.reward_denom ≡ ok rewards
      → execute h s env info (Reward.ExecuteMsg.claim_rewards recipient) ≡ (
          if rewards.amount == 0
          then err (generic_err "No rewards have accrued yet")
          else ok (
            s,
            record {
              messages = sub_msg (bank_send (option_or valid info.sender) (rewards ∷ [])) ∷ [];
              attributes = ("action", "claim_reward") ∷ ("rewards", h.coin_to_string rewards) ∷ [];
            },
          ))
  unfolding execute execute_claim_rewards
  claim-pays rewards valid same v q =
      simp (configured, registered, custody_valid, same, eq_self custody, v, q)
        (elim (Bool-cases (rewards.amount == 0)) [
          | inl zero ↦ rw zero
          | inr some_left ↦ rw some_left
        ])
