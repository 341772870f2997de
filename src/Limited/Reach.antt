-- ===== src/Limited/Reach.antt =====
-- The storages that calls lead to keep the limit on what decompoundings take out.
pub mod Payments
use cavern_lsd_wrapper.Base.{
  ℕ, ◌+◌, ◌-◌, ◌≤◌, ◌<◌, ◌≡◌, refl, subst, ap, sym, ◌∙◌, some, ok, err, panic, arith, inl, inr,
  String, Option, ContractResult,
}
use cavern_lsd_wrapper.Std.{Env, seconds_of, MessageInfo, Response}
use cavern_lsd_wrapper.Std.Decimals.{Decimals, Documented}
use cavern_lsd_wrapper.Basset.Wrapper
use cavern_lsd_wrapper.Basset.Wrapper.{ExecuteMsg, AccruedRewardsLimited}
use cavern_lsd_wrapper.Deployment.{Deployment}
use cavern_lsd_wrapper.Limited.Store.{Store, TokenInitMsg, DecompoundState}
use cavern_lsd_wrapper.Limited.Rewards.{compute_accrued_rewards}
use cavern_lsd_wrapper.Limited.Decompound.{execute_decompound}
use cavern_lsd_wrapper.Limited.Contract.{instantiate, execute}
use cavern_lsd_wrapper.Limited.Limit.{
  WithinLimit, allowed_after, compute_ok, next_state_ok, next_state_time,
}
use cavern_lsd_wrapper.Limited.Kept.{decompound_settles, settle_cases, other_messages, Untouched}

-- The ratio of the backing that computed rewards are, where there are any.
abbrev pub ratio_of : ContractResult AccruedRewardsLimited → ℕ
ratio_of (ok rewards) = rewards.rate_decrease
ratio_of (err e) = 0
ratio_of panic = 0

-- The ratio that a message takes out: that of the rewards of a decompounding.
abbrev pub taken_out : {I T S : Type 0} → Deployment I T S → Store T S → Env → ExecuteMsg → ℕ
taken_out p s env (Wrapper.ExecuteMsg.decompound to) = ratio_of (compute_accrued_rewards p s env)
taken_out p s env _ = 0

-- The storages of a wrapper with the limit `m` that is deployed at the second `start`: what its
-- deployment leaves, and what successful calls lead to, with the sum of the ratios that they have
-- taken out. Each call has its own answers of the chain, with the same arithmetic.
pub data Reachable (I : Type 0) {T S : Type 0} (d : Decimals) (m start : ℕ)
    : Store T S → ℕ → Type 1 where
  deployed :
      (p : Deployment I T S) (s s' : Store T S) (env : Env) (info : MessageInfo)
      (msg : TokenInitMsg I) (r : Response)
      → p.host.decimals ≡ d
      → msg.max_decompound_ratio ≡ some m
      → seconds_of env.nanos ≡ start
      → instantiate p s env info msg ≡ ok (s', r)
      → Reachable I d m start s' 0
  called :
      (p : Deployment I T S) (s s' : Store T S) (env : Env) (info : MessageInfo) (msg : ExecuteMsg)
      (r : Response) (taken : ℕ)
      → p.host.decimals ≡ d
      → Reachable I d m start s taken
      → execute p s env info msg ≡ ok (s', r)
      → Reachable I d m start s' (taken + taken_out p s env msg)

-- The limit `m` is configured, the record is of the ratios taken out and of the seconds from the
-- deployment to the last decompounding, and the ratios are together at most the limit for those.
pub record Accounted {T S : Type 0} (one m start taken : ℕ) (s : Store T S) : Type 0 where
  pub limited : s.decompound_config ≡ some (record { max_decompound_ratio = some m })
  pub record_of : DecompoundState
  pub recorded : s.decompound_state ≡ some record_of
  pub sum : record_of.ratio_sum ≡ taken
  pub covered : record_of.total_seconds + start ≡ seconds_of record_of.last_decompound
  pub within : taken ≤ allowed_after one m (seconds_of record_of.last_decompound - start)

module _ {I T S : Type 0} (p : Deployment I T S) (cap : ℕ) (doc : Documented p.host.decimals cap)
    (m start taken : ℕ) where
  Accounted-Untouched :
      (s s' : Store T S) (more : ℕ)
      → Untouched s s'
      → more ≡ 0
      → Accounted p.host.one m start taken s
      → Accounted p.host.one m start (taken + more) s'
  Accounted-Untouched s s' more (same_config, same_state) none_taken a =
      let same : taken ≡ taken + more = omega arith in
      record {
        limited = same_config ∙ a.limited;
        record_of = a.record_of;
        recorded = same_state ∙ a.recorded;
        sum = a.sum ∙ same;
        covered = a.covered;
        within =
            subst
              (λ (t : ℕ).
                t ≤ allowed_after p.host.one m (seconds_of a.record_of.last_decompound - start))
              same a.within;
      }

  decompound-Accounted :
      (s s' : Store T S) (env : Env) (info : MessageInfo) (recipient : Option String) (r : Response)
      → Accounted p.host.one m start taken s
      → execute_decompound p s env info recipient ≡ ok (s', r)
      → Accounted p.host.one m start
          (taken + taken_out p s env (Wrapper.ExecuteMsg.decompound recipient))
          s'
  decompound-Accounted s s' env info recipient r a h =
      let d = a.record_of in
      let (cfg, to, ms, paid, settled) =
        decompound_settles p cap doc m s s' env info recipient r h in
      elim (settle_cases p cap doc m s s' env cfg to d (compute_accrued_rewards p s env) ms paid
        a.recorded settled) [
          | inl (untouched, (e, failed)) ↦
              Accounted-Untouched s s' _ untouched (ap ratio_of failed) a
          | inr (rewards, d', computed, recorded, same_config, state') ↦
              let bound = compute_ok p cap doc env m d s a.limited a.recorded computed in
              let (sum, seconds) = next_state_ok p cap doc env m d rewards.rate_decrease recorded in
              let (later, now) = next_state_time p cap doc env m d rewards.rate_decrease recorded in
              let before = a.covered in
              let old = a.sum in
              let after : d'.total_seconds + start ≡ seconds_of env.nanos = omega arith in
              let length : d'.total_seconds ≡ seconds_of env.nanos - start = omega arith in
              let all : taken + rewards.rate_decrease
                  ≤ allowed_after p.host.one m d'.total_seconds =
                rw (seconds, ← old) bound in
              record {
                limited = same_config ∙ a.limited;
                record_of = d';
                recorded = state';
                sum = rw (taken_out, computed, sum, old);
                covered = rw (now, after);
                within = rw (taken_out, computed, now, ← length) all;
              }
        ]

  pub execute-Accounted :
      (s s' : Store T S) (env : Env) (info : MessageInfo) (msg : ExecuteMsg) (r : Response)
      → Accounted p.host.one m start taken s
      → execute p s env info msg ≡ ok (s', r)
      → Accounted p.host.one m start (taken + taken_out p s env msg) s'
  unfolding execute
  execute-Accounted s s' env info (Wrapper.ExecuteMsg.decompound recipient) r a h =
      decompound-Accounted s s' env info recipient r a h
  execute-Accounted s s' env info msg r a h =
      Accounted-Untouched s s' 0 (other_messages p s s' env info msg r refl h) refl a

  instantiate-Accounted :
      (s s' : Store T S) (env : Env) (info : MessageInfo) (msg : TokenInitMsg I) (r : Response)
      → msg.max_decompound_ratio ≡ some m
      → seconds_of env.nanos ≡ start
      → instantiate p s env info msg ≡ ok (s', r)
      → Accounted p.host.one m start 0 s'
  unfolding instantiate
  instantiate-Accounted s s' env info msg r e at_start h = record {
    limited = ground arith;
    record_of = record { ratio_sum = 0; total_seconds = 0; last_decompound = env.nanos };
    recorded = ground arith;
    sum = refl;
    covered = omega arith;
    within = omega arith;
  }

module _ {I T S : Type 0} (d : Decimals) (cap : ℕ) (doc : Documented d cap) (m start : ℕ) where
  pub Reachable-Accounted :
      (s : Store T S) (taken : ℕ) → Reachable I d m start s taken → Accounted d.one m start taken s
  Reachable-Accounted s' _ (deployed p s _ env info msg r same e at_start h) =
      let doc' : Documented p.host.decimals cap = rw same doc in
      rw (← same) (instantiate-Accounted p cap doc' m start 0 s s' env info msg r e at_start h)
  Reachable-Accounted s' _ (called p s _ env info msg r taken same before h) =
      let doc' : Documented p.host.decimals cap = rw same doc in
      let a : Accounted p.host.one m start taken s = rw same (Reachable-Accounted s taken before) in
      rw (← same) (execute-Accounted p cap doc' m start taken s s' env info msg r a h)
