-- ===== src/Limited/Limit.antt =====
-- The limit on what decompoundings take out: at most the configured ratio per year.
use native.Mathlib.Nat.{mul-le-mul_right}
use cavern_lsd_wrapper.Base.{
  ℕ, ◌+◌, ◌-◌, ◌*◌, ◌/◌, ◌<◌, ◌≤◌, ◌≡◌, some, ok, ltb, ensure, arith, bind_succeeded,
  ensure_succeeded, Bool, not, std, generic_err, ContractError, ◌>>◌, Outcome-cases, inl, inr,
  ContractResult, ◌>>=◌,
}
use cavern_lsd_wrapper.Base.Floor.{div-mul-le}
use cavern_lsd_wrapper.Std.{Env, seconds_of}
use cavern_lsd_wrapper.Std.Decimals.{Documented}
use cavern_lsd_wrapper.Deployment.{Deployment}
use cavern_lsd_wrapper.Pricing.Bounds.{le_of_mul_le}
use cavern_lsd_wrapper.Limited.Store.{Store, DecompoundState, WrapperState}
use cavern_lsd_wrapper.Basset.Wrapper.{AccruedRewardsLimited}
use cavern_lsd_wrapper.Limited.Querier.{seconds_per_year, get_current_exchange_rate}
use cavern_lsd_wrapper.Limited.Rewards.{
  max_rate_at, unlimited_rewards, limit_rewards, set_aside_one, report, rewards_of,
  compute_accrued_rewards,
}
use cavern_lsd_wrapper.Token.Decompound.{no_rewards_message}
use cavern_lsd_wrapper.Limited.Decompound.{next_state}

-- What may have been taken out after `seconds`, at the ratio `m` per year.
abbrev pub allowed_after : ℕ → ℕ → ℕ → ℕ
allowed_after one m seconds = m * (seconds * one / seconds_per_year) / one

-- The record keeps the limit `m`.
unfoldable pub WithinLimit : ℕ → ℕ → DecompoundState → Type 0
WithinLimit one m d = d.ratio_sum ≤ allowed_after one m d.total_seconds

-- A ratio computed from at most what the limit leaves of the backing is within the limit.
ratio_in_limit : (one r b l : ℕ) → 0 < one → 0 < b → l ≤ r * b / one / one → l * one * one / b ≤ r
ratio_in_limit one r b l one_pos b_pos h =
    let q = r * b / one in
    let first : q * one ≤ r * b = div-mul-le (r * b) one in
    let second : q / one * one ≤ q = div-mul-le q one in
    let l_one : l * one ≤ q / one * one = mul-le-mul_right one h in
    let l_one_one : l * one * one ≤ q * one = mul-le-mul_right one (omega arith) in
    let down : l * one * one / b * b ≤ l * one * one = div-mul-le (l * one * one) b in
    le_of_mul_le (l * one * one / b) r b b_pos (omega arith)

module _ {I T S : Type 0} (p : Deployment I T S) (cap : ℕ) (doc : Documented p.host.decimals cap)
    (env : Env) (m : ℕ) (d : DecompoundState) where
  -- The seconds that the decompoundings have covered after one at the time of `env`.
  abbrev pub total : ℕ
  total = d.total_seconds + seconds_of env.nanos - seconds_of d.last_decompound

  pub max_rate_at_ok :
      {r : ℕ}
      → max_rate_at p env m d ≡ ok r
      → (d.ratio_sum ≤ allowed_after p.host.one m total)
        × (r ≡ allowed_after p.host.one m total - d.ratio_sum)
  unfolding max_rate_at
  max_rate_at_ok h = ground (
    arith,
    doc.from_ratio_law total seconds_per_year,
    doc.mul_law m (total * p.host.one / seconds_per_year),
    doc.checked_sub_law (allowed_after p.host.one m total) d.ratio_sum,
  )

  pub next_state_ok :
      (x : ℕ) {d' : DecompoundState}
      → next_state p env d x ≡ ok d'
      → (d'.ratio_sum ≡ d.ratio_sum + x) × (d'.total_seconds ≡ total)
  unfolding next_state
  next_state_ok x h = ground (arith, doc.add_law d.ratio_sum x)

  -- The record is of a later time than the one before.
  pub next_state_time :
      (x : ℕ) {d' : DecompoundState}
      → next_state p env d x ≡ ok d'
      → (d.last_decompound < env.nanos) × (d'.last_decompound ≡ env.nanos)
  unfolding next_state
  next_state_time x h = ground arith

  pub limit_rewards_ok :
      (s : Store T S) (state : WrapperState) (luna lsd luna' lsd' : ℕ)
      → s.decompound_config ≡ some (record { max_decompound_ratio = some m })
      → s.decompound_state ≡ some d
      → limit_rewards p s env state (luna, lsd) ≡ ok (luna', lsd')
      → (r : ℕ) × (max_rate_at p env m d ≡ ok r)
        × (luna' ≤ r * state.backing_luna / p.host.one / p.host.one)
        × (lsd' ≤ r * state.lsd_balance / p.host.one)
  unfolding limit_rewards
  limit_rewards_ok s state luna lsd luna' lsd' ec es h =
      elim (Outcome-cases (max_rate_at p env m d)) [
        | inl (r, e) ↦ (
          r,
          e,
          ground (
            arith,
            doc.mul_law r state.backing_luna,
            doc.mul_uint_law (r * state.backing_luna / p.host.one) 1,
            doc.mul_uint_law r state.lsd_balance,
          ),
          ground (
            arith,
            doc.mul_law r state.backing_luna,
            doc.mul_uint_law (r * state.backing_luna / p.host.one) 1,
            doc.mul_uint_law r state.lsd_balance,
          ),
        )
        | inr fails ↦ ground arith
      ]

  set_aside_one_le :
      (state : WrapperState) (luna n luna' n' : ℕ)
      → set_aside_one p state (luna, n) ≡ ok (luna', n')
      → luna' ≤ luna
  unfolding set_aside_one
  set_aside_one_le state luna n luna' n' h = ground (
    arith,
    doc.mul_uint_law state.lsd_exchange_rate 1,
    doc.uint_sub_law n 1,
    doc.uint_sub_law luna (state.lsd_exchange_rate * 1 / p.host.one),
  )

  reported :
      (luna n backing : ℕ) {rewards : AccruedRewardsLimited}
      → report p luna n backing ≡ ok rewards
      → (0 < backing) × (rewards.rate_decrease ≡ luna * p.host.one * p.host.one / backing)
  reported luna n backing h = ground (
    arith,
    doc.from_ratio_law luna 1,
    doc.div_law (luna * p.host.one) backing,
    doc.uint_mul_law n 1,
  )

  module _ (s : Store T S)
      (limited : s.decompound_config ≡ some (record { max_decompound_ratio = some m }))
      (recorded : s.decompound_state ≡ some d) where
    steps_within :
        (st : WrapperState) (l0 n0 l1 n1 l2 n2 : ℕ) {rewards : AccruedRewardsLimited}
        → limit_rewards p s env st (l0, n0) ≡ ok (l1, n1)
        → set_aside_one p st (l1, n1) ≡ ok (l2, n2)
        → report p l2 n2 st.backing_luna ≡ ok rewards
        → d.ratio_sum + rewards.rate_decrease ≤ allowed_after p.host.one m total
    steps_within st l0 n0 l1 n1 l2 n2 {rewards} e1 e2 h =
        let (r, er, le1, _) = limit_rewards_ok s st l0 n0 l1 n1 limited recorded e1 in
        let le2 : l2 ≤ l1 = set_aside_one_le st l1 n1 l2 n2 e2 in
        let (pos, same) = reported l2 n2 st.backing_luna h in
        let (le3, r_eq) = max_rate_at_ok er in
        let bound : l2 * p.host.one * p.host.one / st.backing_luna ≤ r =
          ratio_in_limit p.host.one r st.backing_luna l2 doc.one_pos pos (omega arith) in
        omega arith

    rewards_of_ok :
        (st : WrapperState) {rewards : AccruedRewardsLimited}
        → rewards_of p s env st ≡ ok rewards
        → d.ratio_sum + rewards.rate_decrease ≤ allowed_after p.host.one m total
    unfolding rewards_of
    rewards_of_ok st h =
        let aside : ℕ × ℕ → ContractResult AccruedRewardsLimited =
          λ l. set_aside_one p st l >>= λ k. report p k.0 k.1 st.backing_luna in
        let (l0, _, h1) =
          bind_succeeded (unlimited_rewards p st) (λ l. limit_rewards p s env st l >>= aside) h in
        let (l1, e1, h2) = bind_succeeded (limit_rewards p s env st l0) aside h1 in
        let (l2, e2, h3) =
          bind_succeeded (set_aside_one p st l1) (λ k. report p k.0 k.1 st.backing_luna) h2 in
        steps_within st l0.0 l0.1 l1.0 l1.1 l2.0 l2.1 e1 e2 h3

    -- What a computed reward takes out is within what the limit leaves.
    pub compute_ok :
        {rewards : AccruedRewardsLimited}
        → compute_accrued_rewards p s env ≡ ok rewards
        → d.ratio_sum + rewards.rate_decrease ≤ allowed_after p.host.one m total
    unfolding compute_accrued_rewards
    compute_ok h =
        let rated : ℕ × WrapperState → Bool = λ x. not (ltb x.0 p.host.one) in
        let below_one : ContractError = std (generic_err no_rewards_message) in
        let (x, _, h1) =
          bind_succeeded (get_current_exchange_rate p s env)
            (λ x. ensure (rated x) below_one >> rewards_of p s env x.1) h in
        rewards_of_ok x.1 (ensure_succeeded (rated x) below_one (rewards_of p s env x.1) h1).1
