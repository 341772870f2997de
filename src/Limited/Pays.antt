-- ===== src/Limited/Pays.antt =====
-- A decompounding of the wrapper with a limit goes through, and what it pays and records.
pub mod Recorded
use native.Mathlib.Nat.{div-le_self}
use cavern_lsd_wrapper.Base.{
  ℕ, ◌+◌, ◌-◌, ◌*◌, ◌/◌, ◌<◌, ◌≤◌, ◌≡◌, String, Option, some, List, ok, min, map, ltb, not, arith,
  map_option, option_or, string_eq, eq_self, ltb→lt, lt→ltb,
}
use cavern_lsd_wrapper.Std.{Addr, CosmosMsg, Env, seconds_of, MessageInfo, Response, sub_msg}
use cavern_lsd_wrapper.Std.Decimals.{Documented}
use cavern_lsd_wrapper.Deployment.{Deployment}
use cavern_lsd_wrapper.Pricing.Bounds.{spare_tokens}
use cavern_lsd_wrapper.Pricing.Operations.{
  whole, divided, floored, subtracted, uint_subtracted, unit_product,
}
use cavern_lsd_wrapper.Limited.Store.{Store, WrapperState, DecompoundState}
use cavern_lsd_wrapper.Limited.Querier.{seconds_per_year, u64_limit, get_current_exchange_rate}
use cavern_lsd_wrapper.Limited.Rewards.{
  max_rate_at, unlimited_rewards, limit_rewards, set_aside_one, report, rewards_of,
  compute_accrued_rewards,
}
use cavern_lsd_wrapper.Limited.Decompound.{next_state, execute_decompound}
use cavern_lsd_wrapper.Limited.Limit.{allowed_after, WithinLimit}
use cavern_lsd_wrapper.Limited.Expected.{allowed_after_mono}
use cavern_lsd_wrapper.Limited.Kept.{LimitKept}

module _ {I T S : Type 0} (p : Deployment I T S) (cap : ℕ) (doc : Documented p.host.decimals cap)
    (m : ℕ) (env : Env) (d : DecompoundState) (within : WithinLimit p.host.one m d)
    (later : seconds_of d.last_decompound ≤ seconds_of env.nanos)
    (time_fits : d.total_seconds + seconds_of env.nanos < u64_limit) where
  -- The seconds covered with this decompounding, and the ratio that the limit leaves for it.
  abbrev covered : ℕ
  covered = d.total_seconds + seconds_of env.nanos - seconds_of d.last_decompound

  abbrev left : ℕ
  left = allowed_after p.host.one m covered - d.ratio_sum

  max_rate_at_eq :
      covered * p.host.one / seconds_per_year < cap
      → allowed_after p.host.one m covered < cap
      → max_rate_at p env m d ≡ ok left
  unfolding max_rate_at WithinLimit
  max_rate_at_eq years_fit allowed_fits = ground (
    arith,
    doc.one_pos,
    doc.from_ratio_law covered seconds_per_year,
    doc.mul_law m (covered * p.host.one / seconds_per_year),
    doc.checked_sub_law (allowed_after p.host.one m covered) d.ratio_sum,
    allowed_after_mono p.host.one m d.total_seconds covered doc.one_pos (omega arith),
  )

  next_state_eq :
      (x : ℕ)
      → d.last_decompound < env.nanos
      → d.ratio_sum + x < cap
      → next_state p env d x
        ≡ ok (record {
          ratio_sum = d.ratio_sum + x;
          total_seconds = covered;
          last_decompound = env.nanos;
        })
  unfolding next_state
  next_state_eq x once fits = ground (arith, doc.add_law d.ratio_sum x)

  module _ (s : Store T S) (state : WrapperState)
      (limited : s.decompound_config ≡ some (record { max_decompound_ratio = some m }))
      (recorded : s.decompound_state ≡ some d)
      (years_fit : covered * p.host.one / seconds_per_year < cap)
      (allowed_fit : allowed_after p.host.one m covered < cap)
      (luna_fits : left * state.backing_luna / p.host.one < cap)
      (lsd_fits : left * state.lsd_balance / p.host.one < cap) where
    limit_rewards_eq :
        (luna n : ℕ)
        → limit_rewards p s env state (luna, n)
          ≡ ok (
            min luna (left * state.backing_luna / p.host.one / p.host.one),
            min n (left * state.lsd_balance / p.host.one),
          )
    unfolding limit_rewards
    limit_rewards_eq luna n = ground (
      arith,
      limited,
      recorded,
      max_rate_at_eq years_fit allowed_fit,
      doc.one_pos,
      doc.mul_law left state.backing_luna,
      doc.mul_uint_law (left * state.backing_luna / p.host.one) 1,
      doc.mul_uint_law left state.lsd_balance,
      div-le_self (left * state.backing_luna / p.host.one) p.host.one,
    )

module _ {I T S : Type 0} (p : Deployment I T S) (cap : ℕ) (doc : Documented p.host.decimals cap)
    (state : WrapperState) (rate_pos : 0 < state.lsd_exchange_rate)
    (rate_fits : state.lsd_exchange_rate < cap) (backing_pos : 0 < state.backing_luna)
    (backing_fits : state.backing_luna < cap) (held_fits : state.lsd_balance * p.host.one < cap)
    (supply_fits : state.wlsd_supply * p.host.one < cap) where
  unlimited_rewards_eq :
      state.wlsd_supply ≤ state.backing_luna / p.host.one
      → state.wlsd_supply * p.host.one * p.host.one / state.lsd_exchange_rate
        ≤ state.lsd_balance * p.host.one
      → unlimited_rewards p state
        ≡ ok (
          state.backing_luna / p.host.one - state.wlsd_supply,
          spare_tokens p.host.one state.lsd_exchange_rate state.lsd_balance state.wlsd_supply,
        )
  unfolding unlimited_rewards
  unlimited_rewards_eq luna_spare needed = rw (
    floored p.host.decimals cap doc state.backing_luna backing_fits,
    uint_subtracted p.host.decimals cap doc (state.backing_luna / p.host.one) state.wlsd_supply
        luna_spare,
    whole p.host.decimals cap doc state.lsd_balance held_fits,
    whole p.host.decimals cap doc state.wlsd_supply supply_fits,
    divided p.host.decimals cap doc (state.wlsd_supply * p.host.one) state.lsd_exchange_rate
        rate_pos (omega arith),
    subtracted p.host.decimals cap doc (state.lsd_balance * p.host.one)
        (state.wlsd_supply * p.host.one * p.host.one / state.lsd_exchange_rate) needed,
    floored p.host.decimals cap doc
        (state.lsd_balance * p.host.one
          - state.wlsd_supply * p.host.one * p.host.one / state.lsd_exchange_rate)
        (omega arith),
  )

  set_aside_one_eq :
      (luna n : ℕ)
      → 0 < n
      → state.lsd_exchange_rate / p.host.one ≤ luna
      → set_aside_one p state (luna, n) ≡ ok (luna - state.lsd_exchange_rate / p.host.one, n - 1)
  unfolding set_aside_one
  set_aside_one_eq luna n some_left enough = rw (
    lt→ltb 0 n some_left,
    uint_subtracted p.host.decimals cap doc n 1 some_left,
    floored p.host.decimals cap doc state.lsd_exchange_rate rate_fits,
    uint_subtracted p.host.decimals cap doc luna (state.lsd_exchange_rate / p.host.one) enough,
  )

  report_eq :
      (luna n : ℕ)
      → luna * p.host.one < cap
      → luna * p.host.one * p.host.one / state.backing_luna < cap
      → n < cap
      → report p luna n state.backing_luna
        ≡ ok (record {
          rate_decrease = luna * p.host.one * p.host.one / state.backing_luna;
          luna_rewards = luna;
          lsd_rewards = n;
        })
  report_eq luna n fits ratio_fits n_fits = rw (
    whole p.host.decimals cap doc luna fits,
    divided p.host.decimals cap doc (luna * p.host.one) state.backing_luna backing_pos ratio_fits,
    unit_product p.host.decimals cap doc n n_fits,
  )
