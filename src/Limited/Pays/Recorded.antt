-- ===== src/Limited/Pays/Recorded.antt =====
-- The decompounding as a whole: it goes through, whether the limit binds or not.
use cavern_lsd_wrapper.Base.{
  ℕ, ◌+◌, ◌-◌, ◌*◌, ◌/◌, ◌<◌, ◌≤◌, ◌≡◌, refl, String, Option, some, List, [], ◌∷◌, ok, min, map,
  arith, map_option, option_or, string_eq, eq_self, ltb, false, ◌==◌, nat_eq,
}
use cavern_lsd_wrapper.Std.{
  Addr, CosmosMsg, Env, seconds_of, MessageInfo, Response, sub_msg, add_messages, add_attributes,
  empty_response,
}
use cavern_lsd_wrapper.Std.Decimals.{Documented}
use cavern_lsd_wrapper.Deployment.{Deployment}
use cavern_lsd_wrapper.Pricing.Bounds.{spare_tokens}
use cavern_lsd_wrapper.Limited.Store.{Store, WrapperState, DecompoundState}
use cavern_lsd_wrapper.Limited.Querier.{seconds_per_year, u64_limit, get_current_exchange_rate}
use cavern_lsd_wrapper.Limited.Rewards.{rewards_of, compute_accrued_rewards}
use cavern_lsd_wrapper.Limited.Decompound.{execute_decompound}
use cavern_lsd_wrapper.Limited.Limit.{allowed_after}
use cavern_lsd_wrapper.Limited.Kept.{LimitKept}
use cavern_lsd_wrapper.Limited.Pays.{
  limit_rewards_eq, unlimited_rewards_eq, set_aside_one_eq, report_eq, next_state_eq,
}

-- The two amounts under the limit, where it leaves `left`.
abbrev pub luna_out : ℕ → WrapperState → ℕ → ℕ
luna_out one state left =
    min (state.backing_luna / one - state.wlsd_supply) (left * state.backing_luna / one / one)

abbrev pub lsd_out : ℕ → WrapperState → ℕ → ℕ
lsd_out one state left =
    min (spare_tokens one state.lsd_exchange_rate state.lsd_balance state.wlsd_supply)
      (left * state.lsd_balance / one)

-- The seconds that the decompoundings cover after one at the time of `env`.
abbrev pub covered_at : Env → DecompoundState → ℕ
covered_at env d = d.total_seconds + seconds_of env.nanos - seconds_of d.last_decompound

-- What comes out, in whole units of the underlying token, once one wrapped token is set aside.
abbrev pub taken_luna : ℕ → WrapperState → ℕ → ℕ
taken_luna one state left = luna_out one state left - state.lsd_exchange_rate / one

module _ {I T S : Type 0} (p : Deployment I T S) (cap : ℕ) (doc : Documented p.host.decimals cap)
    (m : ℕ) (s : Store T S) (env : Env) (info : MessageInfo) (recipient : Option String)
    (v : Option Addr) (cfg : T) (x : ℕ) (state : WrapperState) (ms : List CosmosMsg)
    (kept : LimitKept p.host.one m s) where
  abbrev one : ℕ
  one = p.host.one

  abbrev left : ℕ
  left = allowed_after p.host.one m (covered_at env kept.taken) - kept.taken.ratio_sum

  -- A decompounding that the hub asks for, in a storage that keeps the limit, in a later block, at a
  -- rate of at least one and with the supply backed, goes through where no value exceeds its range,
  -- more than one token comes out under the limit, what comes out is worth the token that is set
  -- aside, and the payment can be made. It records the
  -- ratio that it takes out and the time, and pays the tokens less the one in one payment.
  pub limited_decompound-pays :
      s.hub_contract ≡ some info.sender
      → s.lsd_config ≡ some cfg
      → map_option p.host.addr_validate recipient ≡ ok v
      → get_current_exchange_rate p s env ≡ ok (x, state)
      → one ≤ x
      → seconds_of kept.taken.last_decompound ≤ seconds_of env.nanos
      → kept.taken.last_decompound < env.nanos
      → kept.taken.total_seconds + seconds_of env.nanos < u64_limit
      → covered_at env kept.taken * one / seconds_per_year < cap
      → allowed_after one m (covered_at env kept.taken) < cap
      → left * state.backing_luna / one < cap
      → left * state.lsd_balance / one < cap
      → 0 < state.lsd_exchange_rate
      → state.lsd_exchange_rate < cap
      → 0 < state.backing_luna
      → state.backing_luna < cap
      → state.lsd_balance * one < cap
      → state.wlsd_supply * one < cap
      → state.wlsd_supply ≤ state.backing_luna / one
      → state.wlsd_supply * one * one / state.lsd_exchange_rate ≤ state.lsd_balance * one
      → 1 < lsd_out one state left
      → state.lsd_exchange_rate / one ≤ luna_out one state left
      → taken_luna one state left * one < cap
      → taken_luna one state left * one * one / state.backing_luna < cap
      → kept.taken.ratio_sum + taken_luna one state left * one * one / state.backing_luna < cap
      → p.hub.send_funds cfg p.host env (lsd_out one state left - 1) (option_or v info.sender)
        ≡ ok ms
      → (r : Response) × (execute_decompound p s env info recipient
          ≡ ok (
            record s {
              decompound_state = some (record {
                ratio_sum =
                    kept.taken.ratio_sum
                    + taken_luna one state left * one * one / state.backing_luna;
                total_seconds = covered_at env kept.taken;
                last_decompound = env.nanos;
              });
            },
            r,
          ))
        × (r.messages ≡ map sub_msg ms)
  unfolding execute_decompound compute_accrued_rewards rewards_of
  limited_decompound-pays hub configured valid current above later once time_fits years_fit
        allowed_fit luna_fits lsd_fits rate_pos rate_fits backing_pos backing_fits held_fits
        supply_fits luna_spare needed some_out worth taken_fits ratio_fits sum_fits sent =
      let n = lsd_out one state left in
      let l = luna_out one state left in
      let e₁ =
        unlimited_rewards_eq p cap doc state rate_pos rate_fits backing_pos backing_fits held_fits
          supply_fits luna_spare needed in
      let e₂ =
        limit_rewards_eq p cap doc m env kept.taken kept.within later time_fits s state kept.limited
          kept.recorded years_fit allowed_fit luna_fits lsd_fits
          (state.backing_luna / one - state.wlsd_supply)
          (spare_tokens one state.lsd_exchange_rate state.lsd_balance state.wlsd_supply) in
      let e₃ =
        set_aside_one_eq p cap doc state rate_pos rate_fits backing_pos backing_fits held_fits
          supply_fits l n (omega arith) worth in
      let small : n - 1 < cap = ground arith in
      let e₄ =
        report_eq p cap doc state rate_pos rate_fits backing_pos backing_fits held_fits supply_fits
          (taken_luna one state left) (n - 1) taken_fits ratio_fits small in
      let e₅ =
        next_state_eq p cap doc m env kept.taken kept.within later time_fits
          (taken_luna one state left * one * one / state.backing_luna) once sum_fits in
      let not_below : ltb x one ≡ false = ground arith in
      let pays : (n - 1 == 0) ≡ false = ground arith in
      (
        add_messages ms (
            add_attributes
              (("action", "execute_decompound")
                ∷ ("total_luna_rewards", p.host.uint_to_string (taken_luna one state left))
                ∷ [])
              empty_response),
        simp (
          hub,
          eq_self info.sender,
          valid,
          configured,
          current,
          not_below,
          e₁,
          e₂,
          e₃,
          e₄,
          kept.recorded,
          e₅,
          pays,
          sent,
        ),
        refl,
      )
