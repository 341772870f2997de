-- ===== src/Token/Decompound/Rewards.antt =====
-- What a decompounding takes out, on every branch, and that the wrapper stays backed.
use native.Mathlib.Nat.{div-le_self}
use cavern_lsd_wrapper.Base.{
  ℕ, ◌-◌, ◌*◌, ◌/◌, ◌<◌, ◌≤◌, ◌≡◌, refl, inl, inr, ltb, ok, panic, Bool-cases, ContractResult,
  arith, zero, suc, ltb→lt, lt→ltb, ◌>>=◌, or_panic, ◌&&◌, if◌then◌else◌,
}
use cavern_lsd_wrapper.Std.Decimals.{Documented}
use cavern_lsd_wrapper.Deployment.{Deployment}
use cavern_lsd_wrapper.Basset.Wrapper.{AccruedRewards}
use cavern_lsd_wrapper.Pricing.Operations.{
  whole, divided, floored, subtracted, uint_subtracted, uint_underflow, unit_product,
}
use cavern_lsd_wrapper.Pricing.Bounds.{spare_tokens}
use cavern_lsd_wrapper.Token.Store.{WrapperState}
use cavern_lsd_wrapper.Token.Decompound.{rewards_of, set_aside_one}

-- Both rewards after one wrapped token is set aside from `n` spare ones: the value of that token
-- must be left in `luna`.
abbrev pub after_set_aside :
    {I T S : Type 0} → Deployment I T S → ℕ → ℕ → ℕ → ContractResult (ℕ × ℕ)
after_set_aside p rate luna n =
    if ltb 0 n && ltb luna (rate / p.host.one)
    then panic
    else ok (if ltb 0 n then luna - rate / p.host.one else luna, n - 1)

module _ {I T S : Type 0} (p : Deployment I T S) (cap : ℕ)
    (doc : Documented p.host.decimals cap) where
  set_aside_one_eq :
      (state : WrapperState) (luna n : ℕ)
      → state.lsd_exchange_rate < cap
      → set_aside_one p state luna n ≡ after_set_aside p state.lsd_exchange_rate luna n
  unfolding set_aside_one
  set_aside_one_eq state luna zero h = refl
  set_aside_one_eq state luna (suc m) h = elim (Bool-cases (ltb luna (rate / p.host.one))) [
    | inl short ↦ rw (
      lt→ltb 0 (suc m) (omega arith),
      uint_subtracted p.host.decimals cap doc (suc m) 1 (omega arith),
      floored p.host.decimals cap doc rate h,
      uint_underflow p.host.decimals cap doc luna (rate / p.host.one) (ltb→lt _ _ short),
      short,
    )
    | inr enough ↦ rw (
      lt→ltb 0 (suc m) (omega arith),
      uint_subtracted p.host.decimals cap doc (suc m) 1 (omega arith),
      floored p.host.decimals cap doc rate h,
      uint_subtracted p.host.decimals cap doc luna (rate / p.host.one) (ground arith),
      enough,
    )
  ]
    where
      rate : ℕ
      rate = state.lsd_exchange_rate

  -- The final products by one change nothing.
  times_one :
      (rate luna n : ℕ)
      → luna < cap
      → n < cap
      → (after_set_aside p rate luna n >>= λ x. or_panic (p.host.uint_mul x.0 1) >>= λ l.
          or_panic (p.host.uint_mul x.1 1) >>= λ m.
          ok (let r : AccruedRewards = record { luna_rewards = l; lsd_rewards = m } in r))
        ≡ (after_set_aside p rate luna n >>= λ r.
            ok (record { luna_rewards = r.0; lsd_rewards = r.1 }))
  times_one rate luna n h k = elim (Bool-cases (ltb 0 n && ltb luna (rate / p.host.one))) [
    | inl short ↦ rw short
    | inr enough ↦ rw (
      enough,
      unit_product p.host.decimals cap doc (if ltb 0 n then luna - rate / p.host.one else luna)
          (ground arith),
      unit_product p.host.decimals cap doc (n - 1) (omega arith),
    )
  ]

  pub rewards_of_eq :
      (held supply rate backing : ℕ)
      → 0 < rate
      → held * p.host.one < cap
      → supply * p.host.one < cap
      → backing < cap
      → rate < cap
      → supply ≤ backing / p.host.one
      → supply * p.host.one * p.host.one / rate ≤ held * p.host.one
      → rewards_of p (record {
        lsd_exchange_rate = rate;
        wlsd_supply = supply;
        backing_luna = backing;
        lsd_balance = held;
      })
        ≡ (after_set_aside p rate
              (backing / p.host.one - supply)
              (spare_tokens p.host.one rate held supply)
            >>= λ r. ok (record { luna_rewards = r.0; lsd_rewards = r.1 }))
  unfolding rewards_of
  rewards_of_eq held supply rate backing rate_pos h1 h2 h3 h4 h5 h6 =
      rw
        (
          floored p.host.decimals cap doc backing h3,
          uint_subtracted p.host.decimals cap doc (backing / p.host.one) supply h5,
          whole p.host.decimals cap doc held h1,
          whole p.host.decimals cap doc supply h2,
          divided p.host.decimals cap doc (supply * p.host.one) rate rate_pos (omega arith),
          subtracted p.host.decimals cap doc (held * p.host.one)
              (supply * p.host.one * p.host.one / rate) h6,
          floored p.host.decimals cap doc
              (held * p.host.one - supply * p.host.one * p.host.one / rate) (omega arith),
        )
        (rw (set_aside_one_eq state (backing / p.host.one - supply) spare h4) (
          times_one rate (backing / p.host.one - supply) spare
            (omega (arith, div-le_self backing p.host.one))
            (omega (
              arith,
              div-le_self (held * p.host.one - supply * p.host.one * p.host.one / rate) p.host.one,
            ))))
    where
      state : WrapperState
      state = record {
        lsd_exchange_rate = rate;
        wlsd_supply = supply;
        backing_luna = backing;
        lsd_balance = held;
      }

      spare : ℕ
      spare = spare_tokens p.host.one rate held supply
