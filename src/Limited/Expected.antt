-- ===== src/Limited/Expected.antt =====
-- The expected exchange rate (packages/cavern_lsd_wrapper_token_with_limit/src/querier.rs) against
-- the current one.
use native.Mathlib.Nat.{mul-le-mul_right, mul-le-mul_left}
use cavern_lsd_wrapper.Base.{
  ℕ, ◌+◌, ◌-◌, ◌*◌, ◌/◌, ◌≤◌, ◌<◌, ◌≡◌, ok, arith, Outcome-cases, inl, inr,
}
use cavern_lsd_wrapper.Base.Floor.{div-mul-le, lt-suc-div-mul}
use cavern_lsd_wrapper.Pricing.Bounds.{lt_of_mul_lt}
use cavern_lsd_wrapper.Std.{Env, seconds_of}
use cavern_lsd_wrapper.Std.Decimals.{Documented}
use cavern_lsd_wrapper.Deployment.{Deployment}
use cavern_lsd_wrapper.Limited.Store.{Store, WrapperState, DecompoundState}
use cavern_lsd_wrapper.Limited.Querier.{
  limited_rate, get_current_exchange_rate, get_expected_exchange_rate, seconds_per_year,
}
use cavern_lsd_wrapper.Limited.Limit.{WithinLimit, allowed_after}
use cavern_lsd_wrapper.Limited.Kept.{LimitKept}

div_mono : (k a b : ℕ) → 0 < k → a ≤ b → a / k ≤ b / k
div_mono k a b pos h =
    let low : a / k * k ≤ a = div-mul-le a k in
    let high : b < (b / k + 1) * k = lt-suc-div-mul b k pos in
    let lt : a / k < b / k + 1 = lt_of_mul_lt (a / k) (b / k + 1) k (omega arith) in omega arith

-- More time allows no less.
pub allowed_after_mono :
    (one m a b : ℕ) → 0 < one → a ≤ b → allowed_after one m a ≤ allowed_after one m b
allowed_after_mono one m a b pos h =
    div_mono one (m * (a * one / seconds_per_year)) (m * (b * one / seconds_per_year)) pos (
      mul-le-mul_left m
        (div_mono seconds_per_year (a * one) (b * one) (omega arith) (mul-le-mul_right one h)))

module _ {I T S : Type 0} (p : Deployment I T S) (cap : ℕ) (doc : Documented p.host.decimals cap)
    (m : ℕ) where
  limited_rate_bounds :
      (env : Env) (x : ℕ) (d : DecompoundState) (rate : ℕ)
      → WithinLimit p.host.one m d
      → p.host.one ≤ x
      → limited_rate p env x m d ≡ ok rate
      → (p.host.one ≤ rate) × (rate ≤ x)
  unfolding limited_rate WithinLimit
  limited_rate_bounds env x d rate within above h = ground (
    arith,
    doc.add_law x d.ratio_sum,
    doc.from_ratio_law total seconds_per_year,
    doc.mul_law m (total * p.host.one / seconds_per_year),
    doc.checked_sub_law (x + d.ratio_sum) (allowed_after p.host.one m total),
    allowed_after_mono p.host.one m d.total_seconds total doc.one_pos (omega arith),
  )
    where
      total : ℕ
      total = d.total_seconds + (seconds_of env.nanos - seconds_of d.last_decompound)

  -- Where the rate of the backing is at least one and the limit is kept, the expected rate is at
  -- least one and at most the current one, and the wrapper reports the same state with both.
  pub expected-bounds :
      (s : Store T S) (env : Env) (x e : ℕ) (state state' : WrapperState)
      → LimitKept p.host.one m s
      → get_current_exchange_rate p s env ≡ ok (x, state)
      → p.host.one ≤ x
      → get_expected_exchange_rate p s env ≡ ok (e, state')
      → (p.host.one ≤ e) × (e ≤ x) × (state' ≡ state)
  unfolding get_expected_exchange_rate
  expected-bounds s env x e state state' kept current above h =
      elim (Outcome-cases (limited_rate p env x m kept.taken)) [
        | inr fails ↦ ground (arith, current, kept.limited, kept.recorded, fails)
        | inl (rate, limited) ↦
            let (low, high) = limited_rate_bounds env x kept.taken rate kept.within above limited in
            ground (arith, current, kept.limited, kept.recorded, limited)
      ]
