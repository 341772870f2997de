-- ===== src/Token/Querier/Rate.antt =====
-- The current exchange rate in terms of what the wrapped token answers.
use native.Mathlib.Nat.{div-le_self}
use cavern_lsd_wrapper.Base.{
  ℕ, ◌+◌, ◌*◌, ◌/◌, ◌<◌, ◌≤◌, ◌≡◌, some, ok, ltb, ◌==◌, nat_eq, arith, lt→ltb, Bool-cases, inl, inr,
  le→ltb_false, ltb→lt, if◌then◌else◌,
}
use cavern_lsd_wrapper.Base.Floor.{div-mul-le, lt-suc-div-mul}
use cavern_lsd_wrapper.Std.{Env}
use cavern_lsd_wrapper.Std.Decimals.{Documented}
use cavern_lsd_wrapper.Cw20.{TokenInfo}
use cavern_lsd_wrapper.Deployment.{Deployment}
use cavern_lsd_wrapper.Pricing.Operations.{whole, multiplied, shared_out}
use cavern_lsd_wrapper.Pricing.Bounds.{le_of_mul_le, lt_of_mul_lt}
use cavern_lsd_wrapper.Token.Store.{Store, WrapperState}
use cavern_lsd_wrapper.Token.Querier.{get_current_exchange_rate}

-- What the storage holds and the other contracts answer at the time of a call.
pub record Answers {I T S : Type 0} (p : Deployment I T S) (s : Store T S) (env : Env) (cfg : T)
    (rate held : ℕ) (info : TokenInfo) : Type 0 where
  pub has_config : s.lsd_config ≡ some cfg
  pub rated : p.hub.query_exchange_rate cfg p.host env ≡ ok rate
  pub holds : p.hub.get_balance cfg p.host env env.contract ≡ ok held
  pub supplied : p.cw20.query_token_info s.cw20 ≡ ok info

-- Nothing that the rate is computed from overflows.
pub record InRange (one cap rate held supply : ℕ) : Type 0 where
  pub rate_pos : 0 < rate
  pub rate_fits : rate < cap
  pub held_fits : held * one < cap
  pub supply_fits : supply * one < cap
  pub backing_fits : held * one * rate / one < cap

-- The decimal that backs the supply, as the code computes it.
abbrev pub backing_of : ℕ → ℕ → ℕ → ℕ
backing_of one rate held = held * one * rate / one

-- The rate that the code returns.
abbrev pub current_rate : ℕ → ℕ → ℕ → ℕ → ℕ
current_rate one rate held supply = if supply == 0 then one else backing_of one rate held / supply

module _ (one rate held supply : ℕ) (one_pos : 0 < one) where
  pub backing_of-eq : backing_of one rate held ≡ held * rate
  backing_of-eq =
      let b = held * one * rate / one in
      let below : b * one ≤ held * one * rate = div-mul-le (held * one * rate) one in
      let above : held * one * rate < (b + 1) * one =
        lt-suc-div-mul (held * one * rate) one one_pos in
      let le : b ≤ held * rate = le_of_mul_le b (held * rate) one one_pos (omega arith) in
      let lt : held * rate < b + 1 = lt_of_mul_lt (held * rate) (b + 1) one (omega arith) in
      omega arith

  -- The rate is below one exactly where the supply is not backed.
  pub current_rate-below_one :
      ltb (current_rate one rate held supply) one ≡ ltb (held * rate) (supply * one)
  current_rate-below_one = elim (Bool-cases (supply == 0)) [
    | inl issued_none ↦
        let zero_supply : supply ≡ 0 = ground arith in rw (issued_none, zero_supply) (ground arith)
    | inr issued ↦ rw issued (below (ground arith))
  ]
    where
      b : ℕ
      b = backing_of one rate held

      below : 0 < supply → ltb (b / supply) one ≡ ltb (held * rate) (supply * one)
      below pos =
          let same : b ≡ held * rate = backing_of-eq in
          let down : b / supply * supply ≤ b = div-mul-le b supply in
          let up : b < (b / supply + 1) * supply = lt-suc-div-mul b supply pos in
          elim (Bool-cases (ltb (held * rate) (supply * one))) [
            | inl short ↦
                let lt : held * rate < supply * one = ltb→lt _ _ short in
                rw short
                  (lt→ltb (b / supply) one (lt_of_mul_lt (b / supply) one supply (omega arith)))
            | inr backed ↦
                let le : supply * one ≤ held * rate = ground arith in
                let lt : one < b / supply + 1 =
                  lt_of_mul_lt one (b / supply + 1) supply (omega arith) in
                rw backed (le→ltb_false (b / supply) one (omega arith))
          ]

module _ {I T S : Type 0} (p : Deployment I T S) (cap : ℕ) (doc : Documented p.host.decimals cap)
    (s : Store T S) (env : Env) (cfg : T) (rate held : ℕ) (info : TokenInfo)
    (answers : Answers p s env cfg rate held info)
    (range : InRange p.host.one cap rate held info.total_supply) where
  abbrev pub observed : WrapperState
  observed = record {
    lsd_exchange_rate = rate;
    wlsd_supply = info.total_supply;
    backing_luna = backing_of p.host.one rate held;
    lsd_balance = held;
  }

  pub get_current_exchange_rate_eq :
      get_current_exchange_rate p s env
      ≡ ok (current_rate p.host.one rate held info.total_supply, observed)
  unfolding get_current_exchange_rate
  get_current_exchange_rate_eq =
      rw
        (
          answers.has_config,
          answers.rated,
          answers.holds,
          whole p.host.decimals cap doc held range.held_fits,
          multiplied p.host.decimals cap doc (held * p.host.one) rate range.backing_fits,
          answers.supplied,
        )
        (elim (Bool-cases (info.total_supply == 0)) [
          | inl issued_none ↦ rw issued_none
          | inr issued ↦ rw (
            issued,
            shared_out p.host.decimals cap doc (backing_of p.host.one rate held) info.total_supply
                (ground arith)
                (omega (
                  arith,
                  range.backing_fits,
                  div-le_self (backing_of p.host.one rate held) info.total_supply,
                )),
          )
        ])
