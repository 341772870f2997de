-- ===== src/CustomReward/Withdrawals.antt =====
-- contracts/cavern_aAsset_amp_lp_reward/src/lib.rs and contracts/cavern_aAsset_spectrum_reward/src/
-- lib.rs: what is unbonded, and what is withdrawn.
use native.Mathlib.Nat.{mul-le-mul_left}
use cavern_lsd_wrapper.Base.{
  ◌⊎◌, ℕ, ◌+◌, ◌*◌, ◌/◌, ◌<◌, ◌≤◌, ◌≡◌, some, none, [], ◌∷◌, ok, ◌==◌, nat_eq, if◌then◌else◌, arith,
  Bool-cases, inl, inr, lt→ltb, false,
}
use cavern_lsd_wrapper.Base.Floor.{div-mul-le, lt-suc-div-mul}
use cavern_lsd_wrapper.Pricing.Bounds.{le_of_mul_le}
use cavern_lsd_wrapper.Std.{Addr, Binary, wasm_execute, Env}
use cavern_lsd_wrapper.Std.Decimals.{Documented}
use cavern_lsd_wrapper.Basset.ErisLp
use cavern_lsd_wrapper.Basset.External
use cavern_lsd_wrapper.Basset.Payload.{
  Payload, cw20_balance, cw20_send, spectrum_query, spectrum_execute, eris_hook, eris_query,
  pair_query, withdraw_liquidity,
}
use cavern_lsd_wrapper.Host.{Host}
use cavern_lsd_wrapper.CustomReward.Spectrum
use cavern_lsd_wrapper.CustomReward.AmpLp.{RetrieveConfig, bond_amount, get_retrieve_messages}

module _ (h : Host) (cap : ℕ) (doc : Documented h.decimals cap) where
  bond_amount_eq :
      (state : ErisLp.StateResponse) (amp : ℕ)
      → 0 < state.total_amp_lp
      → state.total_lp * amp / state.total_amp_lp < cap
      → bond_amount h state amp ≡ ok (state.total_lp * amp / state.total_amp_lp)
  unfolding bond_amount
  bond_amount_eq state amp pos small =
      let some_issued : (state.total_amp_lp == 0) ≡ false = ground arith in
      rw (
        some_issued,
        doc.multiply_ratio_law state.total_lp amp state.total_amp_lp,
        some_issued,
        lt→ltb _ _ small,
      )

  -- Where no value exceeds its range, a contract that holds amp[LP] tokens unbonds all of them, and withdraws from the pair what they
  -- give, rounded down, together with the liquidity tokens that it already holds; where that is
  -- nothing, it sends no message. What they give is at most what the pool manages.
  pub retrieve-withdraws :
      (env : Env) (config : RetrieveConfig) (bin : Payload → Binary) (amp held : ℕ) (lp : Addr)
      (state : ErisLp.StateResponse)
      → ((m : Payload) → h.to_binary m ≡ ok (bin m))
      → h.smart_cw20_balance config.amp_lp_token (bin (cw20_balance env.contract)) ≡ ok amp
      → h.smart_liquidity_token config.pair (bin pair_query) ≡ ok lp
      → h.smart_cw20_balance lp (bin (cw20_balance env.contract)) ≡ ok held
      → h.smart_eris_state config.hub (bin (eris_query (ErisLp.QueryMsg.state none))) ≡ ok state
      → 0 < amp
      → amp ≤ state.total_amp_lp
      → state.total_lp + held < cap
      → (n : ℕ) × (n ≤ state.total_lp)
        × (n * state.total_amp_lp ≤ state.total_lp * amp)
        × (state.total_lp * amp < (n + 1) * state.total_amp_lp)
        × (get_retrieve_messages h (some config) env
            ≡ ok (
                if n + held == 0
                then []
                else wasm_execute config.amp_lp_token
                    (bin
                      (cw20_send config.hub amp (bin (eris_hook (ErisLp.Cw20HookMsg.unbond none)))))
                    []
                  ∷ wasm_execute lp
                      (bin (cw20_send config.pair (n + held) (bin withdraw_liquidity)))
                      []
                  ∷ []))
  unfolding get_retrieve_messages
  retrieve-withdraws env config bin amp held lp state serialized balance token liquidity pool pos
        part small =
      let n : ℕ = state.total_lp * amp / state.total_amp_lp in
      let issued : 0 < state.total_amp_lp = omega arith in
      let low = div-mul-le (state.total_lp * amp) state.total_amp_lp in
      let high = lt-suc-div-mul (state.total_lp * amp) state.total_amp_lp issued in
      let share : state.total_lp * amp ≤ state.total_lp * state.total_amp_lp =
        mul-le-mul_left state.total_lp part in
      let bound : n ≤ state.total_lp =
        le_of_mul_le n state.total_lp state.total_amp_lp issued (omega arith) in
      let some_held : (amp == 0) ≡ false = ground arith in
      (
        n,
        bound,
        low,
        high,
        simp
            (
              serialized,
              balance,
              some_held,
              token,
              liquidity,
              pool,
              bond_amount_eq state amp issued (omega arith),
              doc.uint_add_law n held,
              lt→ltb (n + held) cap (omega arith),
            )
            (elim (Bool-cases (n + held == 0)) [
              | inl nothing ↦ rw nothing
              | inr some_left ↦ rw some_left
            ]),
      )

-- A contract over Spectrum whose bonded share is not zero unbonds the bonded amount and withdraws
-- the same amount from the pair, in this order; with no share it sends nothing, and asks neither
-- for the pair nor for its token.
pub spectrum-withdraws :
    (h : Host) (env : Env) (config : Spectrum.RetrieveConfig) (bin : Payload → Binary) (lp : Addr)
    (reward : External.RewardInfoResponse)
    → ((m : Payload) → h.to_binary m ≡ ok (bin m))
    → h.smart_reward_info config.spectrum_token
        (bin (spectrum_query (External.SpectrumQueryMsg.reward_info env.contract)))
      ≡ ok reward
    → (reward.reward_info.bond_share ≡ 0)
      ⊎ (h.smart_liquidity_token config.pair (bin pair_query) ≡ ok lp)
    → Spectrum.get_retrieve_messages h (some config) env
      ≡ ok (
          if reward.reward_info.bond_share == 0
          then []
          else wasm_execute config.spectrum_token
              (bin (
                spectrum_execute
                  (External.SpectrumExecuteMsg.unbond reward.reward_info.bond_amount)))
              []
            ∷ wasm_execute lp
                (bin
                  (cw20_send config.pair reward.reward_info.bond_amount (bin withdraw_liquidity)))
                []
            ∷ [])
unfolding Spectrum.get_retrieve_messages
spectrum-withdraws h env config bin lp reward serialized info (inl none_bonded) =
    simp (serialized, info, none_bonded)
spectrum-withdraws h env config bin lp reward serialized info (inr token) =
    simp (serialized, info, token)
      (elim (Bool-cases (reward.reward_info.bond_share == 0)) [
        | inl nothing ↦ rw nothing
        | inr some_left ↦ rw some_left
      ])
