-- ===== src/Tests/Withdrawals.antt =====
-- A contract that holds 30 amp[LP] tokens of a pool that has issued 300 for 900, and 5 of the pair.
use cavern_lsd_wrapper.Base.{
  inr, ℕ, ◌+◌, ◌*◌, ◌<◌, ◌≤◌, ◌≡◌, refl, some, none, [], ◌∷◌, ok, ◌==◌, string_eq, nat_eq,
  if◌then◌else◌, arith,
}
use cavern_lsd_wrapper.Std.{wasm_execute}
use cavern_lsd_wrapper.Basset.ErisLp
use cavern_lsd_wrapper.Basset.External
use cavern_lsd_wrapper.Host.{Host}
use cavern_lsd_wrapper.CustomReward.Spectrum
use cavern_lsd_wrapper.CustomReward.AmpLp.{RetrieveConfig, get_retrieve_messages}
use cavern_lsd_wrapper.CustomReward.Withdrawals.{retrieve-withdraws, spectrum-withdraws}
use cavern_lsd_wrapper.Tests.World.{one, capacity, host, env, documented}

abbrev pool : ErisLp.StateResponse
pool = record {
  total_lp = 900;
  total_amp_lp = 300;
  exchange_rate = 3 * one;
  pair_contract = "pair";
  locked_assets = [];
  user_info = none;
}

abbrev pool_host : Host
pool_host = record (host one 0) {
  smart_cw20_balance = λ a q. ok (if a == "lp" then 5 else 30);
  smart_eris_state = λ a q. ok pool;
}

abbrev amp_config : RetrieveConfig
amp_config = record { amp_lp_token = "amp"; hub = "eris"; pair = "pair" }

retrieve-withdraws_example :
    (n : ℕ) × (n ≤ 900)
    × (n * 300 ≤ 900 * 30)
    × (900 * 30 < (n + 1) * 300)
    × (get_retrieve_messages pool_host (some amp_config) env
        ≡ ok (
            if n + 5 == 0
            then []
            else wasm_execute "amp" "a message" [] ∷ wasm_execute "lp" "a message" [] ∷ []))
retrieve-withdraws_example =
    retrieve-withdraws pool_host capacity documented env amp_config (λ m. "a message") 30 5 "lp"
      pool (λ m. refl) refl refl refl refl (omega arith) (omega arith) (omega arith)

-- Eight bonded tokens of Spectrum, for a share of three.
abbrev bonded : External.RewardInfoResponse
bonded = record {
  staker_addr = "wrapper";
  reward_info = record {
    staking_token = "lp";
    bond_amount = 8;
    bond_share = 3;
    deposit_amount = 8;
    deposit_time = 0;
    deposit_costs = [];
  };
}

abbrev pub bonded_host : Host
bonded_host = record (host one 0) { smart_reward_info = λ a q. ok bonded }

abbrev pub spectrum_config : Spectrum.RetrieveConfig
spectrum_config = record { spectrum_token = "spectrum"; pair = "pair" }

spectrum-withdraws_example :
    Spectrum.get_retrieve_messages bonded_host (some spectrum_config) env
    ≡ ok (wasm_execute "spectrum" "a message" [] ∷ wasm_execute "lp" "a message" [] ∷ [])
spectrum-withdraws_example =
    spectrum-withdraws bonded_host env spectrum_config (λ m. "a message") "lp" bonded (λ m. refl)
      refl (inr refl)
