-- ===== src/Tests/UpdateLp.antt =====
-- A global update of a wrapper with a limit, whose rewards go to the contract over Spectrum: the hub
-- of Tests.Update, the wrapper of Tests.Backing, and the bonded tokens of Tests.Withdrawals.
use cavern_lsd_wrapper.Base.{ℕ, ◌≡◌, refl, some, []}
use cavern_lsd_wrapper.Std.{Env}
use cavern_lsd_wrapper.Basset.Wrapper
use cavern_lsd_wrapper.Basset.Reward
use cavern_lsd_wrapper.LsdHub.Coin.{StrideLsdConfig, query_exchange_rate, get_balance, send_funds}
use cavern_lsd_wrapper.Limited.Store.{Store}
use cavern_lsd_wrapper.Limited.Contract.{execute}
use cavern_lsd_wrapper.Limited.Querier.{get_current_exchange_rate}
use cavern_lsd_wrapper.Limited.Rewards.{
  compute_accrued_rewards, rewards_of, unlimited_rewards, limit_rewards, set_aside_one,
}
use cavern_lsd_wrapper.CustomReward.Store.{Store as CustomStore}
use cavern_lsd_wrapper.CustomReward.Spectrum.{
  RetrieveConfig, spectrum_retrieve, get_retrieve_messages,
}
use cavern_lsd_wrapper.CustomReward.Global.{execute_retrieve_normal_tokens}
use cavern_lsd_wrapper.CustomReward.Contract.{execute as custom_execute}
use cavern_lsd_wrapper.Update.{Parties, deliver, deliver_all}
use cavern_lsd_wrapper.Update.Lp.{retrieving}
use cavern_lsd_wrapper.Tests.World.{env}
use cavern_lsd_wrapper.Tests.Backing.{coin_deployment, limited_store}
use cavern_lsd_wrapper.Tests.Swap.{reward_store}
use cavern_lsd_wrapper.Tests.Withdrawals.{bonded_host, spectrum_config}
use cavern_lsd_wrapper.Tests.Update.{routes, updated}

abbrev custom_store : CustomStore RetrieveConfig
custom_store = record { base = reward_store; retrieve_config = some spectrum_config }

abbrev reward_env : Env
reward_env = record { nanos = 1700000000000000000; contract = "reward" }

delivered :
    (st : Parties (Store StrideLsdConfig ℕ) (CustomStore RetrieveConfig)) × (deliver_all
        (retrieving routes (coin_deployment 900) env bonded_host spectrum_retrieve reward_env)
        updated.1.messages
        (record { wrapper = limited_store; rewards = custom_store; payments = []; swaps = [] })
      ≡ some st)
unfolding updated deliver deliver_all execute query_exchange_rate get_balance
    compute_accrued_rewards get_current_exchange_rate rewards_of unlimited_rewards limit_rewards
    set_aside_one send_funds custom_execute execute_retrieve_normal_tokens get_retrieve_messages
delivered = (_, refl)
