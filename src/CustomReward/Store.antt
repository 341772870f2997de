-- ===== src/CustomReward/Store.antt =====
-- packages/cavern_aAsset_custom_reward/src/state.rs: the items of the reward contract and the
-- retrieve configuration.
use cavern_lsd_wrapper.Base.{Option, some, StdResult, load}
use cavern_lsd_wrapper.Reward.Store.{Store as RewardStore}

pub record Store (C : Type 0) : Type 0 where
  pub base : RewardStore
  pub retrieve_config : Option C

module _ {C : Type 0} where
  abbrev pub store_retrieve_config : Store C → C → Store C
  store_retrieve_config s config = record s { retrieve_config = some config }

abbrev pub read_retrieve_config : {C : Type 0} → Option C → StdResult C
read_retrieve_config = load
