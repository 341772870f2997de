-- ===== src/CustomReward/Trait.antt =====
-- packages/basset/src/custom_reward.rs: the trait `ExecuteWithSwapReply` and the message of
-- `instantiate`. `R` is the raw configuration, `C` the stored one.
use cavern_lsd_wrapper.Base.{String, Option, List, [], ok, StdResult}
use cavern_lsd_wrapper.Std.{CosmosMsg, Env}
use cavern_lsd_wrapper.Host.{Host}

-- `get_retrieve_messages` reads its configuration from the storage.
pub record ExecuteWithSwapReply (R C : Type 0) : Type 0 where
  pub get_retrieve_messages : Host → Option C → Env → StdResult (List CosmosMsg)
  pub validate_retrieve_config : Host → R → StdResult C

-- The implementation for `Empty`; the configurations hold no data.
abbrev pub empty_retrieve : ExecuteWithSwapReply (Unit {0}) (Unit {0})
empty_retrieve = record {
  get_retrieve_messages = λ h c env. ok [];
  validate_retrieve_config = λ h c. ok tt;
}

pub record InstantiateMsg (R : Type 0) : Type 0 where
  pub hub_contract : String
  pub reward_denom : String
  pub astroport_addr : String
  pub phoenix_addr : String
  pub terraswap_addr : String
  pub known_tokens : List String
  pub retrieve_config : R
