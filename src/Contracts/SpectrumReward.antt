-- ===== src/Contracts/SpectrumReward.antt =====
-- contracts/cavern_aAsset_spectrum_reward/src/lib.rs: the reward contract over Spectrum.
use cavern_lsd_wrapper.Base.{ℕ, StdResult}
use cavern_lsd_wrapper.Std.{Binary, Env, MessageInfo, Response}
use cavern_lsd_wrapper.Basset.Reward.{ExecuteMsg, QueryMsg}
use cavern_lsd_wrapper.Host.{Host}
use cavern_lsd_wrapper.CustomReward.Trait.{InstantiateMsg}
use cavern_lsd_wrapper.CustomReward.Store.{Store}
use cavern_lsd_wrapper.CustomReward.Contract
use cavern_lsd_wrapper.CustomReward.Spectrum.{RetrieveConfigRaw, RetrieveConfig, spectrum_retrieve}

module _ (h : Host) where
  unfoldable pub instantiate :
      Store RetrieveConfig
      → Env
      → MessageInfo
      → InstantiateMsg RetrieveConfigRaw
      → StdResult (Store RetrieveConfig × Response)
  unfolding Contract.instantiate
  instantiate s env info msg = Contract.instantiate h spectrum_retrieve s env info msg

  unfoldable pub execute :
      Store RetrieveConfig
      → Env
      → MessageInfo
      → ExecuteMsg
      → StdResult (Store RetrieveConfig × Response)
  unfolding Contract.execute
  execute s env info msg = Contract.execute h spectrum_retrieve s env info msg

  unfoldable pub query : Store RetrieveConfig → Env → QueryMsg → StdResult Binary
  unfolding Contract.query
  query s env msg = Contract.query h s env msg

  -- The callback, by the number in its message.
  unfoldable pub reply :
      Store RetrieveConfig → Env → ℕ → StdResult (Store RetrieveConfig × Response)
  unfolding Contract.reply
  reply s env id = Contract.reply h spectrum_retrieve s env id
