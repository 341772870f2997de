-- ===== src/Contracts/AmpLp.antt =====
-- contracts/amp-lp-wrapper/src/lib.rs: the wrapper, with a limit, of an amp[LP] token.
use cavern_lsd_wrapper.Base.{StdResult, ContractResult}
use cavern_lsd_wrapper.Std.{Binary, Env, MessageInfo, Response}
use cavern_lsd_wrapper.Basset.Wrapper.{ExecuteMsg}
use cavern_lsd_wrapper.Host.{Host}
use cavern_lsd_wrapper.Cw20.{Cw20, QueryMsg}
use cavern_lsd_wrapper.Limited.Store.{Store, TokenInitMsg}
use cavern_lsd_wrapper.Limited.Contract
use cavern_lsd_wrapper.Deployment.{Deployment}
use cavern_lsd_wrapper.LsdHub.Amp.{ContractsRaw, AmphHub, amp_hub}

abbrev pub SpectrumInitMsg : Type 0
SpectrumInitMsg = TokenInitMsg ContractsRaw

module _ {S : Type 0} (h : Host) (cw20 : Cw20 S) where
  abbrev pub deployment : Deployment ContractsRaw AmphHub S
  deployment = record { host = h; hub = amp_hub; cw20 = cw20 }

  unfoldable pub instantiate :
      Store AmphHub S → Env → MessageInfo → SpectrumInitMsg → StdResult (Store AmphHub S × Response)
  unfolding Contract.instantiate
  instantiate s env info msg = Contract.instantiate deployment s env info msg

  unfoldable pub execute :
      Store AmphHub S → Env → MessageInfo → ExecuteMsg → ContractResult (Store AmphHub S × Response)
  unfolding Contract.execute
  execute s env info msg = Contract.execute deployment s env info msg

  unfoldable pub query : Store AmphHub S → Env → QueryMsg → StdResult Binary
  unfolding Contract.query
  query s env msg = Contract.query deployment s env msg
