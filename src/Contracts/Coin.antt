-- ===== src/Contracts/Coin.antt =====
-- packages/wrapper_implementations/src/coin.rs: the entry points of a wrapper of a native coin.
use cavern_lsd_wrapper.Base.{StdResult, ContractResult}
use cavern_lsd_wrapper.Std.{Binary, Env, MessageInfo, Response}
use cavern_lsd_wrapper.Basset.Wrapper.{ExecuteMsg}
use cavern_lsd_wrapper.Host.{Host}
use cavern_lsd_wrapper.Cw20.{Cw20, QueryMsg}
use cavern_lsd_wrapper.Token.Store.{Store, TokenInitMsg}
use cavern_lsd_wrapper.Token.Contract
use cavern_lsd_wrapper.Deployment.{Deployment}
use cavern_lsd_wrapper.LsdHub.Coin.{StrideLsdConfigRaw, StrideLsdConfig, stride_hub}

abbrev pub StrideInitMsg : Type 0
StrideInitMsg = TokenInitMsg StrideLsdConfigRaw

module _ {S : Type 0} (h : Host) (cw20 : Cw20 S) where
  abbrev pub deployment : Deployment StrideLsdConfigRaw StrideLsdConfig S
  deployment = record { host = h; hub = stride_hub; cw20 = cw20 }

  unfoldable pub instantiate :
      Store StrideLsdConfig S
      → Env
      → MessageInfo
      → StrideInitMsg
      → StdResult (Store StrideLsdConfig S × Response)
  unfolding Contract.instantiate
  instantiate s env info msg = Contract.instantiate deployment s env info msg

  unfoldable pub execute :
      Store StrideLsdConfig S
      → Env
      → MessageInfo
      → ExecuteMsg
      → ContractResult (Store StrideLsdConfig S × Response)
  unfolding Contract.execute
  execute s env info msg = Contract.execute deployment s env info msg

  unfoldable pub query : Store StrideLsdConfig S → Env → QueryMsg → StdResult Binary
  unfolding Contract.query
  query s env msg = Contract.query deployment s env msg
