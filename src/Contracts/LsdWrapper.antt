-- ===== src/Contracts/LsdWrapper.antt =====
-- contracts/cavern-lsd-wrapper/src/lib.rs: the wrapper of a native coin.
use cavern_lsd_wrapper.Base.{StdResult, ContractResult}
use cavern_lsd_wrapper.Std.{Binary, Env, MessageInfo, Response}
use cavern_lsd_wrapper.Basset.Wrapper.{ExecuteMsg}
use cavern_lsd_wrapper.Host.{Host}
use cavern_lsd_wrapper.Cw20.{Cw20, QueryMsg}
use cavern_lsd_wrapper.Token.Store.{Store}
use cavern_lsd_wrapper.Contracts.Coin
use cavern_lsd_wrapper.Contracts.Coin.{StrideInitMsg}
use cavern_lsd_wrapper.LsdHub.Coin.{StrideLsdConfig}

module _ {S : Type 0} (h : Host) (cw20 : Cw20 S) where
  unfoldable pub instantiate :
      Store StrideLsdConfig S
      → Env
      → MessageInfo
      → StrideInitMsg
      → StdResult (Store StrideLsdConfig S × Response)
  unfolding Coin.instantiate
  instantiate s env info msg = Coin.instantiate h cw20 s env info msg

  unfoldable pub execute :
      Store StrideLsdConfig S
      → Env
      → MessageInfo
      → ExecuteMsg
      → ContractResult (Store StrideLsdConfig S × Response)
  unfolding Coin.execute
  execute s env info msg = Coin.execute h cw20 s env info msg

  unfoldable pub query : Store StrideLsdConfig S → Env → QueryMsg → StdResult Binary
  unfolding Coin.query
  query s env msg = Coin.query h cw20 s env msg
