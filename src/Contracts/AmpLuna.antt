-- ===== src/Contracts/AmpLuna.antt =====
-- contracts/ampLuna-wrapper/src/lib.rs: the wrapper of ampLuna.
use cavern_lsd_wrapper.Base.{StdResult, ContractResult, String}
use cavern_lsd_wrapper.Std.{Binary, Env, MessageInfo, Response}
use cavern_lsd_wrapper.Basset.Wrapper.{ExecuteMsg}
use cavern_lsd_wrapper.Host.{Host}
use cavern_lsd_wrapper.Cw20.{Cw20, QueryMsg}
use cavern_lsd_wrapper.Token.Store.{Store}
use cavern_lsd_wrapper.Contracts.Steak
use cavern_lsd_wrapper.Contracts.Steak.{SteakInitMsg}
use cavern_lsd_wrapper.LsdHub.Steak.{SteakLsdHub, AmpLunaStateResponse, amp_luna_state}

module _ {S : Type 0} (query_state : String → Binary → StdResult AmpLunaStateResponse) (h : Host)
    (cw20 : Cw20 S) where
  unfoldable pub instantiate :
      Store SteakLsdHub S
      → Env
      → MessageInfo
      → SteakInitMsg
      → StdResult (Store SteakLsdHub S × Response)
  unfolding Steak.instantiate
  instantiate s env info msg = Steak.instantiate query_state amp_luna_state h cw20 s env info msg

  unfoldable pub execute :
      Store SteakLsdHub S
      → Env
      → MessageInfo
      → ExecuteMsg
      → ContractResult (Store SteakLsdHub S × Response)
  unfolding Steak.execute
  execute s env info msg = Steak.execute query_state amp_luna_state h cw20 s env info msg

  unfoldable pub query : Store SteakLsdHub S → Env → QueryMsg → StdResult Binary
  unfolding Steak.query
  query s env msg = Steak.query query_state amp_luna_state h cw20 s env msg
