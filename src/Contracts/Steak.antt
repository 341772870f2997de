-- ===== src/Contracts/Steak.antt =====
-- packages/wrapper_implementations/src/steak.rs: the entry points of a wrapper of a staking token.
use cavern_lsd_wrapper.Base.{StdResult, ContractResult, String}
use cavern_lsd_wrapper.Std.{Binary, Env, MessageInfo, Response}
use cavern_lsd_wrapper.Basset.Wrapper.{ExecuteMsg}
use cavern_lsd_wrapper.Host.{Host}
use cavern_lsd_wrapper.Cw20.{Cw20, QueryMsg}
use cavern_lsd_wrapper.Token.Store.{Store, TokenInitMsg}
use cavern_lsd_wrapper.Token.Contract
use cavern_lsd_wrapper.Deployment.{Deployment}
use cavern_lsd_wrapper.Basset.External.{LsdStateResponseTrait}
use cavern_lsd_wrapper.LsdHub.Steak.{LsdContractsRaw, SteakLsdHub, steak_hub}

abbrev pub SteakInitMsg : Type 0
SteakInitMsg = TokenInitMsg LsdContractsRaw

module _ {T S : Type 0} (query_state : String → Binary → StdResult T) (t : LsdStateResponseTrait T)
    (h : Host) (cw20 : Cw20 S) where
  abbrev pub deployment : Deployment LsdContractsRaw SteakLsdHub S
  deployment = record { host = h; hub = steak_hub query_state t; cw20 = cw20 }

  unfoldable pub instantiate :
      Store SteakLsdHub S
      → Env
      → MessageInfo
      → SteakInitMsg
      → StdResult (Store SteakLsdHub S × Response)
  unfolding Contract.instantiate
  instantiate s env info msg = Contract.instantiate deployment s env info msg

  unfoldable pub execute :
      Store SteakLsdHub S
      → Env
      → MessageInfo
      → ExecuteMsg
      → ContractResult (Store SteakLsdHub S × Response)
  unfolding Contract.execute
  execute s env info msg = Contract.execute deployment s env info msg

  unfoldable pub query : Store SteakLsdHub S → Env → QueryMsg → StdResult Binary
  unfolding Contract.query
  query s env msg = Contract.query deployment s env msg
