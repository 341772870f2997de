-- ===== src/Basset/ErisCallback.antt =====
-- packages/basset/src/eris_lp.rs: `CallbackMsg::into_cosmos_msg`.
use cavern_lsd_wrapper.Base.{[], ok, StdResult, ◌>>=◌}
use cavern_lsd_wrapper.Std.{Addr, CosmosMsg, wasm_execute}
use cavern_lsd_wrapper.Basset.ErisLp
use cavern_lsd_wrapper.Basset.Payload.{eris_execute}
use cavern_lsd_wrapper.Host.{Host}

unfoldable pub into_cosmos_msg : Host → ErisLp.CallbackMsg → Addr → StdResult CosmosMsg
into_cosmos_msg h callback contract_addr = do
  msg ← h.to_binary (eris_execute (ErisLp.ExecuteMsg.callback callback))
  ok (wasm_execute contract_addr msg [])
