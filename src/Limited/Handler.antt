-- ===== src/Limited/Handler.antt =====
-- packages/cavern_lsd_wrapper_token_with_limit/src/handler.rs. A handler returns the new storage and the
-- response, or fails, and then the chain keeps the old storage.
use cavern_lsd_wrapper.Base.{
  String, List, ◌==◌, nat_eq, if◌then◌else◌, ok, from_std, or_panic, ContractResult, ◌>>=◌,
}
use cavern_lsd_wrapper.Std.{
  Uint128, Binary, CosmosMsg, Env, MessageInfo, Response, empty_response, add_messages,
}
use cavern_lsd_wrapper.Deployment.{Deployment}
use cavern_lsd_wrapper.Limited.Store.{Store, read_lsd_config}
use cavern_lsd_wrapper.Limited.Querier.{get_lsd_wrapper_exchange_rate}

module _ {I T S : Type 0} (p : Deployment I T S) where
  -- The result of a call of the token library, in the wrapper's storage, with the messages added.
  abbrev pub library_call :
      Store T S
      → List CosmosMsg
      → ContractResult (S × Response)
      → ContractResult (Store T S × Response)
  library_call s messages result =
      result >>= λ r. ok (record s { cw20 = r.0 }, add_messages messages r.1)

  unfoldable pub execute_transfer :
      Store T S → Env → MessageInfo → String → Uint128 → ContractResult (Store T S × Response)
  execute_transfer s env info recipient amount =
      p.cw20.transfer s.cw20 env info recipient amount >>= λ r. ok (record s { cw20 = r.0 }, r.1)

  unfoldable pub before_burn :
      Store T S → Env → MessageInfo → Uint128 → ContractResult (List CosmosMsg)
  before_burn s env info amount = do
    lsd_config ← from_std (read_lsd_config s)
    lsd_exchange_rate ← get_lsd_wrapper_exchange_rate p s env
    tokens ← or_panic (p.host.from_ratio amount 1)
    lsd_amount ← or_panic (p.host.div tokens lsd_exchange_rate)
    lsd_amount_floor ← or_panic (p.host.mul_uint lsd_amount 1)
    from_std (p.hub.send_funds lsd_config p.host env lsd_amount_floor info.sender)

  unfoldable pub execute_burn :
      Store T S → Env → MessageInfo → Uint128 → ContractResult (Store T S × Response)
  unfolding before_burn
  execute_burn s env info amount = do
    transfer_messages ← before_burn s env info amount
    library_call s transfer_messages (p.cw20.burn s.cw20 env info amount)

  unfoldable pub execute_burn_all :
      Store T S → Env → MessageInfo → ContractResult (Store T S × Response)
  unfolding execute_burn
  execute_burn_all s env info = do
    balance ← from_std (p.cw20.query_balance s.cw20 info.sender)
    if balance == 0 then ok (s, empty_response) else execute_burn s env info balance

  unfoldable pub execute_mint :
      Store T S → Env → MessageInfo → String → Uint128 → ContractResult (Store T S × Response)
  execute_mint s env info recipient amount = do
    lsd_config ← from_std (read_lsd_config s)
    exchange_rate ← get_lsd_wrapper_exchange_rate p s env
    tokens ← or_panic (p.host.from_ratio amount 1)
    lsd_amount ← or_panic (p.host.div tokens exchange_rate)
    send_lsd_amount ← or_panic (p.host.add lsd_amount p.host.one)
    send_lsd_floor ← or_panic (p.host.mul_uint send_lsd_amount 1)
    messages ← from_std (p.hub.deposit_funds lsd_config p.host env info send_lsd_floor info.sender)
    library_call s messages
        (p.cw20.mint s.cw20 env (record info { sender = env.contract }) recipient amount)

  unfoldable pub execute_mint_with :
      Store T S → Env → MessageInfo → String → Uint128 → ContractResult (Store T S × Response)
  execute_mint_with s env info recipient lsd_amount = do
    lsd_config ← from_std (read_lsd_config s)
    exchange_rate ← get_lsd_wrapper_exchange_rate p s env
    mint_amount ← or_panic (p.host.mul_uint exchange_rate lsd_amount)
    messages ← from_std (p.hub.deposit_funds lsd_config p.host env info lsd_amount info.sender)
    minted ← or_panic (p.host.uint_mul mint_amount 1)
    library_call s messages
        (p.cw20.mint s.cw20 env (record info { sender = env.contract }) recipient minted)

  unfoldable pub execute_send :
      Store T S
      → Env
      → MessageInfo
      → String
      → Uint128
      → Binary
      → ContractResult (Store T S × Response)
  execute_send s env info contract amount msg =
      p.cw20.send s.cw20 env info contract amount msg >>= λ r. ok (record s { cw20 = r.0 }, r.1)

  unfoldable pub execute_transfer_from :
      Store T S
      → Env
      → MessageInfo
      → String
      → String
      → Uint128
      → ContractResult (Store T S × Response)
  execute_transfer_from s env info owner recipient amount =
      p.cw20.transfer_from s.cw20 env info owner recipient amount >>= λ r.
      ok (record s { cw20 = r.0 }, r.1)

  unfoldable pub execute_burn_from :
      Store T S → Env → MessageInfo → String → Uint128 → ContractResult (Store T S × Response)
  unfolding before_burn
  execute_burn_from s env info owner amount = do
    transfer_messages ← before_burn s env info amount
    library_call s transfer_messages (p.cw20.burn_from s.cw20 env info owner amount)

  unfoldable pub execute_send_from :
      Store T S
      → Env
      → MessageInfo
      → String
      → String
      → Uint128
      → Binary
      → ContractResult (Store T S × Response)
  execute_send_from s env info owner contract amount msg =
      p.cw20.send_from s.cw20 env info owner contract amount msg >>= λ r.
      ok (record s { cw20 = r.0 }, r.1)
