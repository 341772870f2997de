-- ===== src/Limited/Contract.antt =====
-- packages/cavern_lsd_wrapper_token_with_limit/src/contract.rs: the entry points.
use cavern_lsd_wrapper.Base.{none, some, ok, generic_err, map_err, StdResult, ContractResult, ◌>>=◌}
use cavern_lsd_wrapper.Std.{Binary, Env, MessageInfo, Response, empty_response}
use cavern_lsd_wrapper.Basset.Wrapper
use cavern_lsd_wrapper.Basset.Wrapper.{ExecuteMsg}
use cavern_lsd_wrapper.Basset.Reward.{MigrateMsg}
use cavern_lsd_wrapper.Basset.Payload.{token_info_response_with_limit}
use cavern_lsd_wrapper.Cw20.{QueryMsg, token_info, other_query, InstantiateMsg}
use cavern_lsd_wrapper.Deployment.{Deployment}
use cavern_lsd_wrapper.Limited.Store.{Store, TokenInitMsg, store_lsd_config, store_hub_contract}
use cavern_lsd_wrapper.Limited.Querier.{get_current_exchange_rate, get_expected_exchange_rate}
use cavern_lsd_wrapper.Limited.Handler.{
  execute_transfer, execute_burn, execute_burn_all, execute_mint, execute_mint_with, execute_send,
  execute_transfer_from, execute_burn_from, execute_send_from,
}
use cavern_lsd_wrapper.Limited.Decompound.{execute_decompound}

module _ {I T S : Type 0} (p : Deployment I T S) where
  unfoldable pub instantiate :
      Store T S → Env → MessageInfo → TokenInitMsg I → StdResult (Store T S × Response)
  instantiate s env info msg = do
    lsd_config ← p.hub.instantiate_config p.host msg.lsd_config
    hub_contract ← p.host.addr_validate msg.hub_contract
    let s' = record (store_hub_contract (store_lsd_config s lsd_config) hub_contract) {
      decompound_config = some (record { max_decompound_ratio = msg.max_decompound_ratio });
      decompound_state =
          some (record { ratio_sum = 0; total_seconds = 0; last_decompound = env.nanos });
    }
    let init : InstantiateMsg = record {
      name = msg.name;
      symbol = msg.symbol;
      decimals = msg.decimals;
      initial_balances = msg.initial_balances;
      minter = env.contract;
      cap = none;
      marketing = none;
    }
    (cw20, _) ←
        map_err (λ _. generic_err "CW20 Token init error") (p.cw20.instantiate s.cw20 env info init)
    ok (record s' { cw20 = cw20 }, empty_response)

  unfoldable pub execute :
      Store T S → Env → MessageInfo → ExecuteMsg → ContractResult (Store T S × Response)
  unfolding execute_transfer execute_burn execute_burn_all execute_mint execute_mint_with
      execute_send execute_transfer_from execute_burn_from execute_send_from execute_decompound
  execute s env info (Wrapper.ExecuteMsg.transfer recipient amount) =
      execute_transfer p s env info recipient amount
  execute s env info (Wrapper.ExecuteMsg.burn amount) = execute_burn p s env info amount
  execute s env info Wrapper.ExecuteMsg.burn_all = execute_burn_all p s env info
  execute s env info (Wrapper.ExecuteMsg.send contract amount msg) =
      execute_send p s env info contract amount msg
  execute s env info (Wrapper.ExecuteMsg.mint recipient amount) =
      execute_mint p s env info recipient amount
  execute s env info (Wrapper.ExecuteMsg.mint_with recipient lsd_amount) =
      execute_mint_with p s env info recipient lsd_amount
  execute s env info (Wrapper.ExecuteMsg.increase_allowance spender amount expires) =
      p.cw20.increase_allowance s.cw20 env info spender amount expires >>= λ r.
      ok (record s { cw20 = r.0 }, r.1)
  execute s env info (Wrapper.ExecuteMsg.decrease_allowance spender amount expires) =
      p.cw20.decrease_allowance s.cw20 env info spender amount expires >>= λ r.
      ok (record s { cw20 = r.0 }, r.1)
  execute s env info (Wrapper.ExecuteMsg.transfer_from owner recipient amount) =
      execute_transfer_from p s env info owner recipient amount
  execute s env info (Wrapper.ExecuteMsg.burn_from owner amount) =
      execute_burn_from p s env info owner amount
  execute s env info (Wrapper.ExecuteMsg.send_from owner contract amount msg) =
      execute_send_from p s env info owner contract amount msg
  execute s env info (Wrapper.ExecuteMsg.update_minter new_minter) =
      p.cw20.update_minter s.cw20 env info new_minter >>= λ r. ok (record s { cw20 = r.0 }, r.1)
  execute s env info (Wrapper.ExecuteMsg.update_marketing project description marketing) =
      p.cw20.update_marketing s.cw20 env info project description marketing >>= λ r.
      ok (record s { cw20 = r.0 }, r.1)
  execute s env info (Wrapper.ExecuteMsg.upload_logo logo) =
      p.cw20.upload_logo s.cw20 env info logo >>= λ r. ok (record s { cw20 = r.0 }, r.1)
  execute s env info (Wrapper.ExecuteMsg.decompound recipient) =
      execute_decompound p s env info recipient

  unfoldable pub query : Store T S → Env → QueryMsg → StdResult Binary
  unfolding get_current_exchange_rate get_expected_exchange_rate
  query s env token_info = do
    info ← p.cw20.query_token_info s.cw20
    (exchange_rate, _) ←
        map_err (λ e. generic_err (p.host.error_to_string e)) (get_current_exchange_rate p s env)
    (expected_exchange_rate, _) ←
        map_err (λ e. generic_err (p.host.error_to_string e)) (get_expected_exchange_rate p s env)
    p.host.to_binary (
        token_info_response_with_limit (record {
          name = info.name;
          symbol = info.symbol;
          decimals = info.decimals;
          total_supply = info.total_supply;
          exchange_rate = exchange_rate;
          expected_exchange_rate = expected_exchange_rate;
        }))
  query s env (other_query q) = p.cw20.query s.cw20 env (other_query q)

unfoldable pub migrate :
    {T S : Type 0} → Store T S → Env → MigrateMsg → StdResult (Store T S × Response)
migrate s env msg = ok (s, empty_response)
