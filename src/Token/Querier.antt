-- ===== src/Token/Querier.antt =====
-- packages/cavern_lsd_wrapper_token/src/querier.rs
pub mod Rate
use cavern_lsd_wrapper.Base.{
  ◌==◌, nat_eq, if◌then◌else◌, ok, from_std, or_panic, ContractResult, ◌>>=◌,
}
use cavern_lsd_wrapper.Std.{Decimal, Env}
use cavern_lsd_wrapper.Deployment.{Deployment}
use cavern_lsd_wrapper.Token.Store.{Store, WrapperState, read_lsd_config}

module _ {I T S : Type 0} (p : Deployment I T S) where
  -- The rate, and what the code writes to its `&mut WrapperState`.
  unfoldable pub get_current_exchange_rate :
      Store T S → Env → ContractResult (Decimal × WrapperState)
  get_current_exchange_rate s env = do
    lsd_config ← from_std (read_lsd_config s)
    lsd_exchange_rate ← from_std (p.hub.query_exchange_rate lsd_config p.host env)
    balance ← from_std (p.hub.get_balance lsd_config p.host env env.contract)
    lsd_amount ← or_panic (p.host.from_ratio balance 1)
    luna_backing_token ← or_panic (p.host.mul lsd_amount lsd_exchange_rate)
    token_info ← from_std (p.cw20.query_token_info s.cw20)
    let state : WrapperState = record {
      lsd_exchange_rate = lsd_exchange_rate;
      wlsd_supply = token_info.total_supply;
      backing_luna = luna_backing_token;
      lsd_balance = balance;
    }
    if token_info.total_supply == 0
        then ok (p.host.one, state)
        else or_panic (p.host.div_uint luna_backing_token token_info.total_supply) >>= λ rate.
            ok (rate, state)
