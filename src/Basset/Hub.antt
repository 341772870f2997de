-- ===== src/Basset/Hub.antt =====
-- packages/basset/src/hub.rs: the state, messages and replies of the hub.
use cavern_lsd_wrapper.Base.{
  ℕ, String, Bool, List, Option, ◌==◌, nat_eq, ◌||◌, if◌then◌else◌, Outcome, ok, or_panic, ◌>>=◌,
}
use cavern_lsd_wrapper.Std.{Uint128, Decimal, Addr}
use cavern_lsd_wrapper.Std.Decimals.{Decimals}

pub record InstantiateMsg : Type 0 where
  pub reward_denom : String

pub record State : Type 0 where
  pub exchange_rate : Decimal
  pub total_bond_amount : Uint128
  pub last_index_modification : ℕ
  pub prev_hub_balance : Uint128

pub record Config : Type 0 where
  pub creator : Addr
  pub reward_contract : Option Addr
  pub token_contract : Option Addr

-- `State::update_exchange_rate`; the issued supply and the requested amount are added first.
unfoldable pub update_exchange_rate {ℓ} :
    {E : Type ℓ} → Decimals → State → Uint128 → Uint128 → Outcome E State
update_exchange_rate d s total_issued requested_with_fee = do
  actual_supply ← or_panic (d.uint_add total_issued requested_with_fee)
  if s.total_bond_amount == 0 || actual_supply == 0
      then ok (record s { exchange_rate = d.one })
      else or_panic (d.from_ratio s.total_bond_amount actual_supply) >>= λ r.
          ok (record s { exchange_rate = r })

pub data ExecuteMsg : Type 0 where
  update_config : Option String → Option String → Option String → ExecuteMsg
  update_global_index : ExecuteMsg

pub data QueryMsg : Type 0 where
  config state parameters : QueryMsg

pub record Parameters : Type 0 where
  pub reward_denom : String

pub record StateResponse : Type 0 where
  pub exchange_rate : Decimal
  pub total_bond_amount : Uint128
  pub last_index_modification : ℕ
  pub prev_hub_balance : Uint128

pub record ConfigResponse : Type 0 where
  pub owner : String
  pub reward_contract : Option String
  pub token_contract : Option String

pub data Cw20HookMsg : Type 0 where
  unbond : Cw20HookMsg

pub record UnbondHistory : Type 0 where
  pub batch_id : ℕ
  pub time : ℕ
  pub amount : Uint128
  pub applied_exchange_rate : Decimal
  pub withdraw_rate : Decimal
  pub released : Bool

pub record WhitelistedValidatorsResponse : Type 0 where
  pub validators : List String

pub record CurrentBatchResponse : Type 0 where
  pub id : ℕ
  pub requested_with_fee : Uint128

pub record WithdrawableUnbondedResponse : Type 0 where
  pub withdrawable : Uint128

abbrev pub UnbondRequest : Type 0
UnbondRequest = List (ℕ × Uint128)

pub record UnbondRequestsResponse : Type 0 where
  pub address : String
  pub requests : UnbondRequest

pub record AllHistoryResponse : Type 0 where
  pub history : List UnbondHistory
