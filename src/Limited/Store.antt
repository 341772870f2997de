-- ===== src/Limited/Store.antt =====
-- packages/cavern_lsd_wrapper_token_with_limit/src/state.rs and msg.rs: the items of the storage.
use cavern_lsd_wrapper.Base.{ℕ, String, Option, some, List, StdResult, load}
use cavern_lsd_wrapper.Std.{Uint128, Decimal, Addr}

-- The block time of the last decompounding is kept in nanoseconds, and read in seconds.
pub record DecompoundState : Type 0 where
  pub ratio_sum : Decimal
  pub total_seconds : ℕ
  pub last_decompound : ℕ

pub record DecompoundConfig : Type 0 where
  pub max_decompound_ratio : Option Decimal

-- The four items of the wrapper, each absent until it is saved, beside the storage of the token
-- library.
pub record Store (T S : Type 0) : Type 0 where
  pub lsd_config : Option T
  pub hub_contract : Option Addr
  pub decompound_state : Option DecompoundState
  pub decompound_config : Option DecompoundConfig
  pub cw20 : S

module _ {T S : Type 0} where
  abbrev pub read_lsd_config : Store T S → StdResult T
  read_lsd_config s = load s.lsd_config

  abbrev pub store_lsd_config : Store T S → T → Store T S
  store_lsd_config s config = record s { lsd_config = some config }

  abbrev pub read_hub_contract : Store T S → StdResult Addr
  read_hub_contract s = load s.hub_contract

  abbrev pub store_hub_contract : Store T S → Addr → Store T S
  store_hub_contract s hub_contract = record s { hub_contract = some hub_contract }

-- The source declares these, and no code reads them.
pub record LsdContracts : Type 0 where
  pub hub : Addr
  pub token : Addr

pub record WrapperState : Type 0 where
  pub lsd_exchange_rate : Decimal
  pub wlsd_supply : Uint128
  pub backing_luna : Decimal
  pub lsd_balance : Uint128

-- The field `types` holds no data.
pub record TokenInitMsg (I : Type 0) : Type 0 where
  pub name : String
  pub symbol : String
  pub decimals : ℕ
  pub initial_balances : List (String × Uint128)
  pub max_decompound_ratio : Option Decimal
  pub hub_contract : String
  pub lsd_config : I
