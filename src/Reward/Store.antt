-- ===== src/Reward/Store.antt =====
-- contracts/cavern-lsd-reward/src/state.rs: the items of the storage, each absent until it is saved.
use cavern_lsd_wrapper.Base.{String, Option, none, some, List, ok, StdResult, load, ◌>>=◌}
use cavern_lsd_wrapper.Std.{Uint128, Decimal, Addr}

pub record SwapConfig : Type 0 where
  pub astroport_addr : Addr
  pub phoenix_addr : Addr
  pub terraswap_addr : Addr

pub record Config : Type 0 where
  pub owner : Addr
  pub hub_contract : Addr
  pub custody_contract : Option Addr
  pub reward_denom : String
  pub known_cw20_tokens : List Addr

pub record State : Type 0 where
  pub global_index : Decimal
  pub total_balance : Uint128
  pub prev_reward_balance : Uint128

pub record Holder : Type 0 where
  pub balance : Uint128
  pub index : Decimal
  pub pending_rewards : Decimal

pub record Store : Type 0 where
  pub state : Option State
  pub config : Option Config
  pub swap_config : Option SwapConfig
  pub holders : List (Addr × Holder)

abbrev pub store_config : Store → Config → Store
store_config s config = record s { config = some config }

abbrev pub read_config : Store → StdResult Config
read_config s = load s.config

abbrev pub store_state : Store → State → Store
store_state s state = record s { state = some state }

abbrev pub read_state : Store → StdResult State
read_state s = load s.state

-- The operations of the storage's `Map` that are used, over its entries: an entry is saved, one is
-- loaded where there is one, and the entries after a key are iterated, each of which may not be read.
pub record HolderMap : Type 0 where
  pub save : List (Addr × Holder) → Addr → Holder → StdResult (List (Addr × Holder))
  pub may_load : List (Addr × Holder) → Addr → StdResult (Option Holder)
  pub range : List (Addr × Holder) → Option String → List (StdResult (Addr × Holder))

unfoldable pub store_holder : HolderMap → Store → Addr → Holder → StdResult Store
store_holder map s a v = do holders ← map.save s.holders a v; ok (record s { holders = holders })

-- The holder that is read, all zeros where there is none.
abbrev pub holder_or_none : Option Holder → Holder
holder_or_none (some v) = v
holder_or_none none = record { balance = 0; index = 0; pending_rewards = 0 }

unfoldable pub read_holder : HolderMap → Store → Addr → StdResult Holder
read_holder map s a = do res ← map.may_load s.holders a; ok (holder_or_none res)
