-- ===== src/Std.antt =====
-- The vocabulary of `cosmwasm_std` that the contracts exchange: plain data, and the operations of
-- its numbers as a parameter.
pub mod Decimals
use cavern_lsd_wrapper.Base.{ℕ, ◌/◌, String, Option, none, some, List, [], ◌∷◌, ◌++◌, map}

-- `Uint128`, `Decimal` (its atomics) and `u64`. The ranges are those of the operations.
abbrev pub Uint128 : Type 0
Uint128 = ℕ

abbrev pub Decimal : Type 0
Decimal = ℕ

-- An address that `addr_validate` has passed, and the bytes of a serialized message.
abbrev pub Addr : Type 0
Addr = String

abbrev pub Binary : Type 0
Binary = String

-- A value of a library's type that the contracts only pass on.
abbrev pub Opaque : Type 0
Opaque = String

pub record Coin : Type 0 where
  pub denom : String
  pub amount : Uint128

pub data CosmosMsg : Type 0 where
  bank_send : String → List Coin → CosmosMsg
  wasm_execute : String → Binary → List Coin → CosmosMsg

pub data ReplyOn : Type 0 where
  never success : ReplyOn

pub record SubMsg : Type 0 where
  pub id : ℕ
  pub msg : CosmosMsg
  pub reply_on : ReplyOn

-- `SubMsg::new`
abbrev pub sub_msg : CosmosMsg → SubMsg
sub_msg m = record { id = 0; msg = m; reply_on = never }

pub record Response : Type 0 where
  pub messages : List SubMsg
  pub attributes : List (String × String)

abbrev pub empty_response : Response
empty_response = record { messages = []; attributes = [] }

-- `Response::add_messages` and `add_attributes`
abbrev pub add_messages : List CosmosMsg → Response → Response
add_messages ms r = record r { messages = r.messages ++ map sub_msg ms }

abbrev pub add_attributes : List (String × String) → Response → Response
add_attributes as' r = record r { attributes = r.attributes ++ as' }

-- `Timestamp::seconds` of a time in nanoseconds.
abbrev pub seconds_of : ℕ → ℕ
seconds_of nanos = nanos / 1000000000

-- `env.block.time`, in nanoseconds, and `env.contract.address`.
pub record Env : Type 0 where
  pub nanos : ℕ
  pub contract : Addr

pub record MessageInfo : Type 0 where
  pub sender : Addr
  pub funds : List Coin
