-- ===== src/Cw20.antt =====
-- `cw20_base`, the token library under the wrappers, as a parameter over the type of its storage.
pub mod Supply
use cavern_lsd_wrapper.Base.{ℕ, String, Option, List, StdResult, ContractResult}
use cavern_lsd_wrapper.Std.{Uint128, Binary, Opaque, Env, MessageInfo, Response}

pub record TokenInfo : Type 0 where
  pub name : String
  pub symbol : String
  pub decimals : ℕ
  pub total_supply : Uint128

-- `cw20_base::msg::InstantiateMsg`, with the minter of `MinterResponse` and its cap.
pub record InstantiateMsg : Type 0 where
  pub name : String
  pub symbol : String
  pub decimals : ℕ
  pub initial_balances : List (String × Uint128)
  pub minter : String
  pub cap : Option Uint128
  pub marketing : Option Opaque

-- `cw20_base::msg::QueryMsg`: the query that the wrappers answer themselves, and any other.
pub data QueryMsg : Type 0 where
  token_info : QueryMsg
  other_query : Opaque → QueryMsg

pub record Cw20 (S : Type 0) : Type 0 where
  pub instantiate : S → Env → MessageInfo → InstantiateMsg → ContractResult (S × Response)
  pub transfer : S → Env → MessageInfo → String → Uint128 → ContractResult (S × Response)
  pub burn : S → Env → MessageInfo → Uint128 → ContractResult (S × Response)
  pub mint : S → Env → MessageInfo → String → Uint128 → ContractResult (S × Response)
  pub send : S → Env → MessageInfo → String → Uint128 → Binary → ContractResult (S × Response)
  pub increase_allowance :
      S → Env → MessageInfo → String → Uint128 → Option Opaque → ContractResult (S × Response)
  pub decrease_allowance :
      S → Env → MessageInfo → String → Uint128 → Option Opaque → ContractResult (S × Response)
  pub transfer_from :
      S → Env → MessageInfo → String → String → Uint128 → ContractResult (S × Response)
  pub burn_from : S → Env → MessageInfo → String → Uint128 → ContractResult (S × Response)
  pub send_from :
      S → Env → MessageInfo → String → String → Uint128 → Binary → ContractResult (S × Response)
  pub update_minter : S → Env → MessageInfo → Option String → ContractResult (S × Response)
  pub update_marketing :
      S
      → Env
      → MessageInfo
      → Option String
      → Option String
      → Option String
      → ContractResult (S × Response)
  pub upload_logo : S → Env → MessageInfo → Opaque → ContractResult (S × Response)
  pub query : S → Env → QueryMsg → StdResult Binary
  pub query_token_info : S → StdResult TokenInfo
  pub query_balance : S → String → StdResult Uint128
