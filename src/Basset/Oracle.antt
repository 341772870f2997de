-- ===== src/Basset/Oracle.antt =====
-- packages/basset/src/oracle.rs: the messages and replies of the price oracle. A `Decimal256` is a
-- number, by its atomics.
use cavern_lsd_wrapper.Base.{ℕ, String, Option, List}
use cavern_lsd_wrapper.Std.{Decimal}

pub record InstantiateMsg : Type 0 where
  pub owner : String
  pub base_asset : String

-- `feed_price` carries pairs of an asset and its price.
pub data ExecuteMsg : Type 0 where
  update_config : Option String → ExecuteMsg
  register_feeder : String → String → ExecuteMsg
  feed_price : List (String × Decimal) → ExecuteMsg

pub record ConfigResponse : Type 0 where
  pub owner : String
  pub base_asset : String

pub record FeederResponse : Type 0 where
  pub asset : String
  pub feeder : String

pub record PriceResponse : Type 0 where
  pub rate : Decimal
  pub last_updated_base : ℕ
  pub last_updated_quote : ℕ

pub record PricesResponseElem : Type 0 where
  pub asset : String
  pub price : Decimal
  pub last_updated_time : ℕ

pub record PricesResponse : Type 0 where
  pub prices : List PricesResponseElem

pub data QueryMsg : Type 0 where
  config : QueryMsg
  feeder : String → QueryMsg
  price : String → String → QueryMsg
  prices : Option String → Option ℕ → QueryMsg
