-- ===== src/LsdHub/Coin.antt =====
-- packages/wrapper_implementations/src/coin.rs: a wrapped native coin, whose rate an oracle feeds.
use Prim.Native.String.{◌++◌ as ◌<>◌}
use cavern_lsd_wrapper.Base.{
  ℕ, String, Bool, true, Option, none, some, List, [], ◌∷◌, ◌-◌, ltb, ◌==◌, nat_eq, string_eq, ◌||◌,
  not, if◌then◌else◌, ok, err, panic, generic_err, StdResult, ensure, map_err, ◌>>=◌, ◌>>◌,
}
use cavern_lsd_wrapper.Std.{Uint128, Decimal, Addr, Coin, CosmosMsg, bank_send, Env, MessageInfo}
use cavern_lsd_wrapper.Basset.Oracle.{PriceResponse, price}
use cavern_lsd_wrapper.Basset.Payload.{oracle_query}
use cavern_lsd_wrapper.Host.{Host}
use cavern_lsd_wrapper.LsdHub.Trait.{LsdHub}

pub record StrideLsdConfigRaw : Type 0 where
  pub denom : String
  pub underlying_token_denom : String
  pub oracle_contract : String

pub record StrideLsdConfig : Type 0 where
  pub denom : String
  pub underlying_token_denom : String
  pub oracle_contract : Addr

-- packages/basset/src/price_querier.rs
pub record TimeConstraints : Type 0 where
  pub block_time : ℕ
  pub valid_timeframe : ℕ

-- The check of the two dates; the checked subtraction of `u64` panics below zero.
unfoldable pub check_times : PriceResponse → TimeConstraints → StdResult PriceResponse
check_times p c =
    if ltb c.block_time c.valid_timeframe
    then panic
    else if ltb p.last_updated_base (c.block_time - c.valid_timeframe)
        || ltb p.last_updated_quote (c.block_time - c.valid_timeframe)
    then err (generic_err "Price is too old")
    else ok p

unfoldable pub query_price :
    Host → Addr → String → String → Option TimeConstraints → StdResult PriceResponse
unfolding check_times
query_price h oracle_addr base quote time_constraints = do
  query ← h.to_binary (oracle_query (price base quote))
  oracle_price ← h.smart_price oracle_addr query
  elim time_constraints [ none ↦ ok oracle_price | some c ↦ check_times oracle_price c ]

unfoldable pub instantiate_config : Host → StrideLsdConfigRaw → StdResult StrideLsdConfig
instantiate_config h config = do
  oracle_contract ← h.addr_validate config.oracle_contract
  ok (record {
    denom = config.denom;
    underlying_token_denom = config.underlying_token_denom;
    oracle_contract = oracle_contract;
  })

unfoldable pub query_exchange_rate : StrideLsdConfig → Host → Env → StdResult Decimal
unfolding query_price
query_exchange_rate c h env = do
  exchange_rate ← query_price h c.oracle_contract c.denom c.underlying_token_denom none
  uint128_atomics ← h.try_into_uint128 exchange_rate.rate
  map_err generic_err (h.from_atomics uint128_atomics h.decimal_places)

unfoldable pub get_balance : StrideLsdConfig → Host → Env → Addr → StdResult Uint128
get_balance c h env address = h.query_balance address c.denom >>= λ balance. ok balance.amount

-- `funds.len() != 1 || funds[0].denom != denom || funds[0].amount < amount`
unfoldable pub wrong_funds : String → Uint128 → List Coin → Bool
wrong_funds denom amount [] = true
wrong_funds denom amount (coin ∷ []) = not (coin.denom == denom) || ltb coin.amount amount
wrong_funds denom amount (_ ∷ _ ∷ _) = true

unfoldable pub deposit_funds :
    StrideLsdConfig → Host → Env → MessageInfo → Uint128 → Addr → StdResult (List CosmosMsg)
unfolding wrong_funds
deposit_funds c h env info amount from = do
  ensure (not (wrong_funds c.denom amount info.funds)) (
      generic_err (
        "You need to deposit the right funds, deposited "
        <> (h.coins_to_debug info.funds <> (", needed " <> (h.uint_to_string amount <> c.denom)))))
  ok []

unfoldable pub send_funds :
    StrideLsdConfig → Host → Env → Uint128 → Addr → StdResult (List CosmosMsg)
send_funds c h env amount to =
    ok (bank_send to (record { denom = c.denom; amount = amount } ∷ []) ∷ [])

abbrev pub stride_hub : LsdHub StrideLsdConfigRaw StrideLsdConfig
stride_hub = record {
  instantiate_config = instantiate_config;
  query_exchange_rate = query_exchange_rate;
  get_balance = get_balance;
  deposit_funds = deposit_funds;
  send_funds = send_funds;
}
