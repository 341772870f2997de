-- ===== src/LsdHub/Price.antt =====
-- packages/basset/src/price_querier.rs: how old a price may be.
use cavern_lsd_wrapper.Base.{◌+◌, ◌≤◌, ◌≡◌, ◌↔◌, String, some, ok, arith}
use cavern_lsd_wrapper.Std.{Addr, Binary}
use cavern_lsd_wrapper.Basset.Oracle.{PriceResponse, price}
use cavern_lsd_wrapper.Basset.Payload.{oracle_query}
use cavern_lsd_wrapper.Host.{Host}
use cavern_lsd_wrapper.LsdHub.Coin.{TimeConstraints, query_price, check_times}

-- The price passes the check exactly when the time frame does not reach back before time zero, and
-- neither date is older than the frame.
check_times-accepts :
    (p : PriceResponse) (c : TimeConstraints)
    → (check_times p c ≡ ok p) ↔ (
        (c.valid_timeframe ≤ c.block_time)
        × (c.block_time ≤ p.last_updated_base + c.valid_timeframe)
        × (c.block_time ≤ p.last_updated_quote + c.valid_timeframe))
unfolding check_times
check_times-accepts p c = (λ h. ground arith, λ (frame, base, quote). ground arith)

-- Where the oracle answers, its price is returned exactly when the time frame does not reach back
-- before time zero and neither of the two dates is older than the frame.
pub query_price-accepts :
    (h : Host) (oracle_addr : Addr) (base quote : String) (c : TimeConstraints) (query : Binary)
    (p : PriceResponse)
    → h.to_binary (oracle_query (price base quote)) ≡ ok query
    → h.smart_price oracle_addr query ≡ ok p
    → (query_price h oracle_addr base quote (some c) ≡ ok p) ↔ (
        (c.valid_timeframe ≤ c.block_time)
        × (c.block_time ≤ p.last_updated_base + c.valid_timeframe)
        × (c.block_time ≤ p.last_updated_quote + c.valid_timeframe))
unfolding query_price
query_price-accepts h oracle_addr base quote c query p written answered =
    rw (written, answered) (check_times-accepts p c)
