-- ===== src/Limited.antt =====
-- packages/cavern_lsd_wrapper_token_with_limit: the wrapper whose mint and burn follow its own
-- holdings, and whose decompounding is limited over time.
pub mod Store
pub mod Querier
pub mod Handler
pub mod Rewards
pub mod Decompound
pub mod Limit
pub mod Kept
pub mod Reach
pub mod Sends
pub mod Prices
pub mod Payout
pub mod Expected
pub mod Contract
pub mod Shares
pub mod Solvency
pub mod Pays
