-- ===== src/Token.antt =====
-- packages/cavern_lsd_wrapper_token: the wrapper whose mint and burn follow the rate of the wrapped
-- token.
pub mod Store
pub mod Querier
pub mod Handler
pub mod Decompound
pub mod Solvency
pub mod Reach
pub mod Deployed
pub mod Redeem
pub mod Contract
