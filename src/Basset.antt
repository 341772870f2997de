-- ===== src/Basset.antt =====
-- packages/basset: the messages and records that the contracts share.
pub mod Wrapper
pub mod Hub
pub mod Reward
pub mod DexRouter
pub mod Oracle
pub mod External
pub mod ErisLp
pub mod Payload
pub mod ErisCallback
