-- ===== src/Pricing.antt =====
-- The roundings that both wrappers price with: how the operations of `Decimals` come out where
-- nothing overflows, and what the rounded amounts are worth.
pub mod Operations
pub mod Bounds
