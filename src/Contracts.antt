-- ===== src/Contracts.antt =====
-- The entry points of every contract that is deployed: the generic contracts, with the implementation
-- that each names.
pub mod Coin
pub mod Steak
pub mod LsdWrapper
pub mod AmpLuna
pub mod BLuna
pub mod AmpLp
pub mod SpectrumLp
pub mod AmpLpReward
pub mod SpectrumReward
pub mod Solvency
