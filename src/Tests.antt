-- ===== src/Tests.antt =====
-- Runs of the contracts on concrete inputs, and the theorems at inputs that meet their hypotheses.
mod World
mod Library
mod Wrapper
mod Hub
mod Limited
mod Rewards
mod Coins
mod Backing
mod Payments
mod Holders
mod Swap
mod Update
mod Withdrawals
mod Updates
mod Contracts
mod Shares
mod Reached
mod Authority
mod UpdateLp
mod Recorded
