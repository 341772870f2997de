-- ===== src/Reward.antt =====
-- contracts/cavern-lsd-reward: the contract that swaps what it receives to the reward denomination
-- and pays it to the custody contract.
pub mod Store
pub mod Swap
pub mod Querier
pub mod Global
pub mod User
pub mod Claims
pub mod Best
pub mod Tokens
pub mod Contract
pub mod Holders
pub mod Assets
pub mod Swapped
pub mod Updates
pub mod Pages
pub mod Reach
