-- ===== src/CustomReward.antt =====
-- packages/cavern_aAsset_custom_reward: a reward contract that first turns the token it receives
-- from the wrapper into tokens that the routers take.
pub mod Trait
pub mod Store
pub mod Global
pub mod Contract
pub mod AmpLp
pub mod Spectrum
pub mod Callback
pub mod Withdrawals
pub mod Same
pub mod Reach
pub mod Swapped
