-- ===== src/Hub.antt =====
-- contracts/cavern-lsd-hub: the contract that triggers the decompounding of the wrapper and the swap
-- of the reward contract.
pub mod Store
pub mod Contract
pub mod Authority
pub mod Reach
