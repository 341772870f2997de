-- ===== src/LsdHub.antt =====
-- The trait `LSDHub` of packages/cavern_lsd_wrapper_token (and, word for word the same, of
-- packages/cavern_lsd_wrapper_token_with_limit): what a wrapper asks of the token that it wraps.
pub mod Coin
pub mod Deposit
pub mod Steak
pub mod Amp
pub mod Spectrum
pub mod Trait
pub mod Price
