-- ===== src/Lib.antt =====
-- The contracts of the Cavern wrapped staking tokens, module by module.
--
-- A wrapper token (packages/cavern_lsd_wrapper_token, and with a limit over time
-- packages/cavern_lsd_wrapper_token_with_limit) holds a yield-bearing token and issues a cw20 token
-- against it. What the held token earns is taken out by a call of the hub
-- (contracts/cavern-lsd-hub), which sends the wrapper a decompounding to the reward contract
-- (contracts/cavern-lsd-reward, or packages/cavern_aAsset_custom_reward where the token must first
-- be unbonded) and then asks that contract to swap it to the reward denomination. The held token is
-- an implementation of the trait LSDHub (packages/wrapper_implementations, contracts/amp-lp-wrapper,
-- contracts/spectrum-wrapper).
--
-- - Base: numbers, texts and their order, and results. A call ends with a value, an error or a
--   panic, which no handler catches.
-- - Std, Std.Decimals: the data of cosmwasm_std that the contracts exchange, and its arithmetic as a
--   parameter `Decimals`; `Documented` states what its documentation says of each operation, with
--   the scale and the capacity as variables.
-- - Basset: the messages of packages/basset; Basset.Payload, all that is serialized.
-- - Host: what the chain gives a call (address validation, serialization, the replies to queries);
--   Cw20: the library cw20_base, over an abstract storage; Deployment: both with the LSDHub.
-- - Cw20.Supply, Custody: the interfaces of the solvency proofs. Cw20.Supply is
--   what the library does to the total supply, Custody what deposits and payments do to the
--   holdings; Custody.Tokens and Custody.Coins follow the transfers of the messages, and
--   Custody.Implementations fills the interface for the three tokens.
-- - LsdHub: the trait and its implementations Coin (coin.rs), Steak (steak.rs), Amp and Spectrum;
--   LsdHub.Deposit, which deposits of a coin are accepted, and LsdHub.Price, which prices.
-- - Pricing: how the decimals come out, and the bounds on every rounded amount.
-- - Token: the wrapper. Store (state.rs, msg.rs), Querier, Handler, Decompound and Contract
--   (contract.rs) hold the code; Handler.Prices, Querier.Rate, Decompound.Rewards and
--   Decompound.Backed what is proved of it, and Decompound.Authority who may decompound. Solvency
--   follows one call, Solvency.RoundTrip a mint and a burn, Reach the wrapper over time, Deployed
--   the same from the deployment on, and Redeem the burns of its holders.
-- - Limited: the wrapper with a limit, likewise; Rewards is its `compute_accrued_rewards`. What is
--   proved stands in Prices, Limit, Kept (one call), Reach (all storages that calls lead to),
--   Sends, Payout and Pays (a decompounding), Reach.Payments (what one pays in those storages),
--   Expected (the expected exchange rate), and Shares and
--   Solvency, what each message leaves of the backing of the supply.
-- - Hub, Reward, CustomReward: the hub and the reward contracts; CustomReward.AmpLp and
--   CustomReward.Spectrum are the two contracts over the custom reward package. What is proved
--   stands in Hub.Authority, Hub.Reach, Reward.Reach and CustomReward.Reach (the storages that calls
--   lead to from the deployment), Reward.Claims, Reward.Best (the choice of the router), Reward.Assets
--   and Reward.Swapped (what a swap sends), Reward.Tokens (the uniqueness test), Reward.Pages (the
--   stored holders, page by page), Reward.Updates,
--   CustomReward.Same (the two contracts against each other), CustomReward.Withdrawals,
--   CustomReward.Callback and CustomReward.Swapped (what a swap and its callback send).
-- - Update: the global update across the hub, the wrapper and the reward contract, as the chain
--   delivers the hub's messages (Update.Delivery). Update.Safety is what it leaves behind of the
--   wrapper without a limit and the reward contract, Update.Lp of the wrapper with a limit and the
--   custom reward contract.
-- - Contracts: the entry points of each deployed contract, which name the implementation that the
--   generic ones are used with; Contracts.Solvency follows the three wrappers without a limit from
--   these entry points on.
-- - Authority: who is refused what, across the contracts.
-- - Tests: runs and instances on a concrete chain.
--
-- A handler takes the storage and returns the new storage with the response; after an error or a
-- panic the chain keeps the old storage. Numbers are natural numbers: `Uint128`, the atomics of a
-- `Decimal`, `u64` with its overflow checks written out. Addresses and serialized messages are
-- texts, in the order of their bytes. No loop of the code needs fuel: all recursion is over lists.
-- The `Map` of the stored holders is a parameter, `HolderMap`, over its entries in their order.
-- The reader of Reward.Pages has fuel, one request more than there are holders.
--
-- Not modelled: the bindings in interface/, the mocks and tests, `ContractError` of
-- packages/basset, which no contract uses, and `println!`.
pub mod Base
pub mod Std
pub mod Basset
pub mod Host
pub mod Cw20
pub mod Custody
pub mod LsdHub
pub mod Deployment
pub mod Pricing
pub mod Token
pub mod Limited
pub mod Hub
pub mod Reward
pub mod CustomReward
pub mod Update
pub mod Contracts
pub mod Authority
pub mod Tests
