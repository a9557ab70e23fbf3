-- ===== src/Tests.antt =====
-- Examples: the theorems on concrete inputs.
pub mod Data
pub mod Pools
pub mod Pairs
pub mod Obligations
pub mod Keeper
pub mod Requests
pub mod Liquidations
pub mod Cached
pub mod Swaps
pub mod Reactions
