-- ===== src/Liquidation.antt =====
-- When an obligation may be liquidated and what a liquidation takes
-- (engine/src/lending_model/liquidation.rs): health and solvency in `Health`, the sweep market's
-- seizure in `Seize`, one (borrow, collateral) pair as the market judges it in `Pair`, the offer that
-- fits it in `Fit`, and the scan over the pairs of an obligation in `Scan`.
pub mod Health
pub mod Unpriced
pub mod Seize
pub mod Search
pub mod Pair
pub mod Fit
pub mod Scan
