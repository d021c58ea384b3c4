-- ===== src/Concentration.antt =====
-- The payout-concentration metric k_eff and the gate that holds payouts back
-- (src/shared/payoutConcentration.ts).
pub mod Metric
pub mod Gate
pub mod Target
pub mod Owners
pub mod Least
pub mod Release
pub mod Bounds
mod Tests
