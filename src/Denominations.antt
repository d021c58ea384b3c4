-- ===== src/Denominations.antt =====
-- Payout denominations: configuration, decomposition and parity (src/shared/denominations.ts).
pub mod Config
pub mod Decompose
pub mod Parity
pub mod Tilings
pub mod Complete
pub mod Ladders
mod Tests
pub mod Search
pub mod Walk
pub mod Loop
pub mod Plans
pub mod Largest
pub mod Maximal
pub mod Payable
