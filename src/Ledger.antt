-- ===== src/Ledger.antt =====
-- `PrivatePaymentLedger` (src/server/payments/PrivatePaymentLedger.ts): pseudonymous balances, the
-- transfers of the open epochs, public settlement batches, and the tombstones against replay.
pub mod State
pub mod Accounts
pub mod Checks
pub mod Vouchers
pub mod Transfers
pub mod Deposits
pub mod Payouts
pub mod Reversals
pub mod Merkle
pub mod Batches
pub mod Valid
pub mod Outcome
pub mod Steps
pub mod Funds
pub mod Undone
pub mod Open
pub mod Coverage
pub mod Spared
pub mod Samples
mod Tests
pub mod Load
pub mod Repair
pub mod Loaded
pub mod Conserving
