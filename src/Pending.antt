-- ===== src/Pending.antt =====
-- `PendingPayoutJournal` (src/server/payments/PendingPayoutJournal.ts): the groups of payout legs
-- that the queue still has to bring to the chain, in memory and in a file.
pub mod State
pub mod Methods
pub mod Marks
pub mod Valid
pub mod Calls
pub mod Refs
pub mod Grows
pub mod Gens
pub mod Once
mod Tests
