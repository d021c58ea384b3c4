-- ===== src/Queue.antt =====
-- `PoolPayoutQueue` (src/server/payments/PoolPayoutQueue.ts): the queue that brings the legs of
-- payouts to the chains, between the ledger, the pending payout journal, the book of cohorts and the
-- rails.
pub mod State
pub mod Verdicts
pub mod Flush
pub mod Dispatch
pub mod Reconcile
pub mod Resolve
pub mod Standing
pub mod Moves
pub mod Agreement
pub mod Keeps
pub mod Settles
pub mod Blocks
pub mod Waves
pub mod Outcomes
pub mod Passes
pub mod Enqueue
pub mod Enters
pub mod Cohorts
pub mod Claims
pub mod Groups
pub mod Cover
pub mod Realized
pub mod Shuffle
pub mod Samples
pub mod Gate
pub mod Windows
pub mod Due
pub mod Released
pub mod Parts
pub mod Gated
pub mod Leaving
pub mod Network
pub mod Listed
pub mod Whole
pub mod Steps
mod Tests
