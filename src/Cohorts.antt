-- ===== src/Cohorts.antt =====
-- `CohortBook` (src/server/payments/CohortBook.ts): which legs a window released together, and the
-- anonymity that they had once all of them had landed.
pub mod Book
pub mod Spec
pub mod Views
pub mod Matches
pub mod Refines
mod Tests
