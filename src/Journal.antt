-- ===== src/Journal.antt =====
-- `EphemeralPaymentJournal` (src/server/payments/EphemeralPaymentJournal.ts): one encrypted file of
-- transfer details for each epoch, and one key file beside it. The directory is two dictionaries
-- from epoch identifiers to contents. AES-256-GCM is a parameter, `Cipher`.
pub mod State
pub mod Methods
pub mod Erasure
mod Tests
