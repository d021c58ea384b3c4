-- ===== src/Journal/State.antt =====
-- The journal's state. `JournalEnv` holds what a call draws from outside: the random identifier, key
-- and initialisation vector, whether the two file writes succeed, and what becomes of the removal of
-- the files of an epoch.
use px.Prelude.{ℕ, String, Bool, Option, List, []}
use px.Prelude.Int.{ℤ}
use px.Prelude.Dict.{Dict}
use px.Prelude.Action.{Action}

pub data Source : Type 0 where
  deposit voucher payout : Source

pub record JournalEntry : Type 0 where
  pub source : Source
  pub asset : String
  pub payer : Option String
  pub payee : String
  pub amount_atomic : ℤ
  pub resource_hash : Option String
  pub authorization_hash : String
  pub commitment : String
  pub salt : String
  pub accepted_at : ℕ

pub record EncryptedJournalRecord : Type 0 where
  pub iv : String
  pub tag : String
  pub ciphertext : String

pub record EpochHandle : Type 0 where
  pub id : String
  pub key : String

-- AES-256-GCM over the JSON text of an entry, by `node:crypto`. `decrypt` fails on a wrong tag.
-- Decryption under the key of encryption gives the entry back.
pub record Cipher : Type 0 where
  pub encrypt : String → String → JournalEntry → EncryptedJournalRecord
  pub decrypt : String → EncryptedJournalRecord → Option JournalEntry

pub record Journal : Type 0 where
  pub active_by_asset : Dict EpochHandle
  pub keys : Dict String
  pub key_files : Dict String
  pub data_files : Dict (List EncryptedJournalRecord)

-- What the removal of the two files of an epoch comes to; `Promise.all` starts both.
pub record Removal : Type 0 where
  pub key_removed : Bool
  pub data_removed : Bool

pub record JournalEnv : Type 0 where
  pub random_id : String
  pub random_key : String
  pub random_iv : String
  pub key_written : Bool
  pub data_written : Bool
  pub removal : String → Removal

pub data JournalError : Type 0 where
  key_file_failed data_file_failed key_missing data_missing bad_tag : JournalError
  invalid_epoch_id not_memory_backed removal_failed : JournalError

abbrev pub JournalAction : Type 0 → Type 0
JournalAction = Action Journal JournalError

abbrev pub empty_journal : Journal
empty_journal = record { active_by_asset = []; keys = []; key_files = []; data_files = [] }
