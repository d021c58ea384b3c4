-- ===== src/Ledger/State.antt =====
-- The ledger file in memory and on disk, and what a call draws from outside.
use px.Prelude.{ℕ, String, Bool, true, false, Option, none, some, List, [], not, ◌==◌}
use px.Prelude.Int.{ℤ}
use px.Prelude.Text.{str_eq, to_lower, ◌<>◌}
use px.Prelude.Dict.{Dict}
use px.Prelude.Action.{Action}
use px.Journal.State.{Source, Cipher, Journal, JournalEnv}

pub record LedgerTransfer : Type 0 where
  pub id : String
  pub source : Source
  pub asset : String
  pub authorization_hash : String
  pub commitment : String
  pub accepted_at : ℕ
  pub epoch_id : String
  pub batch_id : Option String
  pub transaction_hash : Option String
  pub settled_at : Option ℕ
  pub reversal_account_ref : Option String
  pub reversal_amount_atomic : Option ℤ
  pub plan_hash : Option String
  pub reservation_binding : Option String
  pub payout_ref : Option String

pub record SettlementBatch : Type 0 where
  pub id : String
  pub asset : String
  pub network : String
  pub token_address : String
  pub merkle_root : String
  pub transfer_count : ℕ
  pub created_at : ℕ
  pub transaction_hash : Option String
  pub settled_at : Option ℕ

-- `LedgerFile`, version 4. An account's amounts are integers; the file holds their decimal texts.
pub record Ledger : Type 0 where
  pub accounts : Dict (Dict ℤ)
  pub transfers : List LedgerTransfer
  pub batches : List SettlementBatch
  pub consumed_deposit_hashes : List String
  pub consumed_voucher_refs : Dict (List String)

abbrev pub empty_ledger : Ledger
empty_ledger = record {
  accounts = [];
  transfers = [];
  batches = [];
  consumed_deposit_hashes = [];
  consumed_voucher_refs = [];
}

-- The options of the constructor, and `node:crypto`: `sha256` gives the hexadecimal digest of a
-- text, `account_hmac` that of the HMAC under the account key.
pub record Config : Type 0 where
  pub sha256 : String → String
  pub account_hmac : String → String
  pub sha256_node : String → String → String
  pub cipher : Cipher
  pub base_asset_key : String
  pub retention_ms : ℕ

-- What one call draws from outside: the clock, random bytes, whether the write of the file succeeds,
-- and whether one that fails had renamed the new file into place before (it fails after that when
-- the directory cannot be opened or synced).
pub record Env : Type 0 where
  pub now : ℕ
  pub random_salt : String
  pub random_id : String
  pub journal : JournalEnv
  pub persists : Bool
  pub replaces : Bool

pub record World : Type 0 where
  pub memory : Ledger
  pub disk : Ledger
  pub journal : Journal

pub data LedgerError : Type 0 where
  amount_not_positive insufficient liability_insufficient same_party : LedgerError
  already_credited credited_under_legacy_key plan_hash_required binding_mismatch : LedgerError
  payout_not_found conflicting_transaction batched settled reversal_data_missing : LedgerError
  asset_key_mismatch batch_not_found transfer_index_invalid : LedgerError
  voucher_refs_invalid account_asset_invalid transfer_invalid batch_invalid : LedgerError
  not_conserved persist_failed journal_failed negative_initial_balance : LedgerError

abbrev pub LedgerAction : Type 0 → Type 0
LedgerAction = Action World LedgerError

-- `hash`
unfoldable pub hash : Config → String → String
hash cfg value = "0x" <> cfg.sha256 value

-- `accountId`
unfoldable pub account_id : Config → String → String
account_id cfg agent_id = "acct_" <> cfg.account_hmac agent_id

-- `privateLedgerAssetKey` (src/shared/privateLedger.ts)
unfoldable pub private_ledger_asset_key : String → String → String
private_ledger_asset_key network token_address = network <> ":" <> to_lower token_address

abbrev pub escrow_account : String → String
escrow_account asset = "escrow:" <> asset

abbrev pub voucher_account : String → String → String
voucher_account asset keyset_id = "vouchers:" <> asset <> ":" <> keyset_id

-- A text or a time as a condition: absent, empty and zero are false.
abbrev pub truthy : Option String → Bool
truthy none = false
truthy (some s) = not (str_eq s "")

abbrev pub truthy_time : Option ℕ → Bool
truthy_time none = false
truthy_time (some t) = not (t == 0)

abbrev pub opt_str_eq : Option String → Option String → Bool
opt_str_eq none none = true
opt_str_eq none (some _) = false
opt_str_eq (some _) none = false
opt_str_eq (some s) (some t) = str_eq s t
