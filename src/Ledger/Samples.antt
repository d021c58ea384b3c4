-- ===== src/Ledger/Samples.antt =====
-- A configuration, calls and worlds on which the theorems of the ledger are tried.
use px.Prelude.{String, refl, true, false, none, if◌then◌else◌, inl, inr, Bool-cases}
use px.Prelude.Int.{pos}
use px.Prelude.Text.{starts_with, all_hex}
use px.Journal.State.{EncryptedJournalRecord, empty_journal}
use px.Ledger.State.{Config, Env, World, empty_ledger}
use px.Ledger.Accounts.{total_balance}
use px.Ledger.Transfers.{LedgerTransferInput}
use px.Ledger.Deposits.{LedgerDepositInput}
use px.Ledger.Payouts.{LedgerPayoutInput}
use px.Ledger.Steps.{credits, step}
use px.Ledger.Steps.Sound.{IsSound}
use px.Ledger.Valid.{IsValid}
use px.Ledger.Valid.Next.{IsHexDigest}

abbrev sample_digest : String → String
sample_digest s =
    if starts_with s "deposit:"
    then "0123456789abcdef0123456789abcdef0123456789abcdef0123456789abcdef"
    else if starts_with s "authorization:"
    then "1123456789abcdef0123456789abcdef0123456789abcdef0123456789abcdef"
    else if starts_with s "payout:"
    then "2123456789abcdef0123456789abcdef0123456789abcdef0123456789abcdef"
    else "3123456789abcdef0123456789abcdef0123456789abcdef0123456789abcdef"

abbrev empty_record : EncryptedJournalRecord
empty_record = record { iv = ""; tag = ""; ciphertext = "" }

abbrev pub sample_config : Config
sample_config = record {
  sha256 = sample_digest;
  account_hmac = λ s. s;
  sha256_node = λ a b. a;
  cipher = record { encrypt = λ key iv e. empty_record; decrypt = λ key r. none };
  base_asset_key = "base:0xusdc";
  retention_ms = 1000;
}

pub sample_config-IsHexDigest : IsHexDigest sample_config
unfolding all_hex
sample_config-IsHexDigest s = elim (Bool-cases (starts_with s "deposit:")) [
  | inl d ↦ rw d
  | inr no_d ↦ elim (Bool-cases (starts_with s "authorization:")) [
    | inl a ↦ rw (no_d, a)
    | inr no_a ↦ elim (Bool-cases (starts_with s "payout:")) [
      | inl p ↦ rw (no_d, no_a, p)
      | inr no_p ↦ rw (no_d, no_a, no_p)
    ]
  ]
]

abbrev pub sample_env : Env
sample_env = record {
  now = 10;
  random_salt = "salt";
  random_id = "id";
  journal = record {
    random_id = "0123456789abcdef0123456789abcdef";
    random_key = "key";
    random_iv = "iv";
    key_written = true;
    data_written = true;
    removal = λ id. record { key_removed = true; data_removed = true };
  };
  persists = true;
  replaces = false;
}

abbrev pub empty_world : World
empty_world = record { memory = empty_ledger; disk = empty_ledger; journal = empty_journal }

abbrev pub sample_deposit : LedgerDepositInput
sample_deposit = record {
  agent_id = "alice";
  amount_atomic = pos 100;
  network = "base";
  asset_key = "base:0xUSDC";
  transaction_hash = "0xAB";
  transfer_index = none;
  accepted_at = none;
}

abbrev pub sample_transfer : LedgerTransferInput
sample_transfer = record {
  payer_agent_id = "alice";
  payee_agent_id = "bob";
  amount_atomic = pos 30;
  asset_key = "base:0xUSDC";
  authorization_nonce = "n";
  resource_hash = "0x1";
  accepted_at = none;
}

abbrev pub sample_payout : LedgerPayoutInput
sample_payout = record {
  agent_id = "alice";
  amount_atomic = pos 20;
  asset_key = "base:0xUSDC";
  network = "base";
  payout_ref = "p";
  plan_hash = "plan";
  accepted_at = none;
}

empty-IsValid : IsValid empty_ledger
unfolding total_balance
empty-IsValid = record {
  refs = refl;
  accounts = refl;
  transfers = refl;
  batches = refl;
  balanced = λ asset. refl;
}

pub empty-IsSound : IsSound empty_world
empty-IsSound = (empty-IsValid, empty-IsValid)

-- Alice holds 100.
abbrev pub funded_world : World
funded_world = step sample_config sample_env (credits sample_deposit) empty_world
