-- ===== src/Ledger/Valid/Postings.antt =====
-- The new ledgers of transfers, deposits, payouts and reversals are valid where the old one is.
use px.Prelude.{
  ℕ, String, inl, inr, Bool-cases, update_first, keep, all-keep, all-map_keeping, Option, none,
  some, List, all-remove_first, all-update_first, ◌≡◌, true, [], ◌∷◌, ◌++◌, all, all-append, ◌∙◌,
}
use px.Prelude.Int.{ℤ}
use px.Prelude.Text.{str_eq, to_lower, has_colon, starts_with}
use px.Ledger.State.{private_ledger_asset_key, Ledger, LedgerTransfer, Config, Env, escrow_account}
use px.Ledger.Accounts.{total_balance, set_balance, set_balance_by_ref}
use px.Ledger.Checks.{batch_ok, transfer_ok}
use px.Ledger.Transfers.{LedgerTransferInput, transfer_commitment, post_balances, transferred}
use px.Ledger.Deposits.{
  LedgerDepositInput, auth_for, deposit_commitment, credited, legacy_deposit_authorization_hash,
  indexed_deposit_authorization_hash,
}
use px.Ledger.Payouts.{LedgerPayoutInput, payout_commitment, paid_out, settle_first, mark_settled}
use px.Ledger.Reversals.{reversed}
use px.Ledger.Batches.{
  BatchInput, is_batchable, assign_batch, new_batch_id, new_batch, with_batch, has_batch_id,
  commit_batch, not_in_batches,
}
use px.Ledger.Valid.{IsValid}
use px.Ledger.Valid.Conserves.{
  AreApart, transferred-Conserves, credited-Conserves, paid_out-Conserves, reversed-Conserves,
}
use px.Ledger.Valid.Next.{
  IsAssetKey, hash-starts_with, accounts-set_twice, set_balance_twice, lower_key,
}

-- A transfer that joins the list passes the check if its asset has a colon and its texts are hashes.
transfers-append :
    (ts : List LedgerTransfer) (t : LedgerTransfer)
    → all transfer_ok ts ≡ true
    → has_colon t.asset ≡ true
    → starts_with t.commitment "0x" ≡ true
    → starts_with t.authorization_hash "0x" ≡ true
    → all transfer_ok (ts ++ t ∷ []) ≡ true
transfers-append ts t h c d e = all-append transfer_ok ts (t ∷ []) h (rw (c, d, e))

pub transferred-IsValid :
    (cfg : Config) (env : Env) (input : LedgerTransferInput) (epoch : String) (s : Ledger)
    → IsAssetKey input.asset_key
    → AreApart cfg input.payer_agent_id input.payee_agent_id
    → IsValid s
    → IsValid (transferred cfg env input epoch s)
unfolding transferred transfer_commitment post_balances set_balance set_balance_by_ref
transferred-IsValid cfg env input epoch s c apart v = record {
  refs = v.refs;
  accounts = set_balance_twice cfg _ _ (to_lower input.asset_key) _ _ s (lower_key _ c) v.accounts;
  transfers =
      transfers-append s.transfers _ v.transfers c (hash-starts_with cfg _)
        (hash-starts_with cfg _);
  batches = v.batches;
  balanced = λ b. transferred-Conserves cfg env input epoch s apart b ∙ v.balanced b;
}

deposit_auth-starts_with :
    (cfg : Config) (network transaction : String) (index : Option ℕ)
    → starts_with (auth_for cfg network transaction index) "0x" ≡ true
unfolding legacy_deposit_authorization_hash indexed_deposit_authorization_hash
deposit_auth-starts_with cfg network transaction none = hash-starts_with cfg _
deposit_auth-starts_with cfg network transaction (some i) = hash-starts_with cfg _

pub credited-IsValid :
    (cfg : Config) (env : Env) (input : LedgerDepositInput) (epoch : String) (s : Ledger)
    → IsAssetKey input.asset_key
    → AreApart cfg input.agent_id (escrow_account (to_lower input.asset_key))
    → IsValid s
    → IsValid (credited cfg env input epoch s)
unfolding credited deposit_commitment post_balances set_balance set_balance_by_ref
credited-IsValid cfg env input epoch s c apart v = record {
  refs = v.refs;
  accounts = set_balance_twice cfg _ _ (to_lower input.asset_key) _ _ s (lower_key _ c) v.accounts;
  transfers =
      transfers-append s.transfers _ v.transfers c (hash-starts_with cfg _)
        (deposit_auth-starts_with cfg input.network _ input.transfer_index);
  batches = v.batches;
  balanced = λ b. credited-Conserves cfg env input epoch s apart b ∙ v.balanced b;
}

pub paid_out-IsValid :
    (cfg : Config) (env : Env) (input : LedgerPayoutInput) (epoch : String) (s : Ledger)
    → IsAssetKey input.asset_key
    → AreApart cfg input.agent_id (escrow_account (to_lower input.asset_key))
    → IsValid s
    → IsValid (paid_out cfg env input epoch s)
unfolding paid_out payout_commitment set_balance set_balance_by_ref
paid_out-IsValid cfg env input epoch s c apart v = record {
  refs = v.refs;
  accounts = accounts-set_twice _ _ (to_lower input.asset_key) _ _ s (lower_key _ c) v.accounts;
  transfers =
      transfers-append s.transfers _ v.transfers c (hash-starts_with cfg _)
        (hash-starts_with cfg _);
  batches = v.batches;
  balanced = λ b. paid_out-Conserves cfg env input epoch s apart b ∙ v.balanced b;
}

pub reversed-IsValid :
    (cfg : Config) (payout_ref account_ref asset : String) (amount : ℤ) (s : Ledger)
    → has_colon (to_lower asset) ≡ true
    → IsValid s
    → IsValid (reversed cfg payout_ref account_ref asset amount s)
unfolding reversed set_balance set_balance_by_ref
reversed-IsValid cfg payout_ref account_ref asset amount s c v = record {
  refs = v.refs;
  accounts = accounts-set_twice account_ref _ asset _ _ s c v.accounts;
  transfers = all-remove_first transfer_ok _ s.transfers v.transfers;
  batches = v.batches;
  balanced = λ b. reversed-Conserves cfg payout_ref account_ref asset amount s b ∙ v.balanced b;
}

-- A settlement touches the transfers alone.
pub settle_first-IsValid :
    (cfg : Config) (env : Env) (payout_ref : String) (h : Option String) (s : Ledger)
    → IsValid s
    → IsValid (settle_first cfg env payout_ref h s)
unfolding total_balance
settle_first-IsValid cfg env payout_ref h s v = record {
  refs = v.refs;
  accounts = v.accounts;
  transfers =
      all-update_first transfer_ok _ (mark_settled env h) s.transfers (λ t k. k) v.transfers;
  batches = v.batches;
  balanced = v.balanced;
}

assign_batch-transfer_ok :
    (asset id : String) (t : LedgerTransfer)
    → transfer_ok t ≡ true
    → transfer_ok (assign_batch asset id t) ≡ true
assign_batch-transfer_ok asset id t h = elim (Bool-cases (is_batchable asset t)) [
  | inl e ↦ rw e h
  | inr e ↦ rw e h
]

pub with_batch-IsValid :
    (cfg : Config) (env : Env) (input : BatchInput) (s : Ledger)
    → str_eq (to_lower input.asset_key) (private_ledger_asset_key input.network input.token_address)
      ≡ true
    → IsValid s
    → IsValid (with_batch cfg env input s)
unfolding with_batch new_batch total_balance
with_batch-IsValid cfg env input s e v = record {
  refs = v.refs;
  accounts = v.accounts;
  transfers =
      all-map_keeping transfer_ok _ s.transfers
        (assign_batch-transfer_ok (to_lower input.asset_key) (new_batch_id env)) v.transfers;
  batches = all-append batch_ok s.batches _ v.batches (rw e);
  balanced = v.balanced;
}

pub commit_batch-IsValid :
    (env : Env) (batch_id : String) (transaction : Option String) (s : Ledger)
    → IsValid s
    → IsValid (record s {
      batches = update_first (has_batch_id batch_id) (commit_batch env transaction) s.batches;
    })
unfolding total_balance
commit_batch-IsValid env batch_id transaction s v = record {
  refs = v.refs;
  accounts = v.accounts;
  transfers = v.transfers;
  batches =
      all-update_first batch_ok _ (commit_batch env transaction) s.batches (λ b k. k) v.batches;
  balanced = v.balanced;
}

pub retained-IsValid :
    (ids : List String) (s : Ledger)
    → IsValid s
    → IsValid (record s { transfers = keep (not_in_batches ids) s.transfers })
unfolding total_balance
retained-IsValid ids s v = record {
  refs = v.refs;
  accounts = v.accounts;
  transfers = all-keep transfer_ok _ s.transfers v.transfers;
  batches = v.batches;
  balanced = v.balanced;
}
