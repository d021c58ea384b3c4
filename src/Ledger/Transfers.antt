-- ===== src/Ledger/Transfers.antt =====
-- `transfer`: an agent pays another one.
use px.Prelude.{ℕ, String, Bool, true, false, Option, none, some, [], ◌∷◌, ◌++◌, find, or_else}
use px.Prelude.Int.{ℤ, pos, ◌+ℤ◌, ◌-ℤ◌, ltb_ℤ, leb_ℤ}
use px.Prelude.Text.{str_eq, to_lower, ◌<>◌, decimal, decimal_ℤ, join_colon}
use px.Prelude.Action.{pure, gets, throw_if, ◌>>=◌, ◌>>◌}
use px.Journal.State.{voucher}
use px.Ledger.State.{
  Ledger, LedgerTransfer, Config, Env, LedgerAction, amount_not_positive, insufficient, same_party,
  hash,
}
use px.Ledger.Accounts.{balance, set_balance}
use px.Ledger.Checks.{put, persist_or_restore, journal_append}

pub record LedgerTransferInput : Type 0 where
  pub payer_agent_id : String
  pub payee_agent_id : String
  pub amount_atomic : ℤ
  pub asset_key : String
  pub authorization_nonce : String
  pub resource_hash : String
  pub accepted_at : Option ℕ

pub record LedgerTransferResult : Type 0 where
  pub commitment : String
  pub payer_balance_atomic : ℤ
  pub accepted_at : ℕ
  pub duplicate : Bool

-- `(entry) => entry.authorizationHash === authorizationHash`
abbrev pub has_auth : String → LedgerTransfer → Bool
has_auth auth t = str_eq t.authorization_hash auth

abbrev pub transfer_auth : Config → LedgerTransferInput → String
transfer_auth cfg input = hash cfg ("authorization:" <> input.authorization_nonce)

unfoldable pub transfer_commitment : Config → Env → LedgerTransferInput → String
transfer_commitment cfg env input = hash cfg (
    join_colon (
      "px402-private-ledger/v2"
      ∷ input.payer_agent_id
      ∷ input.payee_agent_id
      ∷ decimal_ℤ input.amount_atomic
      ∷ to_lower input.asset_key
      ∷ transfer_auth cfg input
      ∷ input.resource_hash
      ∷ decimal (or_else input.accepted_at env.now)
      ∷ env.random_salt
      ∷ []))

-- Two writes of balances whose amounts were both read before the first write.
unfoldable pub post_balances : Config → String → String → String → ℤ → ℤ → Ledger → Ledger
post_balances cfg first second asset value other s =
    set_balance cfg second asset other (set_balance cfg first asset value s)

unfoldable pub transferred : Config → Env → LedgerTransferInput → String → Ledger → Ledger
transferred cfg env input epoch_id s =
    let asset = to_lower input.asset_key in
    let posted =
      post_balances cfg input.payer_agent_id input.payee_agent_id asset
        (balance cfg input.payer_agent_id asset s -ℤ input.amount_atomic)
        (balance cfg input.payee_agent_id asset s +ℤ input.amount_atomic) s in
    record posted {
      transfers =
          posted.transfers
          ++ record {
            id = "ledger-" <> env.random_id;
            source = voucher;
            asset = asset;
            authorization_hash = transfer_auth cfg input;
            commitment = transfer_commitment cfg env input;
            accepted_at = or_else input.accepted_at env.now;
            epoch_id = epoch_id;
            batch_id = none;
            transaction_hash = none;
            settled_at = none;
            reversal_account_ref = none;
            reversal_amount_atomic = none;
            plan_hash = none;
            reservation_binding = none;
            payout_ref = none;
          }
            ∷ [];
    }

-- `transfer` past its check for a repeated authorization.
unfoldable pub transfer_fresh :
    Config → Env → LedgerTransferInput → LedgerAction LedgerTransferResult
transfer_fresh cfg env input = do
  let asset = to_lower input.asset_key
  s ← gets (λ w. w.memory)
  throw_if (ltb_ℤ (balance cfg input.payer_agent_id asset s) input.amount_atomic) insufficient
  epoch_id ← journal_append cfg env asset (record {
    source = voucher;
    asset = asset;
    payer = some input.payer_agent_id;
    payee = input.payee_agent_id;
    amount_atomic = input.amount_atomic;
    resource_hash = some input.resource_hash;
    authorization_hash = transfer_auth cfg input;
    commitment = transfer_commitment cfg env input;
    salt = env.random_salt;
    accepted_at = or_else input.accepted_at env.now;
  })
  previous ← gets (λ w. w.memory)
  put (transferred cfg env input epoch_id previous)
  persist_or_restore env previous
  pure (record {
    commitment = transfer_commitment cfg env input;
    payer_balance_atomic = balance cfg input.payer_agent_id asset s -ℤ input.amount_atomic;
    accepted_at = or_else input.accepted_at env.now;
    duplicate = false;
  })

abbrev pub repeated_or_fresh :
    Config
    → Env
    → LedgerTransferInput
    → Ledger
    → Option LedgerTransfer
    → LedgerAction LedgerTransferResult
repeated_or_fresh cfg env input s none = transfer_fresh cfg env input
repeated_or_fresh cfg env input s (some existing) = pure (record {
  commitment = existing.commitment;
  payer_balance_atomic = balance cfg input.payer_agent_id input.asset_key s;
  accepted_at = existing.accepted_at;
  duplicate = true;
})

unfoldable pub transfer : Config → Env → LedgerTransferInput → LedgerAction LedgerTransferResult
transfer cfg env input = do
  throw_if (str_eq input.payer_agent_id input.payee_agent_id) same_party
  throw_if (leb_ℤ input.amount_atomic (pos 0)) amount_not_positive
  s ← gets (λ w. w.memory)
  repeated_or_fresh cfg env input s (find (has_auth (transfer_auth cfg input)) s.transfers)
