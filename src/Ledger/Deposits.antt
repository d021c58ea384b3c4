-- ===== src/Ledger/Deposits.antt =====
-- `creditDeposit` and `depositProofClaim`: a transaction seen on chain raises an agent's balance and
-- lowers the escrow's, once.
use px.Prelude.{
  ℕ, String, Bool, true, false, ◌&&◌, ◌||◌, Option, none, some, [], ◌∷◌, ◌++◌, find, any, or_else,
  is_some, ltb, if◌then◌else◌,
}
use px.Prelude.Int.{ℤ, pos, ◌+ℤ◌, ◌-ℤ◌, ltb_ℤ, leb_ℤ}
use px.Prelude.Text.{str_eq, to_lower, ◌<>◌, decimal, decimal_ℤ, join_colon}
use px.Prelude.Action.{pure, gets, throw_if, ◌>>=◌, ◌>>◌}
use px.Journal.State.{deposit}
use px.Ledger.State.{
  Ledger, LedgerTransfer, Config, Env, LedgerAction, amount_not_positive, already_credited,
  credited_under_legacy_key, transfer_index_invalid, hash, escrow_account,
}
use px.Ledger.Accounts.{balance}
use px.Ledger.Checks.{put, persist_or_restore, journal_append}
use px.Ledger.Transfers.{LedgerTransferResult, has_auth, post_balances}

pub record LedgerDepositInput : Type 0 where
  pub agent_id : String
  pub amount_atomic : ℤ
  pub network : String
  pub asset_key : String
  pub transaction_hash : String
  pub transfer_index : Option ℕ
  pub accepted_at : Option ℕ

abbrev pub normal_transaction_hash : String → String → String
normal_transaction_hash network transaction_hash =
    if str_eq network "solana" then transaction_hash else to_lower transaction_hash

-- `legacyDepositAuthorizationHash`
unfoldable pub legacy_deposit_authorization_hash : Config → String → String → String
legacy_deposit_authorization_hash cfg network transaction_hash = hash cfg (
    if str_eq network "base"
    then "deposit:" <> transaction_hash
    else "deposit:" <> network <> ":" <> transaction_hash)

-- `Number.MAX_SAFE_INTEGER`
abbrev max_safe_integer : ℕ
max_safe_integer = 9007199254740991

-- `indexedDepositAuthorizationHash`; the check of the index stands in the callers.
unfoldable pub indexed_deposit_authorization_hash : Config → String → String → ℕ → String
indexed_deposit_authorization_hash cfg network transaction_hash transfer_index =
    hash cfg
      ("depositProof:" <> network <> ":" <> transaction_hash <> ":" <> decimal transfer_index)

abbrev pub index_unsafe : Option ℕ → Bool
index_unsafe none = false
index_unsafe (some i) = ltb max_safe_integer i

abbrev pub auth_for : Config → String → String → Option ℕ → String
auth_for cfg network transaction_hash none =
    legacy_deposit_authorization_hash cfg network transaction_hash
auth_for cfg network transaction_hash (some i) =
    indexed_deposit_authorization_hash cfg network transaction_hash i

abbrev pub legacy_auth : Config → LedgerDepositInput → String
legacy_auth cfg input =
    legacy_deposit_authorization_hash cfg input.network
      (normal_transaction_hash input.network input.transaction_hash)

abbrev pub deposit_auth : Config → LedgerDepositInput → String
deposit_auth cfg input =
    auth_for cfg input.network (normal_transaction_hash input.network input.transaction_hash)
      input.transfer_index

-- The proof stands in an open transfer or among the tombstones.
abbrev pub is_claimed : String → Ledger → Bool
is_claimed auth s = any (has_auth auth) s.transfers || any (str_eq auth) s.consumed_deposit_hashes

unfoldable pub deposit_commitment : Config → Env → LedgerDepositInput → String
deposit_commitment cfg env input = hash cfg (
    join_colon (
      "px402-private-ledger-deposit/v2"
      ∷ input.agent_id
      ∷ decimal_ℤ input.amount_atomic
      ∷ to_lower input.asset_key
      ∷ deposit_auth cfg input
      ∷ decimal (or_else input.accepted_at env.now)
      ∷ env.random_salt
      ∷ []))

unfoldable pub credited : Config → Env → LedgerDepositInput → String → Ledger → Ledger
credited cfg env input epoch_id s =
    let asset = to_lower input.asset_key in
    let posted =
      post_balances cfg input.agent_id (escrow_account asset) asset
        (balance cfg input.agent_id asset s +ℤ input.amount_atomic)
        (balance cfg (escrow_account asset) asset s -ℤ input.amount_atomic) s in
    record posted {
      consumed_deposit_hashes = posted.consumed_deposit_hashes ++ deposit_auth cfg input ∷ [];
      transfers =
          posted.transfers
          ++ record {
            id = "deposit-" <> env.random_id;
            source = deposit;
            asset = asset;
            authorization_hash = deposit_auth cfg input;
            commitment = deposit_commitment cfg env input;
            accepted_at = or_else input.accepted_at env.now;
            epoch_id = epoch_id;
            batch_id = none;
            transaction_hash = none;
            settled_at = none;
            reversal_account_ref = none;
            reversal_amount_atomic = none;
            plan_hash = none;
            reservation_binding = none;
            payout_ref = none;
          }
            ∷ [];
    }

-- `creditDeposit` past its look for an open transfer of the same proof.
unfoldable pub credit_fresh : Config → Env → LedgerDepositInput → LedgerAction LedgerTransferResult
credit_fresh cfg env input = do
  let asset = to_lower input.asset_key
  s ← gets (λ w. w.memory)
  throw_if (any (str_eq (deposit_auth cfg input)) s.consumed_deposit_hashes) already_credited
  throw_if (is_some input.transfer_index && is_claimed (legacy_auth cfg input) s)
      credited_under_legacy_key
  epoch_id ← journal_append cfg env asset (record {
    source = deposit;
    asset = asset;
    payer = none;
    payee = input.agent_id;
    amount_atomic = input.amount_atomic;
    resource_hash = none;
    authorization_hash = deposit_auth cfg input;
    commitment = deposit_commitment cfg env input;
    salt = env.random_salt;
    accepted_at = or_else input.accepted_at env.now;
  })
  previous ← gets (λ w. w.memory)
  put (credited cfg env input epoch_id previous)
  persist_or_restore env previous
  pure (record {
    commitment = deposit_commitment cfg env input;
    payer_balance_atomic = balance cfg input.agent_id asset s +ℤ input.amount_atomic;
    accepted_at = or_else input.accepted_at env.now;
    duplicate = false;
  })

abbrev pub repeated_or_fresh :
    Config
    → Env
    → LedgerDepositInput
    → Ledger
    → Option LedgerTransfer
    → LedgerAction LedgerTransferResult
repeated_or_fresh cfg env input s none = credit_fresh cfg env input
repeated_or_fresh cfg env input s (some existing) = pure (record {
  commitment = existing.commitment;
  payer_balance_atomic = balance cfg input.agent_id input.asset_key s;
  accepted_at = existing.accepted_at;
  duplicate = true;
})

unfoldable pub credit_deposit :
    Config → Env → LedgerDepositInput → LedgerAction LedgerTransferResult
credit_deposit cfg env input = do
  throw_if (leb_ℤ input.amount_atomic (pos 0)) amount_not_positive
  throw_if (index_unsafe input.transfer_index) transfer_index_invalid
  s ← gets (λ w. w.memory)
  repeated_or_fresh cfg env input s (find (has_auth (deposit_auth cfg input)) s.transfers)

pub data ProofClaim : Type 0 where
  indexed legacy : ProofClaim

-- `depositProofClaim`, for an index that is a safe integer.
unfoldable pub deposit_proof_claim : Config → String → String → ℕ → Ledger → Option ProofClaim
deposit_proof_claim cfg network transaction_hash transfer_index s =
    let transaction = normal_transaction_hash network transaction_hash in
    if is_claimed (indexed_deposit_authorization_hash cfg network transaction transfer_index) s
    then some indexed
    else if is_claimed (legacy_deposit_authorization_hash cfg network transaction) s
    then some legacy
    else none

-- `ledgerLiability`
unfoldable pub ledger_liability : Config → String → Ledger → ℤ
ledger_liability cfg asset_key s =
    let escrow = balance cfg (escrow_account (to_lower asset_key)) asset_key s in
    if ltb_ℤ escrow (pos 0) then pos 0 -ℤ escrow else pos 0
