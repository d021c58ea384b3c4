-- ===== src/Ledger/Batches.antt =====
-- `createSettlementBatch`, `unsettledBatch`, `markBatchCommitted` and `burnExpired`.
use px.Prelude.{
  ℕ, ◌+◌, String, Bool, false, not, ◌&&◌, ◌||◌, Option, none, some, List, [], ◌∷◌, ◌++◌, map, find,
  any, keep, or_else, is_some, update_first, length, leb, if◌then◌else◌,
}
use px.Prelude.Text.{str_eq, to_lower, ◌<>◌}
use px.Prelude.Action.{Result, ok, err, pure, throw, gets, throw_if, ◌>>=◌, ◌>>◌}
use px.Journal.State.{JournalError}
use px.Journal.Methods.{burn, seal_asset, unique}
use px.Ledger.State.{
  Ledger, LedgerTransfer, SettlementBatch, Config, Env, LedgerError, LedgerAction,
  asset_key_mismatch, batch_not_found, journal_failed, private_ledger_asset_key, truthy,
  truthy_time,
}
use px.Ledger.Checks.{put, persist, persist_or_restore}
use px.Ledger.Payouts.{is_payout}
use px.Ledger.Merkle.{merkle_root}

pub record BatchInput : Type 0 where
  pub asset_key : String
  pub network : String
  pub token_address : String

-- A transfer that no batch holds; a payout counts once it is settled.
abbrev pub is_batchable : String → LedgerTransfer → Bool
is_batchable asset t =
    not (truthy t.batch_id)
    && str_eq t.asset asset
    && (not (is_payout t.source) || is_some t.settled_at)

abbrev pub assign_batch : String → String → LedgerTransfer → LedgerTransfer
assign_batch asset batch_id t =
    if is_batchable asset t then record t { batch_id = some batch_id } else t

abbrev pub commitments : List LedgerTransfer → List String
commitments [] = []
commitments (t ∷ ts) = t.commitment ∷ commitments ts

abbrev pub new_batch_id : Env → String
new_batch_id env = "batch-" <> env.random_id

unfoldable pub new_batch : Config → Env → BatchInput → Ledger → SettlementBatch
new_batch cfg env input s =
    let asset = to_lower input.asset_key in
    let pending = keep (is_batchable asset) s.transfers in
    record {
      id = new_batch_id env;
      asset = asset;
      network = input.network;
      token_address = input.token_address;
      merkle_root = merkle_root cfg (commitments pending);
      transfer_count = length pending;
      created_at = env.now;
      transaction_hash = none;
      settled_at = none;
    }

unfoldable pub with_batch : Config → Env → BatchInput → Ledger → Ledger
with_batch cfg env input s = record s {
  transfers = map (assign_batch (to_lower input.asset_key) (new_batch_id env)) s.transfers;
  batches = s.batches ++ new_batch cfg env input s ∷ [];
}

abbrev seal_epoch : String → LedgerAction (Unit {0})
seal_epoch asset w = (ok tt, record w { journal = (seal_asset asset w.journal).1 })

unfoldable pub batch_pending :
    Config → Env → BatchInput → List LedgerTransfer → LedgerAction (Option SettlementBatch)
batch_pending cfg env input [] = pure none
batch_pending cfg env input (_ ∷ _) = do
  seal_epoch (to_lower input.asset_key)
  previous ← gets (λ w. w.memory)
  put (with_batch cfg env input previous)
  persist_or_restore env previous
  pure (some (new_batch cfg env input previous))

unfoldable pub create_settlement_batch :
    Config → Env → BatchInput → LedgerAction (Option SettlementBatch)
create_settlement_batch cfg env input = do
  let asset = to_lower input.asset_key
  throw_if (not (str_eq asset (private_ledger_asset_key input.network input.token_address)))
      asset_key_mismatch
  s ← gets (λ w. w.memory)
  batch_pending cfg env input (keep (is_batchable asset) s.transfers)

pub unsettled_batch : String → Ledger → Option SettlementBatch
unsettled_batch asset s =
    find (λ b. str_eq b.asset (to_lower asset) && not (truthy_time b.settled_at)) s.batches

abbrev lower_option : Option String → Option String
lower_option none = none
lower_option (some h) = some (to_lower h)

abbrev pub commit_batch : Env → Option String → SettlementBatch → SettlementBatch
commit_batch env transaction b = record b {
  transaction_hash = if str_eq b.network "solana" then transaction else lower_option transaction;
  settled_at = some env.now;
}

abbrev pub has_batch_id : String → SettlementBatch → Bool
has_batch_id batch_id b = str_eq b.id batch_id

-- Unlike the other methods, a failed write leaves the new batch in memory.
unfoldable pub commit_open_batch :
    Env → String → Option String → SettlementBatch → LedgerAction SettlementBatch
commit_open_batch env batch_id transaction b = do
  s ← gets (λ w. w.memory)
  put (record s {
    batches = update_first (has_batch_id batch_id) (commit_batch env transaction) s.batches;
  })
  persist env
  pure (commit_batch env transaction b)

abbrev pub commit_found :
    Env → String → Option String → Option SettlementBatch → LedgerAction SettlementBatch
commit_found env batch_id transaction none = throw batch_not_found
commit_found env batch_id transaction (some b) =
    if truthy_time b.settled_at then pure b else commit_open_batch env batch_id transaction b

unfoldable pub mark_batch_committed : Env → String → Option String → LedgerAction SettlementBatch
mark_batch_committed env batch_id transaction = do
  s ← gets (λ w. w.memory)
  commit_found env batch_id transaction (find (has_batch_id batch_id) s.batches)

pub record PrivateLedgerBurnResult : Type 0 where
  pub batches_compacted : ℕ
  pub transfers_removed : ℕ
  pub epochs_burned : ℕ

abbrev is_expired : ℕ → ℕ → SettlementBatch → Bool
is_expired retention_ms now b = elim b.settled_at [
  | none ↦ false
  | some t ↦ leb (t + retention_ms) now
]

abbrev batch_ids : List SettlementBatch → List String
batch_ids [] = []
batch_ids (b ∷ bs) = b.id ∷ batch_ids bs

unfoldable pub expired_batch_ids : Config → ℕ → Ledger → List String
expired_batch_ids cfg now s = unique (batch_ids (keep (is_expired cfg.retention_ms now) s.batches))

abbrev pub in_batches : List String → LedgerTransfer → Bool
in_batches ids t = truthy t.batch_id && any (str_eq (or_else t.batch_id "")) ids

abbrev pub epoch_ids : List LedgerTransfer → List String
epoch_ids [] = []
epoch_ids (t ∷ ts) = t.epoch_id ∷ epoch_ids ts

abbrev pub not_in_batches : List String → LedgerTransfer → Bool
not_in_batches ids t = not (in_batches ids t)

-- The epochs of removed transfers that no retained transfer shares.
unfoldable pub erasable_epochs : List String → Ledger → List String
erasable_epochs ids s =
    let retained = epoch_ids (keep (not_in_batches ids) s.transfers) in
    keep (λ e. not (any (str_eq e) retained)) (epoch_ids (keep (in_batches ids) s.transfers))

abbrev pub burn_result : Result JournalError ℕ → Result LedgerError ℕ
burn_result (ok n) = ok n
burn_result (err e) = err journal_failed

abbrev pub burn_epochs : Env → List String → LedgerAction ℕ
burn_epochs env epochs w =
    let (r, j) = burn env.journal.removal epochs w.journal in
    (burn_result r, record w { journal = j })

-- The ledger forgets what it burned; unlike elsewhere, a failed write does not bring it back.
unfoldable pub retain_and_persist :
    Env → List String → Ledger → ℕ → LedgerAction PrivateLedgerBurnResult
retain_and_persist env ids s burned = do
  put (record s { transfers = keep (not_in_batches ids) s.transfers })
  persist env
  pure (record {
    batches_compacted = length ids;
    transfers_removed = length (keep (in_batches ids) s.transfers);
    epochs_burned = burned;
  })

unfoldable pub burn_batches : Env → List String → LedgerAction PrivateLedgerBurnResult
burn_batches env [] =
    pure (record { batches_compacted = 0; transfers_removed = 0; epochs_burned = 0 })
burn_batches env (id ∷ ids) = do
  s ← gets (λ w. w.memory)
  burned ← burn_epochs env (erasable_epochs (id ∷ ids) s)
  retain_and_persist env (id ∷ ids) s burned

unfoldable pub burn_expired : Config → Env → ℕ → LedgerAction PrivateLedgerBurnResult
burn_expired cfg env now = do
  s ← gets (λ w. w.memory)
  burn_batches env (expired_batch_ids cfg now s)
