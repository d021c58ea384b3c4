-- ===== src/Ledger/Payouts.antt =====
-- `payout` and what may follow it: `markPayoutSettled`, `reversePayout`, `reverseOrphanPayouts`.
use px.Prelude.{
  ℕ, String, Bool, true, false, not, ◌&&◌, Option, none, some, [], ◌∷◌, ◌++◌, find, or_else,
  is_some, update_first, if◌then◌else◌,
}
use px.Prelude.Int.{ℤ, pos, ◌+ℤ◌, ◌-ℤ◌, ltb_ℤ, leb_ℤ}
use px.Prelude.Text.{str_eq, to_lower, network_part, ◌<>◌, decimal, decimal_ℤ, join_colon}
use px.Prelude.Action.{pure, throw, gets, throw_if, ◌>>=◌, ◌>>◌}
use px.Journal.State.{Source, deposit, voucher, payout}
use px.Ledger.State.{
  Ledger, LedgerTransfer, Config, Env, LedgerAction, amount_not_positive, insufficient,
  plan_hash_required, binding_mismatch, payout_not_found, conflicting_transaction, hash, account_id,
  escrow_account, opt_str_eq,
}
use px.Ledger.Accounts.{balance, set_balance, balance_by_ref, set_balance_by_ref, total_balance}
use px.Ledger.Checks.{put, assert_conserved, persist_or_restore, journal_append}

pub record LedgerPayoutInput : Type 0 where
  pub agent_id : String
  pub amount_atomic : ℤ
  pub asset_key : String
  pub network : String
  pub payout_ref : String
  pub plan_hash : String
  pub accepted_at : Option ℕ

pub record LedgerPayoutResult : Type 0 where
  pub commitment : String
  pub balance_atomic : ℤ
  pub accepted_at : ℕ
  pub duplicate : Bool

abbrev pub is_payout : Source → Bool
is_payout payout = true
is_payout deposit = false
is_payout voucher = false

abbrev pub payout_auth : Config → String → String
payout_auth cfg payout_ref = hash cfg ("payout:" <> payout_ref)

-- The test by which a payout's transfer is found.
abbrev pub is_payout_of : Config → String → LedgerTransfer → Bool
is_payout_of cfg payout_ref t =
    str_eq t.authorization_hash (payout_auth cfg payout_ref) && is_payout t.source

-- `payoutReservationBinding`
unfoldable pub payout_reservation_binding : Config → LedgerPayoutInput → String
payout_reservation_binding cfg input = hash cfg (
    join_colon (
      account_id cfg input.agent_id
      ∷ to_lower input.asset_key
      ∷ input.network
      ∷ decimal_ℤ input.amount_atomic
      ∷ input.plan_hash
      ∷ []))

unfoldable pub payout_commitment : Config → Env → LedgerPayoutInput → String
payout_commitment cfg env input = hash cfg (
    join_colon (
      "px402-private-ledger-payout/v1"
      ∷ input.agent_id
      ∷ decimal_ℤ input.amount_atomic
      ∷ to_lower input.asset_key
      ∷ input.network
      ∷ payout_auth cfg input.payout_ref
      ∷ decimal (or_else input.accepted_at env.now)
      ∷ env.random_salt
      ∷ []))

abbrev pub payout_transfer : Config → Env → LedgerPayoutInput → String → LedgerTransfer
payout_transfer cfg env input epoch_id = record {
  id = "payout-" <> env.random_id;
  source = payout;
  asset = to_lower input.asset_key;
  authorization_hash = payout_auth cfg input.payout_ref;
  commitment = payout_commitment cfg env input;
  accepted_at = or_else input.accepted_at env.now;
  epoch_id = epoch_id;
  batch_id = none;
  transaction_hash = none;
  settled_at = none;
  reversal_account_ref = some (account_id cfg input.agent_id);
  reversal_amount_atomic = some input.amount_atomic;
  plan_hash = some input.plan_hash;
  reservation_binding = some (payout_reservation_binding cfg input);
  payout_ref = some input.payout_ref;
}

-- Both amounts are read before the first write.
unfoldable pub paid_out : Config → Env → LedgerPayoutInput → String → Ledger → Ledger
paid_out cfg env input epoch_id s =
    let asset = to_lower input.asset_key in
    let payer = account_id cfg input.agent_id in
    let escrow = escrow_account asset in
    let debited =
      set_balance_by_ref payer asset (balance_by_ref payer asset s -ℤ input.amount_atomic) s in
    let posted =
      set_balance cfg escrow asset (balance cfg escrow asset s +ℤ input.amount_atomic) debited in
    record posted { transfers = posted.transfers ++ payout_transfer cfg env input epoch_id ∷ [] }

-- `payout` past its look for an earlier reservation.
unfoldable pub payout_fresh : Config → Env → LedgerPayoutInput → LedgerAction LedgerPayoutResult
payout_fresh cfg env input = do
  let asset = to_lower input.asset_key
  let payer = account_id cfg input.agent_id
  s ← gets (λ w. w.memory)
  throw_if (ltb_ℤ (balance_by_ref payer asset s) input.amount_atomic) insufficient
  epoch_id ← journal_append cfg env asset (record {
    source = payout;
    asset = asset;
    payer = some input.agent_id;
    payee = escrow_account asset;
    amount_atomic = input.amount_atomic;
    resource_hash = none;
    authorization_hash = payout_auth cfg input.payout_ref;
    commitment = payout_commitment cfg env input;
    salt = env.random_salt;
    accepted_at = or_else input.accepted_at env.now;
  })
  previous ← gets (λ w. w.memory)
  put (paid_out cfg env input epoch_id previous)
  assert_conserved asset (total_balance asset previous)
  persist_or_restore env previous
  pure (record {
    commitment = payout_commitment cfg env input;
    balance_atomic = balance_by_ref payer asset s -ℤ input.amount_atomic;
    accepted_at = or_else input.accepted_at env.now;
    duplicate = false;
  })

-- A second call of the same reference must name the same reservation.
abbrev pub repeated_or_fresh :
    Config
    → Env
    → LedgerPayoutInput
    → Ledger
    → Option LedgerTransfer
    → LedgerAction LedgerPayoutResult
repeated_or_fresh cfg env input s none = payout_fresh cfg env input
repeated_or_fresh cfg env input s (some existing) = do
  throw_if
      (not (opt_str_eq existing.reservation_binding (some (payout_reservation_binding cfg input))))
      binding_mismatch
  pure (record {
    commitment = existing.commitment;
    balance_atomic = balance_by_ref (account_id cfg input.agent_id) (to_lower input.asset_key) s;
    accepted_at = existing.accepted_at;
    duplicate = true;
  })

unfoldable pub reserve_payout : Config → Env → LedgerPayoutInput → LedgerAction LedgerPayoutResult
reserve_payout cfg env input = do
  throw_if (leb_ℤ input.amount_atomic (pos 0)) amount_not_positive
  throw_if (str_eq input.plan_hash "") plan_hash_required
  s ← gets (λ w. w.memory)
  repeated_or_fresh cfg env input s (find (is_payout_of cfg input.payout_ref) s.transfers)

-- The hash under which a settlement is recorded: absent and empty are one.
abbrev pub settled_hash : String → Option String → Option String
settled_hash network none = none
settled_hash network (some h) =
    if str_eq h "" then none else if str_eq network "solana" then some h else some (to_lower h)

abbrev pub mark_settled : Env → Option String → LedgerTransfer → LedgerTransfer
mark_settled env h t = record t { transaction_hash = h; settled_at = some env.now }

abbrev pub settle_first : Config → Env → String → Option String → Ledger → Ledger
settle_first cfg env payout_ref h s = record s {
  transfers = update_first (is_payout_of cfg payout_ref) (mark_settled env h) s.transfers;
}

unfoldable pub record_settlement : Config → Env → String → Option String → LedgerAction (Unit {0})
record_settlement cfg env payout_ref h = do
  previous ← gets (λ w. w.memory)
  put (settle_first cfg env payout_ref h previous)
  persist_or_restore env previous

-- A second report must name the same transaction, and changes nothing.
abbrev pub settle_found :
    Config → Env → String → Option String → Option LedgerTransfer → LedgerAction (Unit {0})
settle_found cfg env payout_ref transaction none = throw payout_not_found
settle_found cfg env payout_ref transaction (some t) =
    let h = settled_hash (network_part t.asset) transaction in
    if is_some t.settled_at
    then throw_if (not (opt_str_eq t.transaction_hash h)) conflicting_transaction
    else record_settlement cfg env payout_ref h

unfoldable pub mark_payout_settled : Config → Env → String → Option String → LedgerAction (Unit {0})
mark_payout_settled cfg env payout_ref transaction = do
  s ← gets (λ w. w.memory)
  settle_found cfg env payout_ref transaction (find (is_payout_of cfg payout_ref) s.transfers)
