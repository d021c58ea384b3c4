-- ===== src/Ledger/Reversals.antt =====
-- `reversePayout`, `reverseOrphanPayouts`, `pendingPayoutRefs` and `findPayoutTransfer`.
use px.Prelude.{
  ℕ, ◌+◌, String, Bool, true, false, not, ◌&&◌, Option, none, some, List, [], ◌∷◌, find, any, keep,
  or_else, is_some, remove_first, if◌then◌else◌,
}
use px.Prelude.Int.{ℤ, pos, ◌+ℤ◌, ◌-ℤ◌}
use px.Prelude.Text.{str_eq}
use px.Prelude.Action.{pure, gets, throw_if, ◌>>=◌, ◌>>◌}
use px.Ledger.State.{
  Ledger, LedgerTransfer, Config, Env, LedgerAction, batched, settled, reversal_data_missing,
  escrow_account, truthy,
}
use px.Ledger.Accounts.{balance, set_balance, balance_by_ref, set_balance_by_ref, total_balance}
use px.Ledger.Checks.{put, assert_conserved, persist_or_restore}
use px.Ledger.Payouts.{is_payout, is_payout_of}

-- The payer is credited, then the escrow is debited, then the first transfer of the payout goes.
unfoldable pub reversed : Config → String → String → String → ℤ → Ledger → Ledger
reversed cfg payout_ref account_ref asset amount s =
    let escrow = escrow_account asset in
    let refunded =
      set_balance_by_ref account_ref asset (balance_by_ref account_ref asset s +ℤ amount) s in
    let posted =
      set_balance cfg escrow asset (balance cfg escrow asset refunded -ℤ amount) refunded in
    record posted { transfers = remove_first (is_payout_of cfg payout_ref) posted.transfers }

abbrev pub reverse_found : Config → Env → String → Option LedgerTransfer → LedgerAction Bool
reverse_found cfg env payout_ref none = pure false
reverse_found cfg env payout_ref (some t) = do
  throw_if (truthy t.batch_id) batched
  throw_if (is_some t.settled_at) settled
  throw_if (not (truthy t.reversal_account_ref && is_some t.reversal_amount_atomic))
      reversal_data_missing
  let amount = or_else t.reversal_amount_atomic (pos 0)
  previous ← gets (λ w. w.memory)
  put (reversed cfg payout_ref (or_else t.reversal_account_ref "") t.asset amount previous)
  assert_conserved t.asset (total_balance t.asset previous)
  persist_or_restore env previous
  pure true

unfoldable pub reverse_payout : Config → Env → String → LedgerAction Bool
reverse_payout cfg env payout_ref = do
  s ← gets (λ w. w.memory)
  reverse_found cfg env payout_ref (find (is_payout_of cfg payout_ref) s.transfers)

abbrev pub is_pending_payout : LedgerTransfer → Bool
is_pending_payout t = is_payout t.source && not (is_some t.settled_at) && not (truthy t.batch_id)

abbrev some_refs : List (Option String) → List String
some_refs [] = []
some_refs (none ∷ os) = some_refs os
some_refs (some r ∷ os) = r ∷ some_refs os

abbrev payout_refs : List LedgerTransfer → List (Option String)
payout_refs [] = []
payout_refs (t ∷ ts) = t.payout_ref ∷ payout_refs ts

-- The references that `reverseOrphanPayouts` goes through.
unfoldable pub orphan_refs : List String → Ledger → List String
orphan_refs known s =
    keep (λ r. not (any (str_eq r) known))
      (some_refs (payout_refs (keep is_pending_payout s.transfers)))

-- A throw ends the loop; what was reversed before it stays reversed.
unfoldable pub reverse_all : Config → Env → List String → ℕ → LedgerAction ℕ
reverse_all cfg env [] count = pure count
reverse_all cfg env (r ∷ refs) count = do
  did ← reverse_payout cfg env r
  reverse_all cfg env refs (if did then count + 1 else count)

unfoldable pub reverse_orphan_payouts : Config → Env → List String → LedgerAction ℕ
reverse_orphan_payouts cfg env known = do
  s ← gets (λ w. w.memory)
  reverse_all cfg env (orphan_refs known s) 0

abbrev is_some_text : String → Bool
is_some_text s = not (str_eq s "")

pub pending_payout_refs : Ledger → List String
pending_payout_refs s =
    keep is_some_text (some_refs (payout_refs (keep is_pending_payout s.transfers)))

unfoldable pub find_payout_transfer : Config → String → Ledger → Option LedgerTransfer
find_payout_transfer cfg payout_ref s = find (is_payout_of cfg payout_ref) s.transfers
