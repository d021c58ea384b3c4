-- ===== src/Ledger/Vouchers.antt =====
-- `meltToVouchers`, `redeemToAccount` and `reclaimRetiredKeyset`: value moves between an account and
-- the voucher account of a keyset, each melt and redemption once.
use px.Prelude.{String, Bool, true, false, List, [], ◌∷◌, ◌++◌, any, or_else, if◌then◌else◌}
use px.Prelude.Int.{ℤ, pos, ◌+ℤ◌, ◌-ℤ◌, ltb_ℤ, leb_ℤ, eq_ℤ}
use px.Prelude.Text.{str_eq, to_lower, ◌<>◌}
use px.Prelude.Dict.{lookup, insert, erase}
use px.Prelude.Action.{pure, gets, throw_if, ◌>>=◌, ◌>>◌}
use px.Ledger.State.{
  Ledger, Config, Env, LedgerAction, amount_not_positive, insufficient, liability_insufficient,
  hash, escrow_account, voucher_account,
}
use px.Ledger.Accounts.{balance, set_balance, total_balance, voucher_liability}
use px.Ledger.Checks.{assert_state, assert_conserved, put, persist_or_restore}

pub record LedgerVoucherMeltInput : Type 0 where
  pub agent_id : String
  pub amount_atomic : ℤ
  pub asset_key : String
  pub keyset_id : String
  pub melt_key : String

pub record LedgerVoucherRedeemInput : Type 0 where
  pub recipient_agent_id : String
  pub amount_atomic : ℤ
  pub asset_key : String
  pub keyset_id : String
  pub redeem_key : String

pub record LedgerVoucherResult : Type 0 where
  pub balance_atomic : ℤ
  pub duplicate : Bool

-- `this.state.consumedVoucherRefs![keysetId] ?? []`
abbrev pub consumed_refs : String → Ledger → List String
consumed_refs keyset_id s = or_else (lookup keyset_id s.consumed_voucher_refs) []

abbrev pub consume_ref : String → String → Ledger → Ledger
consume_ref keyset_id auth_hash s = record s {
  consumed_voucher_refs =
      insert keyset_id (consumed_refs keyset_id s ++ auth_hash ∷ []) s.consumed_voucher_refs;
}

-- Two writes of balances, one after the other: the second amount is read after the first write.
unfoldable pub move_balance : Config → String → String → String → ℤ → Ledger → Ledger
move_balance cfg from to asset amount s =
    let debited = set_balance cfg from asset (balance cfg from asset s -ℤ amount) s in
    set_balance cfg to asset (balance cfg to asset debited +ℤ amount) debited

unfoldable pub melted : Config → LedgerVoucherMeltInput → Ledger → Ledger
melted cfg input s =
    let asset = to_lower input.asset_key in
    consume_ref input.keyset_id (hash cfg ("voucher-melt:" <> input.melt_key)) (
      move_balance cfg input.agent_id (voucher_account asset input.keyset_id) asset
        input.amount_atomic s)

-- The writes of a method between `structuredClone` and its return, in the three methods below.
unfoldable pub commit_checked : Env → String → Ledger → LedgerAction (Unit {0})
commit_checked env asset next = do
  previous ← gets (λ w. w.memory)
  previous_total ← gets (λ w. total_balance asset w.memory)
  put next
  assert_conserved asset previous_total
  assert_state
  persist_or_restore env previous

-- `meltToVouchers` past its check for a repeated call.
unfoldable pub melt_fresh : Config → Env → LedgerVoucherMeltInput → LedgerAction LedgerVoucherResult
melt_fresh cfg env input = do
  let asset = to_lower input.asset_key
  s ← gets (λ w. w.memory)
  throw_if (ltb_ℤ (balance cfg input.agent_id asset s) input.amount_atomic) insufficient
  commit_checked env asset (melted cfg input s)
  after ← gets (λ w. balance cfg input.agent_id asset w.memory)
  pure (record { balance_atomic = after; duplicate = false })

unfoldable pub melt_to_vouchers :
    Config → Env → LedgerVoucherMeltInput → LedgerAction LedgerVoucherResult
melt_to_vouchers cfg env input = do
  throw_if (leb_ℤ input.amount_atomic (pos 0)) amount_not_positive
  let asset = to_lower input.asset_key
  let auth_hash = hash cfg ("voucher-melt:" <> input.melt_key)
  s ← gets (λ w. w.memory)
  if any (str_eq auth_hash) (consumed_refs input.keyset_id s)
      then pure (record { balance_atomic = balance cfg input.agent_id asset s; duplicate = true })
      else melt_fresh cfg env input

unfoldable pub redeemed : Config → LedgerVoucherRedeemInput → Ledger → Ledger
redeemed cfg input s =
    let asset = to_lower input.asset_key in
    consume_ref input.keyset_id (hash cfg ("voucher-redeem:" <> input.redeem_key)) (
      move_balance cfg (voucher_account asset input.keyset_id) input.recipient_agent_id asset
        input.amount_atomic s)

-- `redeemToAccount` past its check for a repeated call.
unfoldable pub redeem_fresh :
    Config → Env → LedgerVoucherRedeemInput → LedgerAction LedgerVoucherResult
redeem_fresh cfg env input = do
  let asset = to_lower input.asset_key
  s ← gets (λ w. w.memory)
  throw_if (ltb_ℤ (voucher_liability cfg asset input.keyset_id s) input.amount_atomic)
      liability_insufficient
  commit_checked env asset (redeemed cfg input s)
  after ← gets (λ w. balance cfg input.recipient_agent_id asset w.memory)
  pure (record { balance_atomic = after; duplicate = false })

unfoldable pub redeem_to_account :
    Config → Env → LedgerVoucherRedeemInput → LedgerAction LedgerVoucherResult
redeem_to_account cfg env input = do
  throw_if (leb_ℤ input.amount_atomic (pos 0)) amount_not_positive
  let asset = to_lower input.asset_key
  let auth_hash = hash cfg ("voucher-redeem:" <> input.redeem_key)
  s ← gets (λ w. w.memory)
  if any (str_eq auth_hash) (consumed_refs input.keyset_id s)
      then pure (record {
        balance_atomic = balance cfg input.recipient_agent_id asset s;
        duplicate = true;
      })
      else redeem_fresh cfg env input

-- A positive liability moves to escrow.
unfoldable pub swept : Config → String → String → Ledger → Ledger
swept cfg asset keyset_id s =
    let amount = voucher_liability cfg asset keyset_id s in
    let emptied = set_balance cfg (voucher_account asset keyset_id) asset (pos 0) s in
    let escrow = escrow_account asset in
    let moved = set_balance cfg escrow asset (balance cfg escrow asset emptied +ℤ amount) emptied in
    if ltb_ℤ (pos 0) amount then moved else s

abbrev without_refs : String → Ledger → Ledger
without_refs keyset_id s = record s {
  consumed_voucher_refs = erase keyset_id s.consumed_voucher_refs;
}

-- The tombstones stay beside a liability that moves; they go once the liability is zero.
unfoldable pub reclaimed : Config → String → String → Ledger → Ledger
reclaimed cfg asset keyset_id s =
    let moved = swept cfg asset keyset_id s in
    if eq_ℤ (voucher_liability cfg asset keyset_id s) (pos 0)
    then without_refs keyset_id moved
    else moved

unfoldable pub reclaim_retired_keyset : Config → Env → String → String → LedgerAction ℤ
reclaim_retired_keyset cfg env asset_key keyset_id = do
  let asset = to_lower asset_key
  s ← gets (λ w. w.memory)
  commit_checked env asset (reclaimed cfg asset keyset_id s)
  pure (voucher_liability cfg asset keyset_id s)
