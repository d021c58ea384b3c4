-- ===== src/Ledger/Valid/Conserves.antt =====
-- Each new ledger keeps the sum of every asset.
use px.Prelude.{String, ◌≡◌, inl, inr, false, Bool-cases}
use px.Prelude.Int.{ℤ, pos, ◌+ℤ◌, ltb_ℤ, eq_ℤ, int_laws}
use px.Prelude.Text.{to_lower, str_eq}
use px.Prelude.Lower.{to_lower_idem}
use px.Ledger.State.{Ledger, Config, Env, account_id, escrow_account, voucher_account}
use px.Ledger.Accounts.{balance, set_balance, total_balance, voucher_liability}
use px.Ledger.Accounts.Laws.{total-write_after, total-write_two}
use px.Ledger.Vouchers.{
  LedgerVoucherMeltInput, LedgerVoucherRedeemInput, move_balance, melted, redeemed, swept,
  reclaimed,
}
use px.Ledger.Transfers.{LedgerTransferInput, post_balances, transferred}
use px.Ledger.Deposits.{LedgerDepositInput, credited}
use px.Ledger.Payouts.{LedgerPayoutInput, paid_out}
use px.Ledger.Reversals.{reversed}

abbrev pub Conserves : Ledger → Ledger → Type 0
Conserves s s' = (asset : String) → total_balance asset s' ≡ total_balance asset s

-- The accounts of two agents differ.
abbrev pub AreApart : Config → String → String → Type 0
AreApart cfg a b = str_eq (account_id cfg a) (account_id cfg b) ≡ false

move_balance-Conserves :
    (cfg : Config) (from to asset : String) (amount : ℤ) (s : Ledger)
    → Conserves s (move_balance cfg from to asset amount s)
unfolding move_balance balance set_balance
move_balance-Conserves cfg from to asset amount s b =
    total-write_after (account_id cfg from) (account_id cfg to) asset b _ _ s (omega int_laws)

pub melted-Conserves :
    (cfg : Config) (input : LedgerVoucherMeltInput) (s : Ledger) → Conserves s (melted cfg input s)
unfolding melted total_balance
melted-Conserves cfg input s b =
    let a = to_lower input.asset_key in
    move_balance-Conserves cfg input.agent_id (voucher_account a input.keyset_id) a
      input.amount_atomic s b

pub redeemed-Conserves :
    (cfg : Config) (input : LedgerVoucherRedeemInput) (s : Ledger)
    → Conserves s (redeemed cfg input s)
unfolding redeemed total_balance
redeemed-Conserves cfg input s b =
    let a = to_lower input.asset_key in
    move_balance-Conserves cfg (voucher_account a input.keyset_id) input.recipient_agent_id a
      input.amount_atomic s b

pub swept-Conserves :
    (cfg : Config) (asset_key keyset_id : String) (s : Ledger)
    → Conserves s (swept cfg (to_lower asset_key) keyset_id s)
unfolding swept
swept-Conserves cfg asset_key keyset_id s b =
    elim (Bool-cases (ltb_ℤ (pos 0) (voucher_liability cfg (to_lower asset_key) keyset_id s))) [
      | inl positive ↦ rw positive (moved b)
      | inr none_left ↦ rw none_left
    ]
  where
    moved : Conserves s (
        set_balance cfg
          (escrow_account (to_lower asset_key))
          (to_lower asset_key)
          (balance cfg (escrow_account (to_lower asset_key)) (to_lower asset_key) (
              set_balance cfg
                (voucher_account (to_lower asset_key) keyset_id)
                (to_lower asset_key)
                (pos 0)
                s)
            +ℤ voucher_liability cfg (to_lower asset_key) keyset_id s)
          (set_balance cfg
            (voucher_account (to_lower asset_key) keyset_id)
            (to_lower asset_key)
            (pos 0)
            s))
    moved b =
        unfold set_balance balance voucher_liability in
        total-write_after (account_id cfg (voucher_account (to_lower asset_key) keyset_id)) _
          (to_lower asset_key) b _ _ s (rw (to_lower_idem asset_key) (omega int_laws))

pub reclaimed-Conserves :
    (cfg : Config) (asset_key keyset_id : String) (s : Ledger)
    → Conserves s (reclaimed cfg (to_lower asset_key) keyset_id s)
unfolding reclaimed total_balance
reclaimed-Conserves cfg asset_key keyset_id s b =
    let kept = swept-Conserves cfg asset_key keyset_id s b in
    elim (Bool-cases (eq_ℤ (voucher_liability cfg (to_lower asset_key) keyset_id s) (pos 0))) [
      | inl empty ↦ rw empty kept
      | inr other ↦ rw other kept
    ]

pub transferred-Conserves :
    (cfg : Config) (env : Env) (input : LedgerTransferInput) (epoch : String) (s : Ledger)
    → AreApart cfg input.payer_agent_id input.payee_agent_id
    → Conserves s (transferred cfg env input epoch s)
unfolding transferred post_balances balance set_balance total_balance
transferred-Conserves cfg env input epoch s apart b =
    total-write_two (account_id cfg input.payer_agent_id) (account_id cfg input.payee_agent_id)
      (to_lower input.asset_key) b _ _ s apart (omega int_laws)

pub credited-Conserves :
    (cfg : Config) (env : Env) (input : LedgerDepositInput) (epoch : String) (s : Ledger)
    → AreApart cfg input.agent_id (escrow_account (to_lower input.asset_key))
    → Conserves s (credited cfg env input epoch s)
unfolding credited post_balances balance set_balance total_balance
credited-Conserves cfg env input epoch s apart b =
    total-write_two (account_id cfg input.agent_id) _ (to_lower input.asset_key) b _ _ s apart
      (omega int_laws)

pub paid_out-Conserves :
    (cfg : Config) (env : Env) (input : LedgerPayoutInput) (epoch : String) (s : Ledger)
    → AreApart cfg input.agent_id (escrow_account (to_lower input.asset_key))
    → Conserves s (paid_out cfg env input epoch s)
unfolding paid_out balance set_balance total_balance
paid_out-Conserves cfg env input epoch s apart b =
    total-write_two (account_id cfg input.agent_id) _ (to_lower input.asset_key) b _ _ s apart
      (omega int_laws)

pub reversed-Conserves :
    (cfg : Config) (payout_ref account_ref asset : String) (amount : ℤ) (s : Ledger)
    → Conserves s (reversed cfg payout_ref account_ref asset amount s)
unfolding reversed balance set_balance total_balance
reversed-Conserves cfg payout_ref account_ref asset amount s b =
    total-write_after account_ref _ asset b _ _ s (omega int_laws)
