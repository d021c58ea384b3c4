-- ===== src/Ledger/Outcome/Transfers.antt =====
-- `transfer` and `creditDeposit` meet the contract, with their new ledgers and guards.
use px.Prelude.{◌≡◌, refl, Bool, not, false, ◌&&◌, Option, none, some, find, any, is_some}
use px.Prelude.Int.{pos, ltb_ℤ, leb_ℤ}
use px.Prelude.Text.{to_lower, str_eq}
use px.Ledger.State.{Ledger, LedgerTransfer, Config, Env, World, transfer_index_invalid}
use px.Ledger.Accounts.{balance}
use px.Ledger.Transfers.{
  LedgerTransferInput, LedgerTransferResult, transfer_auth, has_auth, transferred, transfer_fresh,
  transfer,
}
use px.Ledger.Transfers
use px.Ledger.Deposits.{
  LedgerDepositInput, index_unsafe, deposit_auth, legacy_auth, is_claimed, credited, credit_fresh,
  credit_deposit,
}
use px.Ledger.Deposits
use px.Ledger.Outcome.{
  Outcome, unchanged, Outcome-throw_if, Outcome-journal_append, Outcome-persist,
}

-- The answer calls itself a duplicate exactly when nothing changed.
abbrev pub IsNew : LedgerTransferResult → Bool → Type 0
IsNew r changed = r.duplicate ≡ not changed

-- What a transfer that goes through has passed.
abbrev pub TransferAllowed : Config → LedgerTransferInput → Ledger → Type 0
TransferAllowed cfg input s =
    (str_eq input.payer_agent_id input.payee_agent_id ≡ false)
    × (leb_ℤ input.amount_atomic (pos 0) ≡ false)
    × (find (has_auth (transfer_auth cfg input)) s.transfers ≡ none)
    × (ltb_ℤ (balance cfg input.payer_agent_id (to_lower input.asset_key) s) input.amount_atomic
        ≡ false)

transfer_answered :
    (cfg : Config) (env : Env) (input : LedgerTransferInput) (w : World)
    → str_eq input.payer_agent_id input.payee_agent_id ≡ false
    → leb_ℤ input.amount_atomic (pos 0) ≡ false
    → (o : Option LedgerTransfer) → find (has_auth (transfer_auth cfg input)) w.memory.transfers ≡ o
    → Outcome IsNew
        (TransferAllowed cfg input w.memory)
        (λ epoch. transferred cfg env input epoch w.memory)
        w
        (Transfers.repeated_or_fresh cfg env input w.memory o w)
unfolding transfer_fresh
transfer_answered cfg env input w apart positive (some existing) e = unchanged _ refl
transfer_answered cfg env input w apart positive none e = Outcome-throw_if _ _ _ λ funded.
    Outcome-journal_append cfg env _ _ _
      λ epoch j. Outcome-persist env epoch j _ (apart, positive, e, funded) λ _. refl

pub transfer-Outcome :
    (cfg : Config) (env : Env) (input : LedgerTransferInput) (w : World)
    → Outcome IsNew
        (TransferAllowed cfg input w.memory)
        (λ epoch. transferred cfg env input epoch w.memory)
        w
        (transfer cfg env input w)
unfolding transfer
transfer-Outcome cfg env input w = Outcome-throw_if _ _ _ λ apart.
    Outcome-throw_if _ _ _ λ positive. transfer_answered cfg env input w apart positive _ refl

-- What a deposit that is credited has passed.
abbrev pub DepositAllowed : Config → LedgerDepositInput → Ledger → Type 0
DepositAllowed cfg input s =
    (leb_ℤ input.amount_atomic (pos 0) ≡ false)
    × (find (has_auth (deposit_auth cfg input)) s.transfers ≡ none)
    × (any (str_eq (deposit_auth cfg input)) s.consumed_deposit_hashes ≡ false)
    × ((is_some input.transfer_index && is_claimed (legacy_auth cfg input) s) ≡ false)

deposit_answered :
    (cfg : Config) (env : Env) (input : LedgerDepositInput) (w : World)
    → leb_ℤ input.amount_atomic (pos 0) ≡ false
    → (o : Option LedgerTransfer) → find (has_auth (deposit_auth cfg input)) w.memory.transfers ≡ o
    → Outcome IsNew
        (DepositAllowed cfg input w.memory)
        (λ epoch. credited cfg env input epoch w.memory)
        w
        (Deposits.repeated_or_fresh cfg env input w.memory o w)
unfolding credit_fresh
deposit_answered cfg env input w positive (some existing) e = unchanged _ refl
deposit_answered cfg env input w positive none e = Outcome-throw_if _ _ _ λ unconsumed.
    Outcome-throw_if _ _ _ λ no_legacy.
      Outcome-journal_append cfg env _ _ _
        λ epoch j. Outcome-persist env epoch j _ (positive, e, unconsumed, no_legacy) λ _. refl

pub credit_deposit-Outcome :
    (cfg : Config) (env : Env) (input : LedgerDepositInput) (w : World)
    → Outcome IsNew
        (DepositAllowed cfg input w.memory)
        (λ epoch. credited cfg env input epoch w.memory)
        w
        (credit_deposit cfg env input w)
unfolding credit_deposit
credit_deposit-Outcome cfg env input w = Outcome-throw_if _ _ _ λ positive.
    Outcome-throw_if (index_unsafe input.transfer_index) transfer_index_invalid
      (λ w'.
        Deposits.repeated_or_fresh cfg env input w'.memory
          (find (has_auth (deposit_auth cfg input)) w'.memory.transfers) w')
      λ index. deposit_answered cfg env input w positive _ refl
