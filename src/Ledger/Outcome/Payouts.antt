-- ===== src/Ledger/Outcome/Payouts.antt =====
-- `payout` and `markPayoutSettled` meet the contract.
use px.Prelude.{
  String, ◌≡◌, refl, Bool, true, false, not, ◌&&◌, Option, none, some, find, or_else, is_some,
  arith,
}
use px.Prelude.Int.{pos, ltb_ℤ, leb_ℤ}
use px.Prelude.Text.{to_lower, str_eq, network_part}
use px.Ledger.State.{
  Ledger, LedgerTransfer, Config, Env, World, conflicting_transaction, binding_mismatch, opt_str_eq,
  batched, settled, reversal_data_missing, account_id, escrow_account, truthy,
}
use px.Ledger.Accounts.{balance, balance_by_ref}
use px.Prelude.Action.{pure, throw_if}
use px.Ledger.Payouts.{
  LedgerPayoutInput, LedgerPayoutResult, is_payout_of, paid_out, payout_fresh, reserve_payout,
  settled_hash, settle_first, record_settlement, settle_found, mark_payout_settled,
}
use px.Ledger.Payouts
use px.Ledger.Reversals.{reversed, reverse_found, reverse_payout}
use px.Ledger.Valid.Conserves.{AreApart, paid_out-Conserves, reversed-Conserves}
use px.Ledger.Outcome.{
  Outcome, refused, unchanged, Outcome-throw_if, Outcome-if, Outcome-journal_append, Outcome-last,
  Outcome-conserved,
}

-- The answer calls itself a duplicate exactly when nothing changed.
abbrev pub IsNewPayout : LedgerPayoutResult → Bool → Type 0
IsNewPayout r changed = r.duplicate ≡ not changed

-- Nothing is answered.
abbrev pub IsAny : Unit {0} → Bool → Type 0
IsAny _ changed = Unit

-- The answer is whether the payout was reversed.
abbrev pub IsDone : Bool → Bool → Type 0
IsDone did changed = did ≡ changed

-- What a payout that is reserved has passed.
abbrev pub PayoutAllowed : Config → LedgerPayoutInput → Ledger → Type 0
PayoutAllowed cfg input s =
    (leb_ℤ input.amount_atomic (pos 0) ≡ false)
    × (str_eq input.plan_hash "" ≡ false)
    × (find (is_payout_of cfg input.payout_ref) s.transfers ≡ none)
    × (ltb_ℤ (balance cfg input.agent_id (to_lower input.asset_key) s) input.amount_atomic ≡ false)

payout_answered :
    (cfg : Config) (env : Env) (input : LedgerPayoutInput) (w : World)
    → AreApart cfg input.agent_id (escrow_account (to_lower input.asset_key))
    → leb_ℤ input.amount_atomic (pos 0) ≡ false
    → str_eq input.plan_hash "" ≡ false
    → (o : Option LedgerTransfer) → find (is_payout_of cfg input.payout_ref) w.memory.transfers ≡ o
    → Outcome IsNewPayout
        (PayoutAllowed cfg input w.memory)
        (λ epoch. paid_out cfg env input epoch w.memory)
        w
        (Payouts.repeated_or_fresh cfg env input w.memory o w)
unfolding payout_fresh balance
payout_answered cfg env input w apart positive planned (some existing) e =
    Outcome-throw_if
      (not (
        opt_str_eq existing.reservation_binding
          (some (Payouts.payout_reservation_binding cfg input))))
      binding_mismatch (pure (answer existing)) λ same. unchanged (answer existing) refl
  where
    answer : LedgerTransfer → LedgerPayoutResult
    answer t = record {
      commitment = t.commitment;
      balance_atomic =
          balance_by_ref (account_id cfg input.agent_id) (to_lower input.asset_key) w.memory;
      accepted_at = t.accepted_at;
      duplicate = true;
    }
payout_answered cfg env input w apart positive planned none e = Outcome-throw_if _ _ _ λ funded.
    Outcome-journal_append cfg env _ _ _ λ epoch j.
      Outcome-conserved env (to_lower input.asset_key) epoch j _ (positive, planned, e, funded)
        (λ _. refl)
        (paid_out-Conserves cfg env input epoch w.memory apart (to_lower input.asset_key))

pub reserve_payout-Outcome :
    (cfg : Config) (env : Env) (input : LedgerPayoutInput) (w : World)
    → AreApart cfg input.agent_id (escrow_account (to_lower input.asset_key))
    → Outcome IsNewPayout
        (PayoutAllowed cfg input w.memory)
        (λ epoch. paid_out cfg env input epoch w.memory)
        w
        (reserve_payout cfg env input w)
unfolding reserve_payout
reserve_payout-Outcome cfg env input w apart = Outcome-throw_if _ _ _ λ positive.
    Outcome-throw_if _ _ _ λ planned. payout_answered cfg env input w apart positive planned _ refl

-- What a payout's first settlement has passed.
abbrev pub SettleAllowed : Config → String → Ledger → Type 0
SettleAllowed cfg payout_ref s =
    (t : LedgerTransfer) × (find (is_payout_of cfg payout_ref) s.transfers ≡ some t)
    × (is_some t.settled_at ≡ false)

-- The ledger after the first settlement of the payout that is found.
abbrev pub settled_of :
    Config → Env → String → Option String → Option LedgerTransfer → Ledger → Ledger
settled_of cfg env payout_ref transaction none s = s
settled_of cfg env payout_ref transaction (some t) s =
    settle_first cfg env payout_ref (settled_hash (network_part t.asset) transaction) s

settle_repeated :
    {Allowed : Type 0} {next : String → Ledger} {w : World} (b : Bool)
    → Outcome IsAny Allowed next w (throw_if b conflicting_transaction w)
settle_repeated true = refused _ _
settle_repeated false = unchanged _ tt

settle_answered :
    (cfg : Config) (env : Env) (payout_ref : String) (transaction : Option String) (w : World)
    → (o : Option LedgerTransfer) → find (is_payout_of cfg payout_ref) w.memory.transfers ≡ o
    → Outcome IsAny
        (SettleAllowed cfg payout_ref w.memory)
        (λ epoch. settled_of cfg env payout_ref transaction o w.memory)
        w
        (settle_found cfg env payout_ref transaction o w)
unfolding record_settlement
settle_answered cfg env payout_ref transaction w none e = refused _ _
settle_answered cfg env payout_ref transaction w (some t) e =
    Outcome-if (is_some t.settled_at) _ _ (λ old. settle_repeated _)
      λ open_row. Outcome-last env "" w.journal (t, e, open_row) tt

pub mark_payout_settled-Outcome :
    (cfg : Config) (env : Env) (payout_ref : String) (transaction : Option String) (w : World)
    → Outcome IsAny
        (SettleAllowed cfg payout_ref w.memory)
        (λ epoch.
          settled_of cfg env payout_ref transaction
            (find (is_payout_of cfg payout_ref) w.memory.transfers)
            w.memory)
        w
        (mark_payout_settled cfg env payout_ref transaction w)
unfolding mark_payout_settled
mark_payout_settled-Outcome cfg env payout_ref transaction w =
    settle_answered cfg env payout_ref transaction w _ refl

-- What a payout that is reversed has passed: it is there, in no batch, not settled, and carries the
-- account and the amount.
abbrev pub ReverseAllowed : Config → String → Ledger → Type 0
ReverseAllowed cfg payout_ref s =
    (t : LedgerTransfer) × (find (is_payout_of cfg payout_ref) s.transfers ≡ some t)
    × (truthy t.batch_id ≡ false)
    × (is_some t.settled_at ≡ false)
    × ((truthy t.reversal_account_ref && is_some t.reversal_amount_atomic) ≡ true)

-- The ledger after the reversal of the payout that is found.
abbrev pub reversed_of : Config → String → Option LedgerTransfer → Ledger → Ledger
reversed_of cfg payout_ref none s = s
reversed_of cfg payout_ref (some t) s =
    reversed cfg payout_ref (or_else t.reversal_account_ref "") t.asset
      (or_else t.reversal_amount_atomic (pos 0)) s

reverse_answered :
    (cfg : Config) (env : Env) (payout_ref : String) (w : World)
    → (o : Option LedgerTransfer) → find (is_payout_of cfg payout_ref) w.memory.transfers ≡ o
    → Outcome IsDone
        (ReverseAllowed cfg payout_ref w.memory)
        (λ epoch. reversed_of cfg payout_ref o w.memory)
        w
        (reverse_found cfg env payout_ref o w)
reverse_answered cfg env payout_ref w none e = unchanged false refl
reverse_answered cfg env payout_ref w (some t) e =
    Outcome-throw_if (truthy t.batch_id) batched _ λ unbatched.
      Outcome-throw_if (is_some t.settled_at) settled _ λ unsettled.
        Outcome-throw_if (not (truthy t.reversal_account_ref && is_some t.reversal_amount_atomic))
          reversal_data_missing _
          λ data_there.
            Outcome-conserved env t.asset "" w.journal (λ _. true)
              (t, e, unbatched, unsettled, ground arith) (λ _. refl)
              (reversed-Conserves cfg payout_ref (or_else t.reversal_account_ref "") t.asset
                (or_else t.reversal_amount_atomic (pos 0)) w.memory t.asset)

pub reverse_payout-Outcome :
    (cfg : Config) (env : Env) (payout_ref : String) (w : World)
    → Outcome IsDone
        (ReverseAllowed cfg payout_ref w.memory)
        (λ epoch.
          reversed_of cfg payout_ref
            (find (is_payout_of cfg payout_ref) w.memory.transfers)
            w.memory)
        w
        (reverse_payout cfg env payout_ref w)
unfolding reverse_payout
reverse_payout-Outcome cfg env payout_ref w = reverse_answered cfg env payout_ref w _ refl
