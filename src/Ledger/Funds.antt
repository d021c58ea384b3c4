-- ===== src/Ledger/Funds.antt =====
-- What a payment does to the balances, and a payout that is reserved and then reversed.
use mathlib.Core.Path.{subst}
use px.Prelude.{true_not_false, String, ◌≡◌, sym, ◌∙◌, Bool, false, ◌&&◌, arith}
use px.Prelude.Int.{ℤ, ◌≤ℤ◌, ◌+ℤ◌, ◌-ℤ◌, ltb_ℤ, int_laws}
use px.Prelude.Text.{str_eq, str_eq_iff, str_eq_refl, to_lower}
use px.Prelude.Action.{ok}
use px.Ledger.State.{Ledger, Config, Env, World, account_id}
use px.Ledger.Accounts.{balance, balance_by_ref, set_balance, set_balance_by_ref}
use px.Ledger.Accounts.Laws.{balance-set_balance}
use px.Ledger.Transfers.{
  LedgerTransferInput, LedgerTransferResult, transferred, post_balances, transfer,
}
use px.Ledger.Outcome.{Outcome-changed}
use px.Ledger.Outcome.Transfers.{transfer-Outcome}
use px.Ledger.Valid.Conserves.{AreApart}

-- Whether a write for an account under an asset can show in a balance.
abbrev pub touches : String → String → String → String → Bool
touches r a q b = str_eq r q && str_eq (to_lower a) (to_lower b)

pub balance-untouched :
    (r a q b : String) (v : ℤ) (s : Ledger)
    → touches r a q b ≡ false
    → balance_by_ref q b (set_balance_by_ref r a v s) ≡ balance_by_ref q b s
balance-untouched r a q b v s h = ground (arith, balance-set_balance r q a b v s)

pub balance-touched :
    (r a : String) (v : ℤ) (s : Ledger) → balance_by_ref r a (set_balance_by_ref r a v s) ≡ v
balance-touched r a v s =
    rw (balance-set_balance r r a a v s, str_eq_refl r, str_eq_refl (to_lower a))

-- The payer's balance falls by the amount, which it covered, the payee's rises by it, and no other
-- balance changes.
abbrev pub Moved : Config → LedgerTransferInput → Ledger → Ledger → Type 0
Moved cfg input s s' =
    let a = to_lower input.asset_key in
    (input.amount_atomic ≤ℤ balance cfg input.payer_agent_id a s)
    × (balance cfg input.payer_agent_id a s'
        ≡ balance cfg input.payer_agent_id a s -ℤ input.amount_atomic)
    × (balance cfg input.payee_agent_id a s'
        ≡ balance cfg input.payee_agent_id a s +ℤ input.amount_atomic)
    × ((q b : String)
        → touches (account_id cfg input.payer_agent_id) a q b ≡ false
        → touches (account_id cfg input.payee_agent_id) a q b ≡ false
        → balance_by_ref q b s' ≡ balance_by_ref q b s)

transferred-Moved :
    (cfg : Config) (env : Env) (input : LedgerTransferInput) (epoch : String) (s : Ledger)
    → AreApart cfg input.payer_agent_id input.payee_agent_id
    → ltb_ℤ (balance cfg input.payer_agent_id (to_lower input.asset_key) s) input.amount_atomic
      ≡ false
    → Moved cfg input s (transferred cfg env input epoch s)
unfolding transferred post_balances balance balance_by_ref set_balance
transferred-Moved cfg env input epoch s apart funded =
    let a = to_lower input.asset_key in
    let payer = account_id cfg input.payer_agent_id in
    let payee = account_id cfg input.payee_agent_id in
    let v = balance_by_ref payer a s -ℤ input.amount_atomic in
    let u = balance_by_ref payee a s +ℤ input.amount_atomic in
    let s1 = set_balance_by_ref payer a v s in
    (
      grind (int_laws, funded),
      balance-untouched payee a payer a u s1
            (ground (arith, str_eq_iff payer payee, str_eq_iff payee payer))
          ∙ balance-touched payer a v s,
      balance-touched payee a u s1,
      λ q b far near.
          balance-untouched payee a q b u s1 near ∙ balance-untouched payer a q b v s far,
    )

-- A transfer that is accepted as new between different accounts moves exactly its amount from the
-- payer to the payee, which had it, in memory and in the file.
pub transfer-moves :
    (cfg : Config) (env : Env) (input : LedgerTransferInput) (w : World) (r : LedgerTransferResult)
    → AreApart cfg input.payer_agent_id input.payee_agent_id
    → (transfer cfg env input w).0 ≡ ok r
    → r.duplicate ≡ false
    → Moved cfg input w.memory (transfer cfg env input w).1.memory
      × Moved cfg input w.memory (transfer cfg env input w).1.disk
transfer-moves cfg env input w r apart done new =
    let ((_, _, _, funded), epoch, in_memory, on_disk, _) =
      Outcome-changed (transfer-Outcome cfg env input w) r done
        (λ old. true_not_false (sym old ∙ new)) in
    let moved = transferred-Moved cfg env input epoch w.memory apart funded in
    (
      subst (Moved cfg input w.memory) (sym in_memory) moved,
      subst (Moved cfg input w.memory) (sym on_disk) moved,
    )
