-- ===== src/Ledger/Steps/Solvent.antt =====
-- No account but an asset's escrow is ever overdrawn.
use mathlib.Core.Path.{subst}
use px.Prelude.{
  String, ◌≡◌, inl, inr, Bool, true, false, ◌&&◌, some, List, [], ◌∷◌, ◌++◌, all, find, all-append,
  all-find, all-keep, all-update_first, all-remove_first, all-map_keeping, or_else, Bool-cases,
  arith,
}
use px.Prelude.Int.{ℤ, pos, ◌≤ℤ◌, ◌+ℤ◌, ◌-ℤ◌, leb_ℤ, int_laws}
use px.Prelude.Text.{str_eq, str_eq_iff, str_eq_refl, to_lower}
use px.Prelude.Lower.{to_lower_idem}
use px.Ledger.State.{Ledger, LedgerTransfer, Config, Env, World, account_id, escrow_account}
use px.Ledger.Accounts.{balance, balance_by_ref, set_balance, set_balance_by_ref, voucher_liability}
use px.Ledger.Vouchers.{melted, redeemed, move_balance, reclaimed, swept}
use px.Ledger.Transfers.{LedgerTransferInput, transferred, post_balances}
use px.Ledger.Deposits.{LedgerDepositInput, credited}
use px.Ledger.Payouts.{LedgerPayoutInput, paid_out, is_payout_of, mark_settled}
use px.Ledger.Reversals.{reversed}
use px.Ledger.Batches.{with_batch, assign_batch, new_batch_id, is_batchable}
use px.Ledger.Outcome.Payouts.{PayoutAllowed, reversed_of}
use px.Ledger.Outcome.Transfers.{TransferAllowed, DepositAllowed}
use px.Ledger.Steps.Overdraft.{
  is_escrow, NoOverdraft, NoOverdraft-write, escrow-is_escrow, move_balance-NoOverdraft,
  post_balances-NoOverdraft, reclaimed-NoOverdraft,
}
use px.Ledger.Steps.{Call, run}
use px.Ledger.Steps.Sound.{IsSound, AllProper}
use px.Ledger.Steps.Keeps.{Kept, run-keeps}
use px.Ledger.Valid.Next.{IsHexDigest}

-- A transfer's asset is in lower case, and its amount to give back is not negative.
abbrev pub is_reversible : LedgerTransfer → Bool
is_reversible t =
    str_eq (to_lower t.asset) t.asset && leb_ℤ (pos 0) (or_else t.reversal_amount_atomic (pos 0))

abbrev pub IsSolvent : Config → Ledger → Type 0
IsSolvent cfg s = (all is_reversible s.transfers ≡ true) × NoOverdraft cfg s

reclaimed-transfers :
    (cfg : Config) (asset keyset_id : String) (s : Ledger)
    → (reclaimed cfg asset keyset_id s).transfers ≡ s.transfers
unfolding reclaimed swept set_balance set_balance_by_ref
reclaimed-transfers cfg asset keyset_id s = ground arith

-- What the old transfers satisfy and a new last one does.
append_reversible :
    (ts : List LedgerTransfer) (t : LedgerTransfer)
    → all is_reversible ts ≡ true
    → is_reversible t ≡ true
    → all is_reversible (ts ++ t ∷ []) ≡ true
append_reversible ts t h k = all-append is_reversible ts (t ∷ []) h (rw k)

lower_text : (a : String) → str_eq (to_lower (to_lower a)) (to_lower a) ≡ true
lower_text a = rw (to_lower_idem a) (str_eq_refl (to_lower a))

positive-nonneg : (v : ℤ) → leb_ℤ v (pos 0) ≡ false → leb_ℤ (pos 0) v ≡ true
positive-nonneg v h = ground arith

paid_out-IsSolvent :
    (cfg : Config) (env : Env) (input : LedgerPayoutInput) (epoch : String) (s : Ledger)
    → PayoutAllowed cfg input s
    → IsSolvent cfg s
    → IsSolvent cfg (paid_out cfg env input epoch s)
unfolding paid_out balance set_balance set_balance_by_ref balance_by_ref
paid_out-IsSolvent cfg env input epoch s (positive, _, _, funded) (ts, h) =
    let a = to_lower input.asset_key in
    (
      append_reversible s.transfers _ ts
          (rw (lower_text input.asset_key, positive-nonneg input.amount_atomic positive)),
      NoOverdraft-write cfg (account_id cfg (escrow_account a)) a _
          (set_balance_by_ref (account_id cfg input.agent_id) a
            (balance_by_ref (account_id cfg input.agent_id) a s -ℤ input.amount_atomic) s)
          (NoOverdraft-write cfg (account_id cfg input.agent_id) a _ s h
            λ _. grind (int_laws, funded, positive))
          (escrow-is_escrow cfg input.asset_key _),
    )

transferred-IsSolvent :
    (cfg : Config) (env : Env) (input : LedgerTransferInput) (epoch : String) (s : Ledger)
    → TransferAllowed cfg input s
    → IsSolvent cfg s
    → IsSolvent cfg (transferred cfg env input epoch s)
unfolding transferred post_balances set_balance set_balance_by_ref balance balance_by_ref
transferred-IsSolvent cfg env input epoch s (_, positive, _, funded) (ts, h) =
    let a = to_lower input.asset_key in
    (
      append_reversible s.transfers _ ts (rw (lower_text input.asset_key)),
      post_balances-NoOverdraft cfg input.payer_agent_id input.payee_agent_id a _ _ s h
          (λ _. grind (int_laws, funded, positive))
          (λ apart.
            let old = h (account_id cfg input.payee_agent_id) a apart in
            grind (int_laws, old, positive)),
    )

credited-IsSolvent :
    (cfg : Config) (env : Env) (input : LedgerDepositInput) (epoch : String) (s : Ledger)
    → DepositAllowed cfg input s
    → IsSolvent cfg s
    → IsSolvent cfg (credited cfg env input epoch s)
unfolding credited post_balances set_balance set_balance_by_ref balance balance_by_ref
credited-IsSolvent cfg env input epoch s (positive, _, _, _) (ts, h) =
    let a = to_lower input.asset_key in
    (
      append_reversible s.transfers _ ts (rw (lower_text input.asset_key)),
      post_balances-NoOverdraft cfg input.agent_id (escrow_account a) a _ _ s h
          (λ apart.
            let old = h (account_id cfg input.agent_id) a apart in grind (int_laws, old, positive))
          (escrow-is_escrow cfg input.asset_key _),
    )

reversed-IsSolvent :
    (cfg : Config) (payout_ref : String) (t : LedgerTransfer) (s : Ledger)
    → find (is_payout_of cfg payout_ref) s.transfers ≡ some t
    → IsSolvent cfg s
    → IsSolvent cfg (reversed_of cfg payout_ref (some t) s)
unfolding reversed set_balance set_balance_by_ref balance balance_by_ref
reversed-IsSolvent cfg payout_ref t s found (ts, h) =
    let fits = all-find is_reversible (is_payout_of cfg payout_ref) s.transfers t ts found in
    let lower : to_lower t.asset ≡ t.asset =
      (str_eq_iff (to_lower t.asset) t.asset).0 (ground arith) in
    (
      all-remove_first is_reversible (is_payout_of cfg payout_ref) s.transfers ts,
      NoOverdraft-write cfg (account_id cfg (escrow_account t.asset)) t.asset _
          (set_balance_by_ref (or_else t.reversal_account_ref "") t.asset
            (balance_by_ref (or_else t.reversal_account_ref "") t.asset s
              +ℤ or_else t.reversal_amount_atomic (pos 0))
            s)
          (NoOverdraft-write cfg (or_else t.reversal_account_ref "") t.asset _ s h λ apart.
            let old = h (or_else t.reversal_account_ref "") t.asset apart in
            grind (int_laws, old, fits))
          (at_escrow t.asset lower _),
    )
  where
    at_escrow :
        (a : String)
        → to_lower a ≡ a
        → (v : ℤ) → is_escrow cfg (account_id cfg (escrow_account a)) a ≡ false
        → pos 0 ≤ℤ v
    at_escrow a lower v =
        subst (λ b. is_escrow cfg (account_id cfg (escrow_account b)) b ≡ false → pos 0 ≤ℤ v) lower
          (escrow-is_escrow cfg a v)

assign_batch-is_reversible :
    (asset id : String) (t : LedgerTransfer)
    → is_reversible t ≡ true
    → is_reversible (assign_batch asset id t) ≡ true
assign_batch-is_reversible asset id t h = elim (Bool-cases (is_batchable asset t)) [
  | inl e ↦ rw e h
  | inr e ↦ rw e h
]

IsSolvent-kept : (cfg : Config) → Kept cfg (IsSolvent cfg)
unfolding melted redeemed move_balance voucher_liability set_balance set_balance_by_ref with_batch
    balance_by_ref
IsSolvent-kept cfg = record {
  melt = λ input s v (positive, _, funded) (ts, h). (
    ts,
    move_balance-NoOverdraft cfg input.agent_id _ (to_lower input.asset_key) input.amount_atomic s
        funded positive h,
  );
  redeem = λ input s v (positive, _, funded) (ts, h). (
    ts,
    move_balance-NoOverdraft cfg _ input.recipient_agent_id (to_lower input.asset_key)
        input.amount_atomic s (rw (to_lower_idem input.asset_key) at funded) positive h,
  );
  reclaim = λ asset keyset_id s (ts, h). (
    rw (reclaimed-transfers cfg (to_lower asset) keyset_id s) ts,
    reclaimed-NoOverdraft cfg asset keyset_id s h,
  );
  pay = λ env input epoch s apart allowed h. transferred-IsSolvent cfg env input epoch s allowed h;
  credit = λ env input epoch s apart allowed h. credited-IsSolvent cfg env input epoch s allowed h;
  reserve = λ env input epoch s apart allowed h. paid_out-IsSolvent cfg env input epoch s allowed h;
  settle = λ env payout_ref hash s (ts, h).
      (all-update_first is_reversible _ (mark_settled env hash) s.transfers (λ t k. k) ts, h);
  reverse = λ payout_ref t s e h. reversed-IsSolvent cfg payout_ref t s e h;
  batch = λ env input s (ts, h). (
    all-map_keeping is_reversible _ s.transfers
        (assign_batch-is_reversible (to_lower input.asset_key) (new_batch_id env)) ts,
    h,
  );
  commit = λ env batch_id transaction s h. h;
  retain = λ ids s (ts, h). (all-keep is_reversible _ s.transfers ts, h);
}

-- Over any proper calls, whatever fails in them, no account is overdrawn except that an asset's
-- escrow is negative in that asset, as long as that held at the start.
pub run-IsSolvent :
    (cfg : Config) (calls : List (Env × Call)) (w : World)
    → IsHexDigest cfg
    → AllProper cfg calls
    → IsSound w
    → IsSolvent cfg w.memory × IsSolvent cfg w.disk
    → IsSolvent cfg (run cfg calls w).memory × IsSolvent cfg (run cfg calls w).disk
run-IsSolvent cfg calls w hex proper v h =
    run-keeps cfg (IsSolvent cfg) (IsSolvent-kept cfg) calls w hex proper v h
