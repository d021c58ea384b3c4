-- ===== src/Ledger/Steps/Claims.antt =====
-- What has been consumed stays consumed: deposits are credited, and payments accepted, once.
use mathlib.Core.Path.{subst}
use px.Prelude.{
  true_not_false, String, ◌≡◌, ◌⊎◌, ◌||◌, inl, inr, is_some, sym, ◌∙◌, true, false, List, [], ◌∷◌,
  ◌++◌, any, arith,
}
use px.Prelude.Text.{str_eq, str_eq_refl, to_lower}
use px.Prelude.Action.{ok}
use px.Ledger.State.{Ledger, Config, Env, World}
use px.Ledger.Transfers.{LedgerTransferResult, has_auth}
use px.Ledger.Deposits.{LedgerDepositInput, deposit_auth, legacy_auth, credited, credit_deposit}
use px.Ledger.Accounts.{set_balance, set_balance_by_ref}
use px.Ledger.Vouchers.{melted, redeemed, move_balance, reclaimed, swept}
use px.Ledger.Transfers.{transferred, post_balances}
use px.Ledger.Payouts.{paid_out}
use px.Ledger.Reversals.{reversed}
use px.Ledger.Batches.{with_batch}
use px.Ledger.Outcome.{Outcome-changed, Outcome-same}
use px.Ledger.Outcome.Transfers.{credit_deposit-Outcome, DepositAllowed}
use px.Ledger.Steps.{Call, credits, step, run}
use px.Ledger.Steps.Sound.{IsSound, AllProper, step-IsSound}
use px.Ledger.Steps.Keeps.{Kept, run-keeps}
use px.Ledger.Valid.Next.{IsHexDigest}

-- The proof of a deposit is among the tombstones.
abbrev pub IsConsumed : String → Ledger → Type 0
IsConsumed auth s = any (str_eq auth) s.consumed_deposit_hashes ≡ true

any-concat_old :
    (auth : String) (xs ys : List String)
    → any (str_eq auth) xs ≡ true
    → any (str_eq auth) (xs ++ ys) ≡ true
any-concat_old auth [] ys h = cc
any-concat_old auth (x ∷ xs) ys h = ground (arith, any-concat_old auth xs ys)

any-concat_new : (auth : String) (xs : List String) → any (str_eq auth) (xs ++ auth ∷ []) ≡ true
any-concat_new auth [] = rw (str_eq_refl auth)
any-concat_new auth (x ∷ xs) = ground (arith, any-concat_new auth xs)

reclaimed-IsConsumed :
    (cfg : Config) (asset keyset_id auth : String) (s : Ledger)
    → IsConsumed auth s
    → IsConsumed auth (reclaimed cfg (to_lower asset) keyset_id s)
unfolding reclaimed swept set_balance set_balance_by_ref
reclaimed-IsConsumed cfg asset keyset_id auth s h = ground arith

IsConsumed-kept : (cfg : Config) (auth : String) → Kept cfg (IsConsumed auth)
unfolding melted redeemed move_balance reclaimed swept set_balance set_balance_by_ref transferred
    post_balances credited paid_out reversed with_batch
IsConsumed-kept cfg auth = record {
  melt = λ input s v allowed h. h;
  redeem = λ input s v allowed h. h;
  reclaim = λ asset keyset_id s h. reclaimed-IsConsumed cfg asset keyset_id auth s h;
  pay = λ env input epoch s apart allowed h. h;
  credit = λ env input epoch s apart allowed h. any-concat_old auth s.consumed_deposit_hashes _ h;
  reserve = λ env input epoch s apart allowed h. h;
  settle = λ env payout_ref hash s h. h;
  reverse = λ payout_ref t s e h. h;
  batch = λ env input s h. h;
  commit = λ env batch_id transaction s h. h;
  retain = λ ids s h. h;
}

credited-IsConsumed :
    (cfg : Config) (env : Env) (input : LedgerDepositInput) (epoch : String) (s : Ledger)
    → IsConsumed (deposit_auth cfg input) (credited cfg env input epoch s)
unfolding credited post_balances set_balance set_balance_by_ref
credited-IsConsumed cfg env input epoch s =
    any-concat_new (deposit_auth cfg input) s.consumed_deposit_hashes

-- A deposit is claimed again under the key that it was credited with, or it was credited under the
-- key of its transaction alone and an indexed transfer of that transaction is claimed.
abbrev pub IsRepeat : Config → LedgerDepositInput → LedgerDepositInput → Type 0
IsRepeat cfg input repeat =
    (deposit_auth cfg repeat ≡ deposit_auth cfg input)
    ⊎ ((is_some repeat.transfer_index ≡ true) × (legacy_auth cfg repeat ≡ deposit_auth cfg input))

-- A consumed key refuses both kinds of repeat.
repeat-refused :
    (cfg : Config) (input repeat : LedgerDepositInput) (s : Ledger)
    → IsRepeat cfg input repeat
    → IsConsumed (deposit_auth cfg input) s
    → DepositAllowed cfg repeat s
    → ⊥
repeat-refused cfg input repeat s (inl same) kept (_, _, unconsumed, _) =
    true_not_false (sym kept ∙ rw same at unconsumed)
repeat-refused cfg input repeat s (inr (indexed, legacy)) kept (_, _, _, unclaimed) =
    absurd (clash (rw (indexed, legacy, kept) at unclaimed))
  where
    clash : (any (has_auth (deposit_auth cfg input)) s.transfers || true) ≡ false → ⊥
    clash e = ground arith

-- A deposit that was credited under a key is not credited again under it, and one that was credited
-- under the key of its transaction alone is not credited again for a transfer index of that
-- transaction: after any calls that follow, whatever fails in them, either repeat leaves the memory
-- and the file as they are.
pub credit_deposit-once :
    (cfg : Config) (env again : Env) (input repeat : LedgerDepositInput) (calls : List (Env × Call))
    (w : World) (r : LedgerTransferResult)
    → IsHexDigest cfg
    → AllProper cfg ((env, credits input) ∷ calls)
    → IsSound w
    → (credit_deposit cfg env input w).0 ≡ ok r
    → r.duplicate ≡ false
    → IsRepeat cfg input repeat
    → ((credit_deposit cfg again repeat (run cfg ((env, credits input) ∷ calls) w)).1.memory
        ≡ (run cfg ((env, credits input) ∷ calls) w).memory)
      × ((credit_deposit cfg again repeat (run cfg ((env, credits input) ∷ calls) w)).1.disk
          ≡ (run cfg ((env, credits input) ∷ calls) w).disk)
unfolding run step
credit_deposit-once cfg env again input repeat calls w r hex (p, ps) v done new same =
    let (allowed, epoch, in_memory, on_disk, _) =
      Outcome-changed (credit_deposit-Outcome cfg env input w) r done
        (λ old. true_not_false (sym old ∙ new)) in
    let first = credited-IsConsumed cfg env input epoch w.memory in
    let kept =
      run-keeps cfg (IsConsumed (deposit_auth cfg input))
        (IsConsumed-kept cfg (deposit_auth cfg input)) calls (step cfg env (credits input) w) hex ps
        (step-IsSound cfg env (credits input) w hex p v)
        (
          subst (IsConsumed (deposit_auth cfg input)) (sym in_memory) first,
          subst (IsConsumed (deposit_auth cfg input)) (sym on_disk) first,
        ) in
    Outcome-same
      (credit_deposit-Outcome cfg again repeat (run cfg ((env, credits input) ∷ calls) w))
      (repeat-refused cfg input repeat (run cfg ((env, credits input) ∷ calls) w).memory same
        kept.0)
