-- ===== src/Ledger/Undone.antt =====
-- A payout that is reserved and then reversed.
use mathlib.Core.Path.{subst}
use px.Prelude.{
  true_not_false, String, ◌≡◌, refl, sym, ap, ◌∙◌, inl, inr, Bool, true, false, ◌&&◌, none, some,
  List, [], ◌∷◌, ◌++◌, find, find-append_none, remove_first, or_else, is_some, Bool-cases, arith,
}
use px.Prelude.Int.{ℤ, pos, ◌+ℤ◌, ◌-ℤ◌, eq_ℤ_refl, int_laws}
use px.Prelude.Text.{account_prefix_not_empty, str_eq, str_eq_iff, str_eq_refl, to_lower}
use px.Prelude.Action.{ok}
use px.Ledger.State.{Ledger, LedgerTransfer, Config, Env, World, account_id, escrow_account, truthy}
use px.Ledger.Accounts.{balance, balance_by_ref, set_balance, set_balance_by_ref, total_balance}
use px.Ledger.Payouts.{
  LedgerPayoutInput, LedgerPayoutResult, paid_out, payout_transfer, is_payout_of, reserve_payout,
}
use px.Ledger.Reversals.{reversed, reverse_found, reverse_payout}
use px.Ledger.Outcome.{Outcome-changed}
use px.Ledger.Outcome.Payouts.{reserve_payout-Outcome, reversed_of}
use px.Ledger.Valid.Conserves.{AreApart, reversed-Conserves}
use px.Ledger.Funds.{touches, balance-untouched, balance-touched}

remove_first-appended :
    (p : LedgerTransfer → Bool) (ts : List LedgerTransfer) (t : LedgerTransfer)
    → find p ts ≡ none
    → p t ≡ true
    → remove_first p (ts ++ t ∷ []) ≡ ts
remove_first-appended p [] t h k = rw k
remove_first-appended p (x ∷ ts) t h k = elim (Bool-cases (p x)) [
  | inl e ↦ absurd (not_none (rw e at h))
  | inr e ↦ rw e (ap (◌∷◌ x) (remove_first-appended p ts t (rw e at h) k))
]
  where
    not_none : some x ≡ none → ⊥
    not_none e = cc

-- A payout's row that may be reversed is reversed when the file is written.
reverse_found-runs :
    (cfg : Config) (env : Env) (payout_ref : String) (t : LedgerTransfer) (w : World)
    → truthy t.batch_id ≡ false
    → is_some t.settled_at ≡ false
    → (truthy t.reversal_account_ref && is_some t.reversal_amount_atomic) ≡ true
    → env.persists ≡ true
    → reverse_found cfg env payout_ref (some t) w ≡ (
      ok true,
      record w {
        memory = reversed_of cfg payout_ref (some t) w.memory;
        disk = reversed_of cfg payout_ref (some t) w.memory;
      },
    )
reverse_found-runs cfg env payout_ref t w unbatched unsettled data_there written = rw (
  unbatched,
  unsettled,
  data_there,
  reversed-Conserves cfg payout_ref (or_else t.reversal_account_ref "") t.asset
      (or_else t.reversal_amount_atomic (pos 0)) w.memory t.asset,
  eq_ℤ_refl (total_balance t.asset w.memory),
  written,
)

-- The same balances and the same transfers.
abbrev pub IsUndone : Ledger → Ledger → Type 0
IsUndone s s' =
    (s'.transfers ≡ s.transfers)
    × ((account_ref asset : String)
        → balance_by_ref account_ref asset s' ≡ balance_by_ref account_ref asset s)

balance-same_key :
    (r a q b : String) (s : Ledger)
    → touches r a q b ≡ true
    → balance_by_ref q b s ≡ balance_by_ref r a s
unfolding balance_by_ref
balance-same_key r a q b s h = rw (
  sym ((str_eq_iff r q).0 (ground arith)),
  sym ((str_eq_iff (to_lower a) (to_lower b)).0 (ground arith)),
)

-- Two accounts are written, and written again with the opposite amounts.
four_writes :
    (p e a : String) (m : ℤ) (s : Ledger)
    → str_eq p e ≡ false
    → let s1 = set_balance_by_ref p a (balance_by_ref p a s -ℤ m) s in
      let s2 = set_balance_by_ref e a (balance_by_ref e a s +ℤ m) s1 in
      let s3 = set_balance_by_ref p a (balance_by_ref p a s2 +ℤ m) s2 in
      let s4 = set_balance_by_ref e a (balance_by_ref e a s3 -ℤ m) s3 in
      (q b : String) → balance_by_ref q b s4 ≡ balance_by_ref q b s
four_writes p e a m s apart q b =
    let s1 = set_balance_by_ref p a (balance_by_ref p a s -ℤ m) s in
    let s2 = set_balance_by_ref e a (balance_by_ref e a s +ℤ m) s1 in
    let v2 = balance_by_ref p a s2 +ℤ m in
    let s3 = set_balance_by_ref p a v2 s2 in
    let u2 = balance_by_ref e a s3 -ℤ m in
    let p_e : touches p a e a ≡ false = ground arith in
    let e_p : touches e a p a ≡ false = ground (arith, str_eq_iff p e, str_eq_iff e p) in
    let at_p1 =
      balance-untouched e a p a (balance_by_ref e a s +ℤ m) s1 e_p
      ∙ balance-touched p a (balance_by_ref p a s -ℤ m) s in
    let at_e2 =
      balance-untouched p a e a v2 s2 p_e ∙ balance-touched e a (balance_by_ref e a s +ℤ m) s1 in
    elim (Bool-cases (touches e a q b)) [
      | inl hit ↦
          balance-same_key e a q b (set_balance_by_ref e a u2 s3) hit
          ∙ balance-touched e a u2 s3
          ∙ ap (λ x. x -ℤ m) at_e2
          ∙ back_down (balance_by_ref e a s)
          ∙ sym (balance-same_key e a q b s hit)
      | inr far ↦ balance-untouched e a q b u2 s3 far ∙ elim (Bool-cases (touches p a q b)) [
        | inl hit ↦
            balance-same_key p a q b s3 hit
            ∙ balance-touched p a v2 s2
            ∙ ap (λ x. x +ℤ m) at_p1
            ∙ back_up (balance_by_ref p a s)
            ∙ sym (balance-same_key p a q b s hit)
        | inr near ↦
            balance-untouched p a q b v2 s2 near
            ∙ balance-untouched e a q b (balance_by_ref e a s +ℤ m) s1 far
            ∙ balance-untouched p a q b (balance_by_ref p a s -ℤ m) s near
      ]
    ]
  where
    back_down : (x : ℤ) → (x +ℤ m) -ℤ m ≡ x
    back_down x = omega int_laws

    back_up : (x : ℤ) → (x -ℤ m) +ℤ m ≡ x
    back_up x = omega int_laws

paid_out-IsUndone :
    (cfg : Config) (env : Env) (input : LedgerPayoutInput) (epoch : String) (s : Ledger)
    → AreApart cfg input.agent_id (escrow_account (to_lower input.asset_key))
    → find (is_payout_of cfg input.payout_ref) s.transfers ≡ none
    → IsUndone s (
        reversed_of cfg input.payout_ref
          (some (payout_transfer cfg env input epoch))
          (paid_out cfg env input epoch s))
unfolding paid_out reversed balance set_balance set_balance_by_ref balance_by_ref
paid_out-IsUndone cfg env input epoch s apart fresh = (
  remove_first-appended (is_payout_of cfg input.payout_ref) s.transfers
      (payout_transfer cfg env input epoch) fresh (rw (str_eq_refl _)),
  four_writes (account_id cfg input.agent_id)
      (account_id cfg (escrow_account (to_lower input.asset_key))) (to_lower input.asset_key)
      input.amount_atomic s apart,
)

paid_out-found :
    (cfg : Config) (env : Env) (input : LedgerPayoutInput) (epoch : String) (s : Ledger)
    → find (is_payout_of cfg input.payout_ref) s.transfers ≡ none
    → find (is_payout_of cfg input.payout_ref) (paid_out cfg env input epoch s).transfers
      ≡ some (payout_transfer cfg env input epoch)
unfolding paid_out set_balance set_balance_by_ref
paid_out-found cfg env input epoch s fresh =
    find-append_none (is_payout_of cfg input.payout_ref) s.transfers _ fresh ∙ rw (str_eq_refl _)

account_id-truthy :
    (cfg : Config) (agent_id : String) → truthy (some (account_id cfg agent_id)) ≡ true
unfolding account_id
account_id-truthy cfg agent_id = rw (account_prefix_not_empty (cfg.account_hmac agent_id))

-- A new reservation that is reversed, with a file that can be written, leaves the transfers and
-- every balance as they were before it.
pub reverse_payout-undoes :
    (cfg : Config) (env later : Env) (input : LedgerPayoutInput) (w : World)
    (r : LedgerPayoutResult)
    → AreApart cfg input.agent_id (escrow_account (to_lower input.asset_key))
    → (reserve_payout cfg env input w).0 ≡ ok r
    → r.duplicate ≡ false
    → later.persists ≡ true
    → let after = reverse_payout cfg later input.payout_ref (reserve_payout cfg env input w).1 in
      (after.0 ≡ ok true) × IsUndone w.memory after.1.memory × IsUndone w.memory after.1.disk
unfolding reverse_payout
reverse_payout-undoes cfg env later input w r apart done new written =
    let ((_, _, fresh, _), epoch, in_memory, _, _) =
      Outcome-changed (reserve_payout-Outcome cfg env input w apart) r done
        (λ old. true_not_false (sym old ∙ new)) in
    let w1 = (reserve_payout cfg env input w).1 in
    let t = payout_transfer cfg env input epoch in
    let found : find (is_payout_of cfg input.payout_ref) w1.memory.transfers ≡ some t =
      ap (λ s. find (is_payout_of cfg input.payout_ref) s.transfers) in_memory
      ∙ paid_out-found cfg env input epoch w.memory fresh in
    let runs =
      reverse_found-runs cfg later input.payout_ref t w1 refl refl
        (rw (account_id-truthy cfg input.agent_id)) written in
    let undone =
      subst (λ s. IsUndone w.memory (reversed_of cfg input.payout_ref (some t) s)) (sym in_memory)
        (paid_out-IsUndone cfg env input epoch w.memory apart fresh) in
    subst
      (λ after.
        (after.0 ≡ ok true) × IsUndone w.memory after.1.memory × IsUndone w.memory after.1.disk)
      (sym (ap (λ o. reverse_found cfg later input.payout_ref o w1) found ∙ runs))
      (refl, undone, undone)
