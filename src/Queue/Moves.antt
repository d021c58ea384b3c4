-- ===== src/Queue/Moves.antt =====
-- `markPayoutSettled` and `reversePayout` move no payout back, and do what they say when they return.
use px.Prelude.{
  ℕ, ◌+◌, String, ◌≡◌, refl, Bool, true, false, not, ◌&&◌, Option, none, some, List, [], ◌∷◌, find,
  is_some, or_else, remove_first, Bool-cases, arith, inl, inr, if◌then◌else◌,
}
use px.Prelude.Int.{ℤ, pos, eq_ℤ}
use px.Prelude.Text.{network_part}
use px.Prelude.Action.{Result, ok, err, continue}
use px.Ledger.State.{Ledger, LedgerTransfer, Config, Env, World, LedgerError, opt_str_eq, truthy}
use px.Ledger.Accounts.{set_balance, set_balance_by_ref, total_balance}
use px.Ledger.Payouts.{
  is_payout_of, settled_hash, mark_settled, settle_first, record_settlement, settle_found,
  mark_payout_settled,
}
use px.Ledger.Reversals.{
  reversed, reverse_found, reverse_payout, orphan_refs, reverse_all, reverse_orphan_payouts,
}
use px.Queue.Standing.{
  is_settled_in, is_gone_from, Unique, Follows, Follows-refl, once-updated, gone-updated,
  settled-updated, settled-found, once-removed, gone-removed, settled-removed, gone-once,
}

settle_first-Follows :
    (cfg : Config) (env : Env) (payout_ref : String) (h : Option String) (s : Ledger)
    → Follows cfg s (settle_first cfg env payout_ref h s)
settle_first-Follows cfg env payout_ref h s =
    let p = is_payout_of cfg payout_ref in
    let f = mark_settled env h in
    record {
      settled_stays =
          λ r k. settled-updated p (is_payout_of cfg r) f (λ t. refl) (λ t. refl) s.transfers k;
      gone_stays = λ r k. rw (gone-updated p (is_payout_of cfg r) f (λ t. refl) s.transfers) k;
      unique_stays = λ r k. rw (once-updated p (is_payout_of cfg r) f (λ t. refl) s.transfers) k;
    }

-- The outcome of a settlement.
abbrev Marked : Config → String → World → Result LedgerError (Unit {0}) × World → Type 0
Marked cfg payout_ref w r =
    Follows cfg w.memory r.1.memory × (r.0 ≡ ok tt → is_settled_in cfg payout_ref r.1.memory ≡ true)

settle_found-Marked :
    (cfg : Config) (env : Env) (payout_ref : String) (tx : Option String) (w : World)
    (found : Option LedgerTransfer)
    → find (is_payout_of cfg payout_ref) w.memory.transfers ≡ found
    → Marked cfg payout_ref w (settle_found cfg env payout_ref tx found w)
unfolding record_settlement
settle_found-Marked cfg env payout_ref tx w none e = (Follows-refl cfg w.memory, λ k. cc)
settle_found-Marked cfg env payout_ref tx w (some t) e =
    let h = settled_hash (network_part t.asset) tx in
    elim (Bool-cases (is_some t.settled_at)) [
      | inl old ↦ elim (Bool-cases (not (opt_str_eq t.transaction_hash h))) [
        | inl other ↦ rw (old, other) (Follows-refl cfg w.memory, λ k. cc)
        | inr same ↦ rw (old, same) (Follows-refl cfg w.memory, λ k. rw (e, old) refl)
      ]
      | inr new ↦ elim (Bool-cases env.persists) [
        | inl written ↦
            rw (new, written)
              (
                settle_first-Follows cfg env payout_ref h w.memory,
                λ k.
                    settled-found (is_payout_of cfg payout_ref) (mark_settled env h) (λ x. refl)
                      (λ x. refl) w.memory.transfers (rw e refl),
              )
        | inr lost ↦ rw (new, lost) (Follows-refl cfg w.memory, λ k. cc)
      ]
    ]

pub mark_payout_settled-Marked :
    (cfg : Config) (env : Env) (payout_ref : String) (tx : Option String) (w : World)
    → Marked cfg payout_ref w (mark_payout_settled cfg env payout_ref tx w)
unfolding mark_payout_settled
mark_payout_settled-Marked cfg env payout_ref tx w =
    settle_found-Marked cfg env payout_ref tx w
      (find (is_payout_of cfg payout_ref) w.memory.transfers) refl

-- The transfers of the reversed ledger.
reversed_transfers :
    (cfg : Config) (payout_ref account_ref asset : String) (amount : ℤ) (s : Ledger)
    → (reversed cfg payout_ref account_ref asset amount s).transfers
      ≡ remove_first (is_payout_of cfg payout_ref) s.transfers
unfolding reversed set_balance set_balance_by_ref
reversed_transfers cfg payout_ref account_ref asset amount s = refl

reversed-Follows :
    (cfg : Config) (payout_ref : String) (t : LedgerTransfer) (s s' : Ledger)
    → find (is_payout_of cfg payout_ref) s.transfers ≡ some t
    → is_some t.settled_at ≡ false
    → s'.transfers ≡ remove_first (is_payout_of cfg payout_ref) s.transfers
    → Follows cfg s s'
reversed-Follows cfg payout_ref t s s' e new same =
    let p = is_payout_of cfg payout_ref in
    record {
      settled_stays = λ r k. rw same (settled-removed p (is_payout_of cfg r) s.transfers t e new k);
      gone_stays = λ r k. rw same (ground (arith, gone-removed p (is_payout_of cfg r) s.transfers));
      unique_stays = λ r k. rw same (once-removed p (is_payout_of cfg r) s.transfers k);
    }

-- The outcome of a reversal.
abbrev Reversed : Config → String → World → Result LedgerError Bool × World → Type 0
Reversed cfg payout_ref w r =
    Follows cfg w.memory r.1.memory
    × ((b : Bool)
        → Unique cfg w.memory
        → r.0 ≡ ok b
        → is_gone_from cfg payout_ref r.1.memory ≡ true)

reverse_found-Reversed :
    (cfg : Config) (env : Env) (payout_ref : String) (w : World) (found : Option LedgerTransfer)
    → find (is_payout_of cfg payout_ref) w.memory.transfers ≡ found
    → Reversed cfg payout_ref w (reverse_found cfg env payout_ref found w)
reverse_found-Reversed cfg env payout_ref w none e = (Follows-refl cfg w.memory, λ b u k. rw e refl)
reverse_found-Reversed cfg env payout_ref w (some t) e =
    let p = is_payout_of cfg payout_ref in
    let amount = or_else t.reversal_amount_atomic (pos 0) in
    let next =
      reversed cfg payout_ref (or_else t.reversal_account_ref "") t.asset amount w.memory in
    let same =
      reversed_transfers cfg payout_ref (or_else t.reversal_account_ref "") t.asset amount
        w.memory in
    elim (Bool-cases (truthy t.batch_id)) [
      | inl batched' ↦ rw batched' (Follows-refl cfg w.memory, λ b u k. cc)
      | inr free ↦ elim (Bool-cases (is_some t.settled_at)) [
        | inl old ↦ rw (free, old) (Follows-refl cfg w.memory, λ b u k. cc)
        | inr new ↦
            let follows = reversed-Follows cfg payout_ref t w.memory next e new same in
            elim (Bool-cases
              (not (truthy t.reversal_account_ref && is_some t.reversal_amount_atomic))) [
                | inl missing ↦ rw (free, new, missing) (Follows-refl cfg w.memory, λ b u k. cc)
                | inr there ↦
                    elim (Bool-cases
                      (not (eq_ℤ (total_balance t.asset next) (total_balance t.asset w.memory)))) [
                        | inl off ↦ rw (free, new, there, off) (follows, λ b u k. cc)
                        | inr balanced ↦ elim (Bool-cases env.persists) [
                          | inl written ↦
                              rw (free, new, there, balanced, written)
                                (
                                  follows,
                                  λ b u k.
                                      rw (same, gone-once p w.memory.transfers (u payout_ref)) refl,
                                )
                          | inr lost ↦
                              rw (free, new, there, balanced, lost)
                                (Follows-refl cfg w.memory, λ b u k. cc)
                        ]
                      ]
              ]
      ]
    ]

pub reverse_payout-Reversed :
    (cfg : Config) (env : Env) (payout_ref : String) (w : World)
    → Reversed cfg payout_ref w (reverse_payout cfg env payout_ref w)
unfolding reverse_payout
reverse_payout-Reversed cfg env payout_ref w =
    reverse_found-Reversed cfg env payout_ref w
      (find (is_payout_of cfg payout_ref) w.memory.transfers) refl

Follows-trans :
    (cfg : Config) (a b c : Ledger) → Follows cfg a b → Follows cfg b c → Follows cfg a c
Follows-trans cfg a b c f g = record {
  settled_stays = λ r h. g.settled_stays r (f.settled_stays r h);
  gone_stays = λ r h. g.gone_stays r (f.gone_stays r h);
  unique_stays = λ r h. g.unique_stays r (f.unique_stays r h);
}

reverse_all-Follows :
    (cfg : Config) (env : Env) (refs : List String) (count : ℕ) (w : World)
    → Follows cfg w.memory (reverse_all cfg env refs count w).1.memory
unfolding reverse_all
reverse_all-Follows cfg env [] count w = Follows-refl cfg w.memory
reverse_all-Follows cfg env (r ∷ refs) count w =
    go (reverse_payout cfg env r w).0 (reverse_payout cfg env r w).1
      (reverse_payout-Reversed cfg env r w).0
      (λ did w'. reverse_all-Follows cfg env refs (if did then count + 1 else count) w')
  where
    go :
        (o : Result LedgerError Bool) (w' : World)
        → Follows cfg w.memory w'.memory
        → ((did : Bool) (v : World)
            → Follows cfg v.memory
                (reverse_all cfg env refs (if did then count + 1 else count) v).1.memory)
        → Follows cfg w.memory
            (continue o
              (λ did. reverse_all cfg env refs (if did then count + 1 else count))
              w').1.memory
    go (ok did) w' f rest =
        Follows-trans cfg w.memory w'.memory
          (reverse_all cfg env refs (if did then count + 1 else count) w').1.memory f (rest did w')
    go (err e) w' f rest = f

pub reverse_orphan_payouts-Follows :
    (cfg : Config) (env : Env) (known : List String) (w : World)
    → Follows cfg w.memory (reverse_orphan_payouts cfg env known w).1.memory
unfolding reverse_orphan_payouts
reverse_orphan_payouts-Follows cfg env known w =
    reverse_all-Follows cfg env (orphan_refs known w.memory) 0 w
