-- ===== src/Ledger/Steps/Sound.antt =====
-- The invariant over every call: memory and file are valid ledgers, whatever fails.
use px.Prelude.{
  ℕ, ◌+◌, String, ◌≡◌, refl, ◌∙◌, inl, inr, Bool, true, false, Option, none, some, List, [], ◌∷◌,
  all-find, find, keep, Bool-cases, arith, if◌then◌else◌,
}
use px.Prelude.Action.{Result, ok, err, continue}
use px.Prelude.Text.{to_lower, str_eq, has_colon}
use px.Prelude.Lower.{has_colon-to_lower}
use px.Journal.State.{Journal, JournalError}
use px.Journal.Methods.{burn}
use px.Ledger.State.{
  Ledger, LedgerTransfer, SettlementBatch, Config, Env, World, LedgerError, LedgerAction,
  escrow_account, truthy_time,
}
use px.Ledger.Checks.{transfer_ok}
use px.Ledger.Payouts.{is_payout_of}
use px.Ledger.Reversals.{reverse_payout, reverse_all, orphan_refs, reverse_orphan_payouts}
use px.Ledger.Batches.{
  mark_batch_committed, commit_found, commit_open_batch, has_batch_id, burn_expired, burn_batches,
  expired_batch_ids, erasable_epochs, burn_result, not_in_batches, retain_and_persist,
}
use px.Ledger.Valid.{IsValid}
use px.Ledger.Valid.Conserves.{AreApart}
use px.Ledger.Valid.Next.{
  IsHexDigest, IsAssetKey, melted-IsValid, redeemed-IsValid, reclaimed-IsValid,
}
use px.Ledger.Valid.Postings.{
  transferred-IsValid, credited-IsValid, paid_out-IsValid, reversed-IsValid, settle_first-IsValid,
  with_batch-IsValid, commit_batch-IsValid, retained-IsValid,
}
use px.Ledger.Outcome.{Outcome-both, if_either}
use px.Ledger.Outcome.Transfers.{transfer-Outcome, credit_deposit-Outcome}
use px.Ledger.Outcome.Payouts.{
  reserve_payout-Outcome, mark_payout_settled-Outcome, settled_of, reverse_payout-Outcome,
  reversed_of,
}
use px.Ledger.Outcome.Vouchers.{
  melt_to_vouchers-Outcome, redeem_to_account-Outcome, reclaim_retired_keyset-Outcome,
  create_settlement_batch-Outcome,
}
use px.Ledger.Steps.{
  Call, melts, redeems, reclaims, transfers, credits, reserves, settles, reverses, reverses_orphans,
  creates_batch, commits_batch, burns, step, run,
}

-- What the callers see to: asset keys have a colon, keysets a name, and the two accounts that a
-- transfer, a deposit or a payout posts to have different identifiers.
abbrev pub IsProper : Config → Call → Type 0
IsProper cfg (melts input) = IsAssetKey input.asset_key × (str_eq input.keyset_id "" ≡ false)
IsProper cfg (redeems input) = IsAssetKey input.asset_key × (str_eq input.keyset_id "" ≡ false)
IsProper cfg (reclaims asset_key keyset_id) = IsAssetKey asset_key
IsProper cfg (transfers input) =
    IsAssetKey input.asset_key × AreApart cfg input.payer_agent_id input.payee_agent_id
IsProper cfg (credits input) =
    IsAssetKey input.asset_key
    × AreApart cfg input.agent_id (escrow_account (to_lower input.asset_key))
IsProper cfg (reserves input) =
    IsAssetKey input.asset_key
    × AreApart cfg input.agent_id (escrow_account (to_lower input.asset_key))
IsProper cfg (settles payout_ref transaction) = Unit
IsProper cfg (reverses payout_ref) = Unit
IsProper cfg (reverses_orphans known) = Unit
IsProper cfg (creates_batch input) = Unit
IsProper cfg (commits_batch batch_id transaction) = Unit
IsProper cfg (burns now) = Unit

-- Memory and the file are valid ledgers, each with every asset in balance.
abbrev pub IsSound : World → Type 0
IsSound w = IsValid w.memory × IsValid w.disk

settled_of-IsValid :
    (cfg : Config) (env : Env) (payout_ref : String) (h : Option String) (o : Option LedgerTransfer)
    (s : Ledger)
    → IsValid s
    → IsValid (settled_of cfg env payout_ref h o s)
settled_of-IsValid cfg env payout_ref h none s v = v
settled_of-IsValid cfg env payout_ref h (some t) s v = settle_first-IsValid cfg env payout_ref _ s v

reversed_of-IsValid :
    (cfg : Config) (payout_ref : String) (o : Option LedgerTransfer) (s : Ledger)
    → find (is_payout_of cfg payout_ref) s.transfers ≡ o
    → IsValid s
    → IsValid (reversed_of cfg payout_ref o s)
reversed_of-IsValid cfg payout_ref none s e v = v
reversed_of-IsValid cfg payout_ref (some t) s e v =
    reversed-IsValid cfg payout_ref _ t.asset _ s (has_colon-to_lower t.asset ∙ colon) v
  where
    colon : has_colon t.asset ≡ true
    colon =
        let p = all-find transfer_ok (is_payout_of cfg payout_ref) s.transfers t v.transfers e in
        ground arith

reverse_payout-IsSound :
    (cfg : Config) (env : Env) (payout_ref : String) (w : World)
    → IsSound w
    → IsSound (reverse_payout cfg env payout_ref w).1
reverse_payout-IsSound cfg env payout_ref w h =
    Outcome-both IsValid (reverse_payout-Outcome cfg env payout_ref w)
      (λ _ _. reversed_of-IsValid cfg payout_ref _ w.memory refl h.0) h

after_reversal :
    (k : Bool → LedgerAction ℕ)
    → ((did : Bool) (u : World) → IsSound u → IsSound (k did u).1)
    → (p : Result LedgerError Bool × World) → IsSound p.1
    → IsSound (continue p.0 k p.1).1
after_reversal k rest (ok did, u) h = rest did u h
after_reversal k rest (err e, u) h = h

reverse_all-IsSound :
    (cfg : Config) (env : Env) (refs : List String) (count : ℕ) (w : World)
    → IsSound w
    → IsSound (reverse_all cfg env refs count w).1
unfolding reverse_all
reverse_all-IsSound cfg env [] count w h = h
reverse_all-IsSound cfg env (r ∷ refs) count w h =
    after_reversal (λ did. reverse_all cfg env refs (if did then count + 1 else count))
      (λ n u. reverse_all-IsSound cfg env refs (if n then count + 1 else count) u)
      (reverse_payout cfg env r w) (reverse_payout-IsSound cfg env r w h)

commit_answered-IsSound :
    (env : Env) (batch_id : String) (transaction : Option String) (o : Option SettlementBatch)
    (w : World)
    → IsSound w
    → IsSound (commit_found env batch_id transaction o w).1
unfolding commit_open_batch
commit_answered-IsSound env batch_id transaction none w h = h
commit_answered-IsSound env batch_id transaction (some b) w h =
    let new = commit_batch-IsValid env batch_id transaction w.memory h.0 in
    elim (Bool-cases (truthy_time b.settled_at)) [
      | inl old ↦ rw old h
      | inr fresh ↦ rw fresh (elim (Bool-cases env.persists) [
        | inl written ↦ rw written (new, new)
        | inr failed ↦ rw failed (new, if_either IsValid env.replaces new h.1)
      ])
    ]

burn_batches-IsSound :
    (env : Env) (ids : List String) (w : World) → IsSound w → IsSound (burn_batches env ids w).1
unfolding burn_batches
burn_batches-IsSound env [] w h = h
burn_batches-IsSound env (id ∷ ids) w h =
    go (burn env.journal.removal (erasable_epochs (id ∷ ids) w.memory) w.journal)
  where
    new :
        IsValid
          (record w.memory { transfers = keep (not_in_batches (id ∷ ids)) w.memory.transfers })
    new = retained-IsValid (id ∷ ids) w.memory h.0

    go :
        (p : Result JournalError ℕ × Journal)
        → IsSound
            (continue
              (burn_result p.0)
              (retain_and_persist env (id ∷ ids) w.memory)
              (record w { journal = p.1 })).1
    go (err e, j) = h
    go (ok n, j) = elim (Bool-cases env.persists) [
      | inl written ↦ unfold retain_and_persist in rw written (new, new)
      | inr failed ↦
          unfold retain_and_persist in rw failed (new, if_either IsValid env.replaces new h.1)
    ]

-- Every call keeps the invariant.
pub step-IsSound :
    (cfg : Config) (env : Env) (call : Call) (w : World)
    → IsHexDigest cfg
    → IsProper cfg call
    → IsSound w
    → IsSound (step cfg env call w)
unfolding step
step-IsSound cfg env (melts input) w hex (key, named) h =
    Outcome-both IsValid (melt_to_vouchers-Outcome cfg env input w hex key named h.0)
      (λ _ _. melted-IsValid cfg input w.memory hex key named h.0) h
step-IsSound cfg env (redeems input) w hex (key, named) h =
    Outcome-both IsValid (redeem_to_account-Outcome cfg env input w hex key named h.0)
      (λ _ _. redeemed-IsValid cfg input w.memory hex key named h.0) h
step-IsSound cfg env (reclaims asset_key keyset_id) w hex key h =
    Outcome-both IsValid (reclaim_retired_keyset-Outcome cfg env asset_key keyset_id w key h.0)
      (λ _ _. reclaimed-IsValid cfg asset_key keyset_id w.memory key h.0) h
step-IsSound cfg env (transfers input) w hex (key, apart) h =
    Outcome-both IsValid (transfer-Outcome cfg env input w)
      (λ _ epoch. transferred-IsValid cfg env input epoch w.memory key apart h.0) h
step-IsSound cfg env (credits input) w hex (key, apart) h =
    Outcome-both IsValid (credit_deposit-Outcome cfg env input w)
      (λ _ epoch. credited-IsValid cfg env input epoch w.memory key apart h.0) h
step-IsSound cfg env (reserves input) w hex (key, apart) h =
    Outcome-both IsValid (reserve_payout-Outcome cfg env input w apart)
      (λ _ epoch. paid_out-IsValid cfg env input epoch w.memory key apart h.0) h
step-IsSound cfg env (settles payout_ref transaction) w hex ok_call h =
    Outcome-both IsValid (mark_payout_settled-Outcome cfg env payout_ref transaction w)
      (λ _ _. settled_of-IsValid cfg env payout_ref transaction _ w.memory h.0) h
step-IsSound cfg env (reverses payout_ref) w hex ok_call h =
    reverse_payout-IsSound cfg env payout_ref w h
step-IsSound cfg env (reverses_orphans known) w hex ok_call h =
    unfold reverse_orphan_payouts in reverse_all-IsSound cfg env (orphan_refs known w.memory) 0 w h
step-IsSound cfg env (creates_batch input) w hex ok_call h =
    Outcome-both IsValid (create_settlement_batch-Outcome cfg env input w)
      (λ allowed _. with_batch-IsValid cfg env input w.memory allowed.0 h.0) h
step-IsSound cfg env (commits_batch batch_id transaction) w hex ok_call h =
    unfold mark_batch_committed in
    commit_answered-IsSound env batch_id transaction (find (has_batch_id batch_id) w.memory.batches)
      w h
step-IsSound cfg env (burns now) w hex ok_call h =
    unfold burn_expired in burn_batches-IsSound env (expired_batch_ids cfg now w.memory) w h

abbrev pub AllProper : Config → List (Env × Call) → Type 0
AllProper cfg [] = Unit
AllProper cfg ((_, call) ∷ calls) = IsProper cfg call × AllProper cfg calls

-- After any proper calls, with any failures of the journal and of the file, the ledger in memory
-- and the one on disk are valid, and every asset sums to zero over all accounts.
pub run-IsSound :
    (cfg : Config) (calls : List (Env × Call)) (w : World)
    → IsHexDigest cfg
    → AllProper cfg calls
    → IsSound w
    → IsSound (run cfg calls w)
unfolding run
run-IsSound cfg [] w hex proper h = h
run-IsSound cfg ((env, call) ∷ calls) w hex (p, ps) h =
    run-IsSound cfg calls (step cfg env call w) hex ps (step-IsSound cfg env call w hex p h)
