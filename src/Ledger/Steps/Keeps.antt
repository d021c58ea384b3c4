-- ===== src/Ledger/Steps/Keeps.antt =====
-- Properties of a ledger that every call keeps, each from its new ledgers alone.
use px.Prelude.{
  ℕ, ◌+◌, String, ◌≡◌, refl, inl, inr, Bool, Option, none, some, List, [], ◌∷◌, find, keep,
  update_first, Bool-cases, if◌then◌else◌,
}
use px.Prelude.Action.{Result, ok, err, continue}
use px.Prelude.Text.{to_lower}
use px.Journal.State.{Journal, JournalError}
use px.Journal.Methods.{burn}
use px.Ledger.State.{
  Ledger, LedgerTransfer, SettlementBatch, Config, Env, World, LedgerError, LedgerAction,
  escrow_account, truthy_time,
}
use px.Ledger.Payouts.{is_payout_of}
use px.Ledger.Reversals.{reverse_payout, reverse_all, orphan_refs, reverse_orphan_payouts}
use px.Ledger.Batches.{
  mark_batch_committed, commit_found, commit_open_batch, has_batch_id, burn_expired, burn_batches,
  expired_batch_ids, erasable_epochs, burn_result, not_in_batches, retain_and_persist,
}
use px.Ledger.Valid.{IsValid}
use px.Ledger.Valid.Conserves.{AreApart}
use px.Ledger.Valid.Next.{IsHexDigest}
use px.Ledger.Outcome.{Outcome-both, if_either}
use px.Ledger.Outcome.Transfers.{transfer-Outcome, credit_deposit-Outcome}
use px.Ledger.Outcome.Payouts.{
  reserve_payout-Outcome, mark_payout_settled-Outcome, settled_of, reverse_payout-Outcome,
  reversed_of,
}
use px.Ledger.Outcome.Vouchers.{
  melt_to_vouchers-Outcome, redeem_to_account-Outcome, reclaim_retired_keyset-Outcome,
  create_settlement_batch-Outcome,
}
use px.Ledger.Steps.{
  Call, melts, redeems, reclaims, transfers, credits, reserves, settles, reverses, reverses_orphans,
  creates_batch, commits_batch, burns, step, run,
}
use px.Ledger.Steps.Sound.{IsProper, IsSound, AllProper, step-IsSound}
use px.Ledger.Vouchers.{
  LedgerVoucherMeltInput, LedgerVoucherRedeemInput, melted, redeemed, reclaimed,
}
use px.Ledger.Transfers.{LedgerTransferInput, transferred}
use px.Ledger.Deposits.{LedgerDepositInput, credited}
use px.Ledger.Payouts.{LedgerPayoutInput, paid_out, settle_first}
use px.Ledger.Batches.{BatchInput, with_batch, commit_batch}
use px.Ledger.Outcome.Transfers.{TransferAllowed, DepositAllowed}
use px.Ledger.Outcome.Payouts.{PayoutAllowed}
use px.Ledger.Outcome.Vouchers.{MeltAllowed, RedeemAllowed}

-- A property of ledgers that each call's new ledger inherits, from a valid ledger on which the
-- call's guards have passed.
pub record Kept (cfg : Config) (P : Ledger → Type 0) : Type 0 where
  pub melt :
      (input : LedgerVoucherMeltInput) (s : Ledger)
      → IsValid s
      → MeltAllowed cfg input s
      → P s
      → P (melted cfg input s)
  pub redeem :
      (input : LedgerVoucherRedeemInput) (s : Ledger)
      → IsValid s
      → RedeemAllowed cfg input s
      → P s
      → P (redeemed cfg input s)
  pub reclaim :
      (asset keyset_id : String) (s : Ledger) → P s → P (reclaimed cfg (to_lower asset) keyset_id s)
  pub pay :
      (env : Env) (input : LedgerTransferInput) (epoch : String) (s : Ledger)
      → AreApart cfg input.payer_agent_id input.payee_agent_id
      → TransferAllowed cfg input s
      → P s
      → P (transferred cfg env input epoch s)
  pub credit :
      (env : Env) (input : LedgerDepositInput) (epoch : String) (s : Ledger)
      → AreApart cfg input.agent_id (escrow_account (to_lower input.asset_key))
      → DepositAllowed cfg input s
      → P s
      → P (credited cfg env input epoch s)
  pub reserve :
      (env : Env) (input : LedgerPayoutInput) (epoch : String) (s : Ledger)
      → AreApart cfg input.agent_id (escrow_account (to_lower input.asset_key))
      → PayoutAllowed cfg input s
      → P s
      → P (paid_out cfg env input epoch s)
  pub settle :
      (env : Env) (payout_ref : String) (h : Option String) (s : Ledger)
      → P s
      → P (settle_first cfg env payout_ref h s)
  pub reverse :
      (payout_ref : String) (t : LedgerTransfer) (s : Ledger)
      → find (is_payout_of cfg payout_ref) s.transfers ≡ some t
      → P s
      → P (reversed_of cfg payout_ref (some t) s)
  pub batch : (env : Env) (input : BatchInput) (s : Ledger) → P s → P (with_batch cfg env input s)
  pub commit :
      (env : Env) (batch_id : String) (transaction : Option String) (s : Ledger)
      → P s
      → P (record s {
        batches = update_first (has_batch_id batch_id) (commit_batch env transaction) s.batches;
      })
  pub retain :
      (ids : List String) (s : Ledger)
      → P s
      → P (record s { transfers = keep (not_in_batches ids) s.transfers })

module _ (cfg : Config) (P : Ledger → Type 0) (kept : Kept cfg P) where
  abbrev Both : World → Type 0
  Both w = P w.memory × P w.disk

  settled-keeps :
      (env : Env) (payout_ref : String) (h : Option String) (o : Option LedgerTransfer) (s : Ledger)
      → P s
      → P (settled_of cfg env payout_ref h o s)
  settled-keeps env payout_ref h none s p = p
  settled-keeps env payout_ref h (some t) s p = kept.settle env payout_ref _ s p

  reversed-keeps :
      (payout_ref : String) (o : Option LedgerTransfer) (s : Ledger)
      → find (is_payout_of cfg payout_ref) s.transfers ≡ o
      → P s
      → P (reversed_of cfg payout_ref o s)
  reversed-keeps payout_ref none s e p = p
  reversed-keeps payout_ref (some t) s e p = kept.reverse payout_ref t s e p

  reverse_payout-keeps :
      (env : Env) (payout_ref : String) (w : World)
      → Both w
      → Both (reverse_payout cfg env payout_ref w).1
  reverse_payout-keeps env payout_ref w h =
      Outcome-both P (reverse_payout-Outcome cfg env payout_ref w)
        (λ _ _. reversed-keeps payout_ref _ w.memory refl h.0) h

  after_reversal :
      (k : Bool → LedgerAction ℕ)
      → ((did : Bool) (u : World) → Both u → Both (k did u).1)
      → (p : Result LedgerError Bool × World) → Both p.1
      → Both (continue p.0 k p.1).1
  after_reversal k rest (ok did, u) h = rest did u h
  after_reversal k rest (err e, u) h = h

  reverse_all-keeps :
      (env : Env) (refs : List String) (count : ℕ) (w : World)
      → Both w
      → Both (reverse_all cfg env refs count w).1
  unfolding reverse_all
  reverse_all-keeps env [] count w h = h
  reverse_all-keeps env (r ∷ refs) count w h =
      after_reversal (λ did. reverse_all cfg env refs (if did then count + 1 else count))
        (λ n u. reverse_all-keeps env refs (if n then count + 1 else count) u)
        (reverse_payout cfg env r w) (reverse_payout-keeps env r w h)

  commit_found-keeps :
      (env : Env) (batch_id : String) (transaction : Option String) (o : Option SettlementBatch)
      (w : World)
      → Both w
      → Both (commit_found env batch_id transaction o w).1
  unfolding commit_open_batch
  commit_found-keeps env batch_id transaction none w h = h
  commit_found-keeps env batch_id transaction (some b) w h =
      let new = kept.commit env batch_id transaction w.memory h.0 in
      elim (Bool-cases (truthy_time b.settled_at)) [
        | inl old ↦ rw old h
        | inr fresh ↦ rw fresh (elim (Bool-cases env.persists) [
          | inl written ↦ rw written (new, new)
          | inr failed ↦ rw failed (new, if_either P env.replaces new h.1)
        ])
      ]

  burn_batches-keeps :
      (env : Env) (ids : List String) (w : World) → Both w → Both (burn_batches env ids w).1
  unfolding burn_batches
  burn_batches-keeps env [] w h = h
  burn_batches-keeps env (id ∷ ids) w h =
      go (burn env.journal.removal (erasable_epochs (id ∷ ids) w.memory) w.journal)
    where
      new : P (record w.memory { transfers = keep (not_in_batches (id ∷ ids)) w.memory.transfers })
      new = kept.retain (id ∷ ids) w.memory h.0

      go :
          (p : Result JournalError ℕ × Journal)
          → Both
              (continue
                (burn_result p.0)
                (retain_and_persist env (id ∷ ids) w.memory)
                (record w { journal = p.1 })).1
      go (err e, j) = h
      go (ok n, j) = elim (Bool-cases env.persists) [
        | inl written ↦ unfold retain_and_persist in rw written (new, new)
        | inr failed ↦
            unfold retain_and_persist in rw failed (new, if_either P env.replaces new h.1)
      ]

  pub step-keeps :
      (env : Env) (call : Call) (w : World)
      → IsHexDigest cfg
      → IsProper cfg call
      → IsSound w
      → Both w
      → Both (step cfg env call w)
  unfolding step
  step-keeps env (melts input) w hex (key, named) v h =
      Outcome-both P (melt_to_vouchers-Outcome cfg env input w hex key named v.0)
        (λ allowed _. kept.melt input w.memory v.0 allowed h.0) h
  step-keeps env (redeems input) w hex (key, named) v h =
      Outcome-both P (redeem_to_account-Outcome cfg env input w hex key named v.0)
        (λ allowed _. kept.redeem input w.memory v.0 allowed h.0) h
  step-keeps env (reclaims asset_key keyset_id) w hex key v h =
      Outcome-both P (reclaim_retired_keyset-Outcome cfg env asset_key keyset_id w key v.0)
        (λ _ _. kept.reclaim asset_key keyset_id w.memory h.0) h
  step-keeps env (transfers input) w hex (key, apart) v h =
      Outcome-both P (transfer-Outcome cfg env input w)
        (λ allowed epoch. kept.pay env input epoch w.memory apart allowed h.0) h
  step-keeps env (credits input) w hex (key, apart) v h =
      Outcome-both P (credit_deposit-Outcome cfg env input w)
        (λ allowed epoch. kept.credit env input epoch w.memory apart allowed h.0) h
  step-keeps env (reserves input) w hex (key, apart) v h =
      Outcome-both P (reserve_payout-Outcome cfg env input w apart)
        (λ allowed epoch. kept.reserve env input epoch w.memory apart allowed h.0) h
  step-keeps env (settles payout_ref transaction) w hex proper v h =
      Outcome-both P (mark_payout_settled-Outcome cfg env payout_ref transaction w)
        (λ _ _. settled-keeps env payout_ref transaction _ w.memory h.0) h
  step-keeps env (reverses payout_ref) w hex proper v h = reverse_payout-keeps env payout_ref w h
  step-keeps env (reverses_orphans known) w hex proper v h =
      unfold reverse_orphan_payouts in reverse_all-keeps env (orphan_refs known w.memory) 0 w h
  step-keeps env (creates_batch input) w hex proper v h =
      Outcome-both P (create_settlement_batch-Outcome cfg env input w)
        (λ _ _. kept.batch env input w.memory h.0) h
  step-keeps env (commits_batch batch_id transaction) w hex proper v h =
      unfold mark_batch_committed in
      commit_found-keeps env batch_id transaction (find (has_batch_id batch_id) w.memory.batches) w
        h
  step-keeps env (burns now) w hex proper v h =
      unfold burn_expired in burn_batches-keeps env (expired_batch_ids cfg now w.memory) w h

  pub run-keeps :
      (calls : List (Env × Call)) (w : World)
      → IsHexDigest cfg
      → AllProper cfg calls
      → IsSound w
      → Both w
      → Both (run cfg calls w)
  unfolding run
  run-keeps [] w hex proper v h = h
  run-keeps ((env, call) ∷ calls) w hex (p, ps) v h =
      run-keeps calls (step cfg env call w) hex ps (step-IsSound cfg env call w hex p v)
        (step-keeps env call w hex p v h)
