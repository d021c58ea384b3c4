-- ===== src/Queue/Passes.antt =====
-- Reconcile passes and the operator's decisions keep the agreement.
use px.Prelude.{ℕ, ◌+◌, ◌≡◌, refl, inl, inr, Bool, true, false, Option, none, some, Bool-cases}
use px.Ledger.State.{LedgerTransfer}
use px.Ledger.Reversals.{find_payout_transfer}
use px.Pending.State.{LegState, PendingPayoutLeg, PendingPayoutGroup, LegPatch}
use px.Queue.State.{evm, solana, RailKind, PreparedPayout, OutboxHandle, Rail, QueueEnv, gets, ask}
use px.Queue.Verdicts.{is_terminal_leg, expected}
use px.Queue.Flush.{has_identity}
use px.Queue.Dispatch.{own_handle}
use px.Queue.Reconcile.{
  is_queued_state, requeue, unsigned_again, reconcile_entry, prepared_from_leg, at_most,
  rebroadcast, reconcile_by, reconcile_found, reconcile_leg,
}
use px.Queue.Resolve.{
  Disposition, landed_as, absent_by, resolved_settled, resolved_failed, superseded, decide,
  dispose_current,
}
use px.Queue.Keeps.{
  Knowledge, Keeps, bind-Keeps, pure-Keeps, gets-Keeps, ask-Keeps, ask_rail-Keeps, attempt-Keeps,
  if-Keeps, update-Keeps,
}
use px.Queue.Settles.{settle-Keeps, reverse-Keeps, derive_group_state-Keeps}
use px.Queue.Blocks.{Picks, apply_verdict-Keeps}

module _ (env : QueueEnv) (K : Knowledge) (group : PendingPayoutGroup) (leg : PendingPayoutLeg)
    (picks : Picks K group leg) where
  requeue-Keeps :
      (recovery_write : Bool) (patch : LegPatch)
      → patch.state ≡ some LegState.queued
      → Keeps env K (requeue env group leg recovery_write patch)
  requeue-Keeps recovery_write patch e =
      if-Keeps env K (is_queued_state leg.state) _ _ (pure-Keeps env K false) (
        update-Keeps env K group.group_ref leg.index patch (expected recovery_write leg)
          (LegState.queued, e, refl))

  reconcile_entry-Keeps :
      (rail : Rail) (recovery_write : Bool) (entry : Option OutboxHandle)
      → is_terminal_leg leg.state ≡ false
      → Keeps env K (reconcile_entry env rail group leg recovery_write entry)
  reconcile_entry-Keeps rail recovery_write none open' =
      requeue-Keeps recovery_write unsigned_again refl
  reconcile_entry-Keeps rail recovery_write (some entry) open' =
      bind-Keeps env K _ _ (ask_rail-Keeps env K _) (λ verdict.
        bind-Keeps env K _ _
          (apply_verdict-Keeps env K group (record leg { nonce = some entry.nonce }) picks verdict
            recovery_write (λ e. open'))
          (λ a. bind-Keeps env K _ _ (ask_rail-Keeps env K _) (λ b. pure-Keeps env K true)))

  rebroadcast-Keeps :
      (rail : Rail) (prepared : PreparedPayout) (b : Bool)
      → Keeps env K (rebroadcast rail prepared b)
  rebroadcast-Keeps rail prepared true = attempt-Keeps env K _ (ask_rail-Keeps env K _)
  rebroadcast-Keeps rail prepared false = pure-Keeps env K tt

  reconcile_by-Keeps :
      (kind : RailKind) (rail : Rail) (recovery_write : Bool)
      → is_terminal_leg leg.state ≡ false
      → Keeps env K (reconcile_by kind env rail group leg recovery_write)
  reconcile_by-Keeps evm rail recovery_write open' =
      bind-Keeps env K (ask (λ n. rail.outbox_entries_by_ref n leg.payout_ref)) _
        (ask-Keeps env K _)
        (λ handles. reconcile_entry-Keeps rail recovery_write (own_handle leg handles) open')
  reconcile_by-Keeps solana rail recovery_write open' =
      if-Keeps env K (has_identity leg.signed_tx leg.tx_id leg.last_valid_block_height) _ _
        (bind-Keeps env K _ _ (ask_rail-Keeps env K rail.finalized_block_height) (λ height.
          bind-Keeps env K _ _
            (rebroadcast-Keeps rail (prepared_from_leg leg)
              (at_most height leg.last_valid_block_height))
            (λ a. bind-Keeps env K _ _ (ask_rail-Keeps env K _) (λ verdict.
              apply_verdict-Keeps env K group leg picks verdict recovery_write (λ e. open')))))
        (requeue-Keeps recovery_write _ refl)

  pub reconcile_leg-Keeps :
      (rail : Rail) (recovery_write : Bool)
      → Keeps env K (reconcile_leg env rail group leg recovery_write)
  unfolding reconcile_leg
  reconcile_leg-Keeps rail recovery_write =
      bind-Keeps env K (gets (λ w. w.ledger.memory)) _ (gets-Keeps env K _) (λ s.
        elim (Bool-cases (is_terminal_leg leg.state)) [
          | inl done ↦ rw done (pure-Keeps env K false)
          | inr open' ↦ rw open' (go open' (find_payout_transfer env.config leg.payout_ref s))
        ])
    where
      go :
          is_terminal_leg leg.state ≡ false
          → (found : Option LedgerTransfer)
          → Keeps env K (reconcile_found env rail group leg recovery_write found)
      go open' none = pure-Keeps env K false
      go open' (some t) = reconcile_by-Keeps rail.kind rail recovery_write open'

  decide-Keeps :
      (gen : ℕ) (disposition : Disposition) (claimed : Bool)
      → Keeps env K (decide env group leg gen disposition claimed)
  decide-Keeps gen disposition false = pure-Keeps env K superseded
  decide-Keeps gen (landed_as signature) true =
      bind-Keeps env K _ _
        (settle-Keeps env K group.group_ref leg.index leg.payout_ref (some signature) _
          (some (gen + 1)) picks (λ n. (refl, refl)))
        (λ a.
          bind-Keeps env K _ _ (derive_group_state-Keeps env K group.group_ref)
            (λ b. pure-Keeps env K resolved_settled))
  decide-Keeps gen (absent_by attestation) true =
      bind-Keeps env K _ _
        (reverse-Keeps env K group.group_ref leg.index leg.payout_ref _ (some (gen + 1)) picks
          (λ n. (refl, refl)))
        (λ a.
          bind-Keeps env K _ _ (derive_group_state-Keeps env K group.group_ref)
            (λ b. pure-Keeps env K resolved_failed))

  pub dispose_current-Keeps :
      (gen : ℕ) (disposition : Disposition) (current : Bool)
      → Keeps env K (dispose_current env gen disposition group leg current)
  dispose_current-Keeps gen disposition false = pure-Keeps env K superseded
  dispose_current-Keeps gen disposition true =
      bind-Keeps env K _ _
        (update-Keeps env K group.group_ref leg.index _ (some gen) (LegState.uncertain, refl, refl))
        (decide-Keeps gen disposition)
