-- ===== src/Queue/Reconcile.antt =====
-- `reconcileNetwork`, leg by leg: what the chain says of the legs that are in flight.
use px.Prelude.{
  ℕ, Bool, true, false, ◌==◌, Option, none, some, List, [], ◌∷◌, or_else, leb, if◌then◌else◌,
}
use px.Queue.State.{◌>>=◌, ◌>>◌, pure, gets}
use px.Ledger.State.{LedgerTransfer}
use px.Ledger.Reversals.{find_payout_transfer}
use px.Pending.State.{
  LegState, PayoutMode, PendingPayoutLeg, PendingPayoutGroup, LegPatch, no_patch,
}
use px.Pending.Methods.{leg_tag}
use px.Queue.State.{
  evm, solana, RailKind, PreparedPayout, OutboxHandle, Rail, QueueEnv, QueueAction, ask, ask_rail,
}
use px.Queue.Verdicts.{is_terminal_leg, update, apply_verdict, expected, derive_group_state}
use px.Queue.Flush.{attempt, has_identity}
use px.Queue.Dispatch.{own_handle}

abbrev pub is_queued_state : LegState → Bool
is_queued_state s = leg_tag s == 0

abbrev pub requeue :
    QueueEnv → PendingPayoutGroup → PendingPayoutLeg → Bool → LegPatch → QueueAction Bool
requeue env group leg recovery_write patch =
    if is_queued_state leg.state
    then pure false
    else update env group leg patch (expected recovery_write leg)

abbrev pub unsigned_again : LegPatch
unsigned_again = record no_patch {
  state = some LegState.queued;
  signed_tx = some none;
  tx_id = some none;
  nonce = some none;
}

-- A leg that never got an entry of its own goes back to the queue; otherwise the entry's verdict
-- decides, and the rail maintains the entry.
abbrev pub reconcile_entry :
    QueueEnv
    → Rail
    → PendingPayoutGroup
    → PendingPayoutLeg
    → Bool
    → Option OutboxHandle
    → QueueAction Bool
reconcile_entry env rail group leg recovery_write none =
    requeue env group leg recovery_write unsigned_again
reconcile_entry env rail group leg recovery_write (some handle) = do
  verdict ← ask_rail (λ n. rail.classify_by_logical_id n handle)
  apply_verdict env group (record leg { nonce = some handle.nonce }) verdict recovery_write
  ask_rail (λ n. rail.maintain_pool_payout n leg verdict)
  pure true

-- `preparedFromLeg`
abbrev pub prepared_from_leg : PendingPayoutLeg → PreparedPayout
prepared_from_leg leg = record {
  mode = or_else leg.mode PayoutMode.onchain;
  signed_tx = leg.signed_tx;
  tx_id = leg.tx_id;
  nonce = leg.nonce;
  last_valid_block_height = leg.last_valid_block_height;
  context_slot = leg.context_slot;
}

abbrev pub at_most : Option ℕ → Option ℕ → Bool
at_most (some height) (some last) = leb height last
at_most (some height) none = false
at_most none last = false

abbrev pub rebroadcast : Rail → PreparedPayout → Bool → QueueAction (Unit {0})
rebroadcast rail prepared false = pure tt
rebroadcast rail prepared true = attempt (ask_rail (λ n. rail.broadcast_pool_payout n prepared))

abbrev pub reconcile_signed :
    QueueEnv → Rail → PendingPayoutGroup → PendingPayoutLeg → Bool → QueueAction Bool
reconcile_signed env rail group leg recovery_write = do
  let prepared = prepared_from_leg leg
  height ← ask_rail rail.finalized_block_height
  rebroadcast rail prepared (at_most height leg.last_valid_block_height)
  verdict ← ask_rail (λ n. rail.pool_payout_status n prepared)
  apply_verdict env group leg verdict recovery_write

abbrev pub reconcile_by :
    RailKind → QueueEnv → Rail → PendingPayoutGroup → PendingPayoutLeg → Bool → QueueAction Bool
reconcile_by evm env rail group leg recovery_write = do
  handles ← ask (λ n. rail.outbox_entries_by_ref n leg.payout_ref)
  reconcile_entry env rail group leg recovery_write (own_handle leg handles)
reconcile_by solana env rail group leg recovery_write =
    if has_identity leg.signed_tx leg.tx_id leg.last_valid_block_height
    then reconcile_signed env rail group leg recovery_write
    else requeue env group leg recovery_write (record no_patch { state = some LegState.queued })

abbrev pub reconcile_found :
    QueueEnv
    → Rail
    → PendingPayoutGroup
    → PendingPayoutLeg
    → Bool
    → Option LedgerTransfer
    → QueueAction Bool
reconcile_found env rail group leg recovery_write none = pure false
reconcile_found env rail group leg recovery_write (some t) =
    reconcile_by rail.kind env rail group leg recovery_write

-- The body of the inner loop of `reconcileNetwork`.
unfoldable pub reconcile_leg :
    QueueEnv → Rail → PendingPayoutGroup → PendingPayoutLeg → Bool → QueueAction Bool
reconcile_leg env rail group leg recovery_write = do
  s ← gets (λ w. w.ledger.memory)
  if is_terminal_leg leg.state
      then pure false
      else reconcile_found env rail group leg recovery_write
          (find_payout_transfer env.config leg.payout_ref s)

unfoldable pub reconcile_legs :
    QueueEnv → Rail → PendingPayoutGroup → List PendingPayoutLeg → Bool → QueueAction (Unit {0})
reconcile_legs env rail group [] recovery_write = pure tt
reconcile_legs env rail group (leg ∷ legs) recovery_write = do
  reconcile_leg env rail group leg recovery_write
  reconcile_legs env rail group legs recovery_write

-- The loop over the groups of the network as they were listed; `settleCohorts`, which follows it, is
-- not part of it.
unfoldable pub reconcile_groups :
    QueueEnv → Rail → List PendingPayoutGroup → Bool → QueueAction (Unit {0})
reconcile_groups env rail [] recovery_write = pure tt
reconcile_groups env rail (g ∷ gs) recovery_write = do
  reconcile_legs env rail g g.legs recovery_write
  derive_group_state env g.group_ref
  reconcile_groups env rail gs recovery_write
