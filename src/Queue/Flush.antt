-- ===== src/Queue/Flush.antt =====
-- `flushLeg`: one queued leg goes to its rail, and is settled, left in flight, or put back.
use px.Prelude.{
  ℕ, ◌+◌, String, Bool, true, false, not, ◌&&◌, ◌||◌, Option, none, some, List, [], ◌∷◌, is_some,
  leb, if◌then◌else◌,
}
use px.Prelude.Int.{ℤ, eq_ℤ}
use px.Prelude.Text.{str_eq}
use px.Prelude.Action.{ok}
use px.Queue.State.{◌>>=◌, ◌>>◌, pure, throw, gets}
use px.Ledger.State.{LedgerTransfer, opt_str_eq}
use px.Ledger.Reversals.{find_payout_transfer}
use px.Pending.State.{LegState, PayoutMode, PendingPayoutLeg, PendingPayoutGroup, no_patch}
use px.Queue.State.{
  RailKind, evm, solana, included, terminal_absent, settler_quarantined, settler_not_yet_final,
  rail_failed, PreparedPayout, OutboxHandle, Rail, binds, suppresses, QueueError, in_rail,
  identity_omitted, QueueEnv, QueueAction, ask, ask_rail, tell, catch, group_asset_key,
}
use px.Queue.Verdicts.{update, settle_prepared, apply_verdict}

abbrev amount_is : Option ℤ → ℤ → Bool
amount_is none a = false
amount_is (some b) a = eq_ℤ b a

-- Whether the ledger's reservation is the one that the leg pays out.
abbrev pub matches : PendingPayoutGroup → PendingPayoutLeg → Option LedgerTransfer → Bool
matches group leg none = false
matches group leg (some t) =
    str_eq t.asset (group_asset_key group)
    && opt_str_eq t.reversal_account_ref (some group.owner_tag)
    && amount_is t.reversal_amount_atomic leg.amount_atomic

abbrev pub is_solana : RailKind → Bool
is_solana evm = false
is_solana solana = true

abbrev pub is_none_left : List OutboxHandle → Bool
is_none_left [] = true
is_none_left (_ ∷ _) = false

-- Whether the text of an error names a terminal absence.
abbrev pub names_absence : QueueError → Bool
names_absence (in_rail (rail_failed absence occupant)) = absence
names_absence _ = false

abbrev pub set_state :
    LegState → ℕ → QueueEnv → PendingPayoutGroup → PendingPayoutLeg → QueueAction Bool
set_state state attempts env group leg =
    update env group leg (record no_patch { state = some state; attempts = some attempts }) none

abbrev pub absent_after : QueueEnv → PendingPayoutGroup → PendingPayoutLeg → Bool → QueueAction Bool
absent_after env group leg true = apply_verdict env group leg terminal_absent false
absent_after env group leg false = pure false

-- The rest of the handler: the leg is uncertain when its bytes may be out, or after enough attempts,
-- and goes back to the queue otherwise.
abbrev pub flush_failed :
    QueueEnv → Rail → PendingPayoutGroup → PendingPayoutLeg → QueueError → QueueAction Bool
flush_failed env rail group leg e = do
  outbox ← ask (λ n. rail.outbox_entries_by_ref n leg.payout_ref)
  let attempts = leg.attempts + 1
  let doubtful = not (is_none_left outbox) || is_solana rail.kind || leb env.max_attempts attempts
  set_state (if doubtful then LegState.uncertain else LegState.queued) attempts env group leg
  absent_after env group leg (names_absence e)

-- A quarantine is no attempt; a transfer that is not yet final stays in flight.
abbrev pub flush_caught :
    QueueEnv → Rail → PendingPayoutGroup → PendingPayoutLeg → QueueError → QueueAction Bool
flush_caught env rail group leg (in_rail settler_quarantined) =
    set_state LegState.queued leg.attempts env group leg
flush_caught env rail group leg (in_rail (settler_not_yet_final transaction)) =
    apply_verdict env group leg (included transaction) false
flush_caught env rail group leg e = flush_failed env rail group leg e

abbrev pub submit_evm : QueueEnv → Rail → PendingPayoutGroup → PendingPayoutLeg → QueueAction Bool
submit_evm env rail group leg = do
  prepared ← ask_rail (λ n. rail.submit_pool_payout n leg)
  settle_prepared env group leg prepared

-- `try { m } catch { }`
unfoldable pub attempt : {A : Type 0} → QueueAction A → QueueAction (Unit {0})
attempt m w = let (r, w') = m w in (ok tt, w')

abbrev pub text_there : Option String → Bool
text_there none = false
text_there (some s) = not (str_eq s "")

abbrev pub is_dry_run : PayoutMode → Bool
is_dry_run PayoutMode.dry_run = true
is_dry_run PayoutMode.onchain = false

-- The identity is written before the broadcast, whose own failure is ambiguous and ignored.
abbrev pub broadcast_prepared :
    QueueEnv → Rail → PendingPayoutGroup → PendingPayoutLeg → PreparedPayout → QueueAction Bool
broadcast_prepared env rail group leg prepared = do
  update env group leg
      (record no_patch {
        state = some LegState.broadcasting;
        mode = some (some PayoutMode.onchain);
        signed_tx = some prepared.signed_tx;
        tx_id = some prepared.tx_id;
        last_valid_block_height = some prepared.last_valid_block_height;
        context_slot = some prepared.context_slot;
      })
      none
  attempt (ask_rail (λ n. rail.broadcast_pool_payout n prepared))
  verdict ← ask_rail (λ n. rail.pool_payout_status n prepared)
  apply_verdict env group leg verdict false

abbrev pub has_identity : Option String → Option String → Option ℕ → Bool
has_identity signed_tx tx_id height = text_there signed_tx && text_there tx_id && is_some height

abbrev pub prepared_solana :
    QueueEnv → Rail → PendingPayoutGroup → PendingPayoutLeg → PreparedPayout → QueueAction Bool
prepared_solana env rail group leg prepared =
    if is_dry_run prepared.mode
    then settle_prepared env group leg prepared
    else if has_identity prepared.signed_tx prepared.tx_id prepared.last_valid_block_height
    then broadcast_prepared env rail group leg prepared
    else throw identity_omitted

abbrev pub submit_solana :
    QueueEnv → Rail → PendingPayoutGroup → PendingPayoutLeg → QueueAction Bool
submit_solana env rail group leg = do
  prepared ← ask_rail (λ n. rail.prepare_pool_payout n leg)
  prepared_solana env rail group leg prepared

abbrev pub submit_by :
    RailKind → QueueEnv → Rail → PendingPayoutGroup → PendingPayoutLeg → QueueAction Bool
submit_by evm = submit_evm
submit_by solana = submit_solana

abbrev pub flush_ready :
    QueueEnv → Rail → PendingPayoutGroup → PendingPayoutLeg → Bool → QueueAction Bool
flush_ready env rail group leg true = pure false
flush_ready env rail group leg false = do
  set_state LegState.broadcasting (leg.attempts + 1) env group leg
  catch (submit_by rail.kind env rail group leg) (flush_caught env rail group leg)

abbrev pub flush_matched :
    QueueEnv → Rail → PendingPayoutGroup → PendingPayoutLeg → Bool → QueueAction Bool
flush_matched env rail group leg false = do
  tell (suppresses leg.logical_id)
  update env group leg (record no_patch { state = some LegState.uncertain }) none
flush_matched env rail group leg true = do
  tell (binds leg.logical_id leg.payout_ref)
  parked ← ask rail.quarantined
  flush_ready env rail group leg parked

-- `flushLeg`
unfoldable pub flush_leg :
    QueueEnv → Rail → PendingPayoutGroup → PendingPayoutLeg → QueueAction Bool
flush_leg env rail group leg = do
  s ← gets (λ w. w.ledger.memory)
  flush_matched env rail group leg
      (matches group leg (find_payout_transfer env.config leg.payout_ref s))
