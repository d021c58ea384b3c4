-- ===== src/Queue/Dispatch.antt =====
-- `dispatchLegs` and `recordDispatchError`: the legs of a window go out as one wave.
use px.Prelude.{
  ℕ, ◌+◌, String, Bool, true, false, not, ◌||◌, Option, none, some, List, [], ◌∷◌, find, leb,
  if◌then◌else◌,
}
use px.Prelude.Text.{str_eq}
use px.Prelude.Action.{Result, ok, err}
use px.Queue.State.{◌>>=◌, ◌>>◌, pure, throw, gets}
use px.Ledger.Payouts.{mark_payout_settled}
use px.Ledger.Reversals.{find_payout_transfer}
use px.Pending.State.{
  LegState, ChainStatus, PayoutMode, PendingPayoutLeg, PendingPayoutGroup, no_patch,
}
use px.Pending.Methods.{by_ref, has_index}
use px.Queue.State.{
  terminal_absent, RailError, settler_quarantined, settler_not_yet_final, rail_failed, OutboxHandle,
  DispatchOutcome, dispatched, finalized, failed, DispatchResult, Rail, binds, suppresses,
  group_not_found, leg_not_found, QueueEnv, QueueAction, in_the_ledger, ask, tell,
}
use px.Queue.Verdicts.{update, apply_verdict, when_some}
use px.Queue.Flush.{matches, is_none_left}

-- A candidate of a flush, and one that was claimed for the wave, with its generation since.
abbrev pub Candidate : Type 0
Candidate = PendingPayoutGroup × PendingPayoutLeg

abbrev pub Claimed : Type 0
Claimed = PendingPayoutGroup × PendingPayoutLeg × ℕ

abbrev pub kept_if : Bool → Claimed → List Claimed
kept_if true c = c ∷ []
kept_if false c = []

abbrev pub claim_matched :
    QueueEnv → Rail → PendingPayoutGroup → PendingPayoutLeg → Bool → QueueAction (List Claimed)
claim_matched env rail group leg false = do
  tell (suppresses leg.logical_id)
  update env group leg (record no_patch { state = some LegState.uncertain }) (some leg.gen)
  pure []
claim_matched env rail group leg true = do
  tell (binds leg.logical_id leg.payout_ref)
  claimed ←
      update env group leg
        (record no_patch { state = some LegState.broadcasting; attempts = some (leg.attempts + 1) })
        (some leg.gen)
  pure (kept_if claimed (group, leg, leg.gen + 1))

abbrev pub both : List Claimed → List Claimed → List Claimed
both [] cs = cs
both (b ∷ bs) cs = b ∷ both bs cs

-- The first loop: the legs that are claimed for the wave.
unfoldable pub claim_wave : QueueEnv → Rail → List Candidate → QueueAction (List Claimed)
claim_wave env rail [] = pure []
claim_wave env rail ((group, leg) ∷ candidates) = do
  s ← gets (λ w. w.ledger.memory)
  mine ←
      claim_matched env rail group leg
        (matches group leg (find_payout_transfer env.config leg.payout_ref s))
  rest ← claim_wave env rail candidates
  pure (both mine rest)

abbrev pub found_leg : Option PendingPayoutGroup → Option PendingPayoutLeg → QueueAction Candidate
found_leg none leg = throw group_not_found
found_leg (some group) none = throw leg_not_found
found_leg (some group) (some leg) = pure (group, leg)

abbrev pub leg_in : Option PendingPayoutGroup → ℕ → Option PendingPayoutLeg
leg_in none index = none
leg_in (some group) index = find (has_index index) group.legs

-- `requireLeg`
unfoldable pub require_leg : String → ℕ → QueueAction Candidate
require_leg group_ref index = do
  gs ← gets (λ w. w.pending.memory)
  found_leg (by_ref group_ref gs) (leg_in (by_ref group_ref gs) index)

abbrev pub names_finality : RailError → Bool
names_finality (rail_failed absence occupant) = absence || occupant
names_finality settler_quarantined = false
names_finality (settler_not_yet_final _) = false

abbrev pub absent_now : QueueEnv → PendingPayoutGroup → PendingPayoutLeg → Bool → QueueAction Bool
absent_now env group leg false = pure false
absent_now env group leg true = do
  (g, l) ← require_leg group.group_ref leg.index
  apply_verdict env g l terminal_absent false

-- `recordDispatchError`
unfoldable pub record_dispatch_error : QueueEnv → Rail → Claimed → RailError → QueueAction Bool
record_dispatch_error env rail (group, leg, gen) e = do
  let attempts = leg.attempts + 1
  outbox ← ask (λ n. rail.outbox_entries_by_ref n leg.payout_ref)
  let doubtful = not (is_none_left outbox) || leb env.max_attempts attempts
  update env group leg
      (record no_patch {
        state = some (if doubtful then LegState.uncertain else LegState.queued);
        attempts = some attempts;
      })
      (some gen)
  absent_now env group leg (names_finality e)

-- A quarantine that began with the wave: every leg goes back with its attempts.
unfoldable pub requeue_wave : QueueEnv → List Claimed → QueueAction Bool
requeue_wave env [] = pure true
requeue_wave env ((group, leg, gen) ∷ wave) = do
  update env group leg
      (record no_patch { state = some LegState.queued; attempts = some leg.attempts }) (some gen)
  requeue_wave env wave

abbrev pub own_handle : PendingPayoutLeg → List OutboxHandle → Option OutboxHandle
own_handle leg handles = find (λ h. str_eq h.logical_id leg.logical_id) handles

abbrev pub aborted_leg :
    QueueEnv → Rail → Claimed → RailError → Option OutboxHandle → QueueAction Bool
aborted_leg env rail c e none = record_dispatch_error env rail c e
aborted_leg env rail (group, leg, gen) e (some handle) =
    update env group leg
      (record no_patch {
        state = some LegState.broadcasting;
        mode = some (some PayoutMode.onchain);
        nonce = some (some handle.nonce);
      })
      (some gen)

-- Another error of the whole wave: a leg with an entry in the outbox stays in flight.
unfoldable pub abort_wave : QueueEnv → Rail → RailError → List Claimed → QueueAction Bool
abort_wave env rail e [] = pure true
abort_wave env rail e ((group, leg, gen) ∷ wave) = do
  handles ← ask (λ n. rail.outbox_entries_by_ref n leg.payout_ref)
  aborted_leg env rail (group, leg, gen) e (own_handle leg handles)
  abort_wave env rail e wave

abbrev pub outcome_of :
    QueueEnv → Rail → Claimed → Option RailError → Option DispatchOutcome → QueueAction Bool
outcome_of env rail c (some e) outcome = record_dispatch_error env rail c e
outcome_of env rail c none none = record_dispatch_error env rail c (rail_failed false false)
outcome_of env rail c none (some (failed e)) = record_dispatch_error env rail c e
outcome_of env rail (group, leg, gen) none (some (finalized nonce transaction)) = do
  in_the_ledger env (λ e. mark_payout_settled env.config e leg.payout_ref (some transaction))
  now ← ask env.now
  update env group leg
      (record no_patch {
        state = some LegState.settled;
        mode = some (some PayoutMode.onchain);
        nonce = some (some nonce);
        tx_id = some (some transaction);
        transaction_hash = some (some transaction);
        chain_status = some (some ChainStatus.finalized);
        terminal_at = some (some now);
      })
      (some gen)
outcome_of env rail (group, leg, gen) none (some (dispatched nonce transaction at)) =
    update env group leg
      (record no_patch {
        state = some LegState.broadcasting;
        mode = some (some PayoutMode.onchain);
        nonce = some (some nonce);
        tx_id = some (some transaction);
        broadcast_at = when_some at;
      })
      (some gen)

-- The last loop: what the dispatch answered for each leg.
unfoldable pub record_wave : QueueEnv → Rail → DispatchResult → List Claimed → QueueAction Bool
record_wave env rail result [] = pure true
record_wave env rail result ((group, leg, gen) ∷ wave) = do
  outcome_of env rail (group, leg, gen) (result.failures leg.logical_id)
      (result.outcomes leg.logical_id)
  record_wave env rail result wave

abbrev legs_of : List Claimed → List PendingPayoutLeg
legs_of [] = []
legs_of ((group, leg, gen) ∷ wave) = leg ∷ legs_of wave

abbrev pub wave_answered :
    QueueEnv → Rail → List Claimed → Result RailError DispatchResult → QueueAction Bool
wave_answered env rail wave (ok result) = record_wave env rail result wave
wave_answered env rail wave (err settler_quarantined) = requeue_wave env wave
wave_answered env rail wave (err e) = abort_wave env rail e wave

abbrev pub send_wave : QueueEnv → Rail → List Claimed → QueueAction Bool
send_wave env rail [] = pure false
send_wave env rail (c ∷ wave) = do
  answer ← ask (λ n. rail.dispatch_pool_payouts n (legs_of (c ∷ wave)))
  wave_answered env rail (c ∷ wave) answer

-- `dispatchLegs`
unfoldable pub dispatch_legs : QueueEnv → Rail → List Candidate → QueueAction Bool
dispatch_legs env rail candidates = do
  wave ← claim_wave env rail candidates
  send_wave env rail wave
