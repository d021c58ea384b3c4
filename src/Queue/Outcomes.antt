-- ===== src/Queue/Outcomes.antt =====
-- What a dispatch answers for its legs is recorded with the agreement kept.
use px.Prelude.{
  ℕ, ◌+◌, ◌≡◌, refl, sym, ◌∙◌, ap, Bool, true, false, not, ◌||◌, Option, none, some, List, [], ◌∷◌,
  leb, find, find-holds, ==_iff, if◌then◌else◌,
}
use px.Prelude.Text.{str_eq_iff}
use px.Prelude.Action.{Result, ok, err}
use px.Pending.State.{LegState, PendingPayoutLeg, PendingPayoutGroup, no_patch}
use px.Pending.Methods.{by_ref, has_ref, has_index}
use px.Pending.Grows.{leg_at}
use px.Queue.State.{
  terminal_absent, RailError, settler_quarantined, settler_not_yet_final, rail_failed, OutboxHandle,
  DispatchOutcome, dispatched, finalized, failed, DispatchResult, Rail, QueueEnv, ◌>>=◌, pure,
  throw, gets, ask,
}
use px.Queue.Verdicts.{update, apply_verdict}
use px.Queue.Flush.{is_none_left}
use px.Queue.Dispatch.{
  Candidate, Claimed, claim_wave, require_leg, names_finality, absent_now, record_dispatch_error,
  requeue_wave, own_handle, aborted_leg, abort_wave, outcome_of, record_wave, wave_answered,
  send_wave, dispatch_legs, found_leg, leg_in,
}
use px.Queue.Keeps.{Knowledge, Holds, Keeps, bind-Keeps, pure-Keeps, ask-Keeps, update-Keeps}
use px.Queue.Settles.{settle-Keeps}
use px.Queue.Blocks.{Picks, apply_verdict-Keeps}
use px.Queue.Waves.{AllPicked, WavePicked, bind_knowing-Keeps, claim_wave-Keeps, claim_wave-Returns}

module _ (env : QueueEnv) (K : Knowledge) where
  -- The leg that is there now pays out the reference that the knowledge names.
  found-Picks :
      (group g : PendingPayoutGroup) (leg l : PendingPayoutLeg) (gs : List PendingPayoutGroup)
      → Picks K group leg
      → K.Known gs
      → by_ref group.group_ref gs ≡ some g
      → find (has_index leg.index) g.legs ≡ some l
      → Picks K g l
  found-Picks group g leg l gs picks known e f later k =
      let (cur, at, ref) = picks gs known in
      let there : leg_at group.group_ref leg.index gs ≡ some l = rw (e, f) refl in
      let one : cur ≡ l = cc in
      let refs : l.payout_ref ≡ leg.payout_ref = ap (λ x. x.payout_ref) (sym one) ∙ ref in
      let groups =
        (str_eq_iff g.group_ref group.group_ref).0 (find-holds (has_ref group.group_ref) gs g e) in
      let indexes = (==_iff l.index leg.index).0 (find-holds (has_index leg.index) g.legs l f) in
      rw (groups, indexes, refs) (picks later k)

  absent_now-Keeps :
      (group : PendingPayoutGroup) (leg : PendingPayoutLeg) (b : Bool)
      → Picks K group leg
      → Keeps env K (absent_now env group leg b)
  unfolding Keeps ◌>>=◌ require_leg gets pure throw
  absent_now-Keeps group leg false picks w h = h
  absent_now-Keeps group leg true picks w h = go (by_ref group.group_ref w.pending.memory) refl
    where
      leg_there :
          (g : PendingPayoutGroup) (found : Option PendingPayoutLeg)
          → by_ref group.group_ref w.pending.memory ≡ some g
          → find (has_index leg.index) g.legs ≡ found
          → Holds env K
              ((found_leg (some g) found >>= λ c. apply_verdict env c.0 c.1 terminal_absent false)
                w).1
      leg_there g none e f = h
      leg_there g (some l) e f =
          apply_verdict-Keeps env K g l
            (found-Picks group g leg l w.pending.memory picks h.known e f) terminal_absent false
            (λ x. cc) w h

      go :
          (found : Option PendingPayoutGroup)
          → by_ref group.group_ref w.pending.memory ≡ found
          → Holds env K
              ((found_leg found (leg_in found leg.index) >>= λ c.
                  apply_verdict env c.0 c.1 terminal_absent false)
                w).1
      go none e = h
      go (some g) e = leg_there g (find (has_index leg.index) g.legs) e refl

  record_dispatch_error-Keeps :
      (rail : Rail) (group : PendingPayoutGroup) (leg : PendingPayoutLeg) (gen : ℕ) (e : RailError)
      → Picks K group leg
      → Keeps env K (record_dispatch_error env rail (group, leg, gen) e)
  unfolding record_dispatch_error
  record_dispatch_error-Keeps rail group leg gen e picks =
      bind-Keeps env K (ask (λ n. rail.outbox_entries_by_ref n leg.payout_ref)) _
        (ask-Keeps env K _)
        (λ outbox.
          bind-Keeps env K _ _
            (put_back (not (is_none_left outbox) || leb env.max_attempts (leg.attempts + 1)))
            (λ done. absent_now-Keeps group leg (names_finality e) picks))
    where
      put_back :
          (b : Bool)
          → Keeps env K (
              update env group leg
                (record no_patch {
                  state = some (if b then LegState.uncertain else LegState.queued);
                  attempts = some (leg.attempts + 1);
                })
                (some gen))
      put_back true =
          update-Keeps env K group.group_ref leg.index _ (some gen) (LegState.uncertain, refl, refl)
      put_back false =
          update-Keeps env K group.group_ref leg.index _ (some gen) (LegState.queued, refl, refl)

  requeue_wave-Keeps : (wave : List Claimed) → Keeps env K (requeue_wave env wave)
  unfolding requeue_wave
  requeue_wave-Keeps [] = pure-Keeps env K true
  requeue_wave-Keeps ((group, leg, gen) ∷ wave) =
      bind-Keeps env K _ _
        (update-Keeps env K group.group_ref leg.index _ (some gen) (LegState.queued, refl, refl))
        (λ a. requeue_wave-Keeps wave)

  aborted_leg-Keeps :
      (rail : Rail) (group : PendingPayoutGroup) (leg : PendingPayoutLeg) (gen : ℕ) (e : RailError)
      (found : Option OutboxHandle)
      → Picks K group leg
      → Keeps env K (aborted_leg env rail (group, leg, gen) e found)
  aborted_leg-Keeps rail group leg gen e none picks =
      record_dispatch_error-Keeps rail group leg gen e picks
  aborted_leg-Keeps rail group leg gen e (some entry) picks =
      update-Keeps env K group.group_ref leg.index _ (some gen) (LegState.broadcasting, refl, refl)

  abort_wave-Keeps :
      (rail : Rail) (e : RailError) (wave : List Claimed)
      → WavePicked env K wave
      → Keeps env K (abort_wave env rail e wave)
  unfolding abort_wave
  abort_wave-Keeps rail e [] h = pure-Keeps env K true
  abort_wave-Keeps rail e ((group, leg, gen) ∷ wave) (picks, rest) =
      bind-Keeps env K (ask (λ n. rail.outbox_entries_by_ref n leg.payout_ref)) _
        (ask-Keeps env K _)
        (λ handles.
          bind-Keeps env K _ _
            (aborted_leg-Keeps rail group leg gen e (own_handle leg handles) picks)
            (λ a. abort_wave-Keeps rail e wave rest))

  outcome_of-Keeps :
      (rail : Rail) (group : PendingPayoutGroup) (leg : PendingPayoutLeg) (gen : ℕ)
      (failure : Option RailError) (outcome : Option DispatchOutcome)
      → Picks K group leg
      → Keeps env K (outcome_of env rail (group, leg, gen) failure outcome)
  outcome_of-Keeps rail group leg gen (some e) outcome picks =
      record_dispatch_error-Keeps rail group leg gen e picks
  outcome_of-Keeps rail group leg gen none none picks =
      record_dispatch_error-Keeps rail group leg gen (rail_failed false false) picks
  outcome_of-Keeps rail group leg gen none (some (failed e)) picks =
      record_dispatch_error-Keeps rail group leg gen e picks
  outcome_of-Keeps rail group leg gen none (some (finalized nonce transaction)) picks =
      settle-Keeps env K group.group_ref leg.index leg.payout_ref (some transaction) _ (some gen)
        picks (λ n. (refl, refl))
  outcome_of-Keeps rail group leg gen none (some (dispatched nonce transaction at)) picks =
      update-Keeps env K group.group_ref leg.index _ (some gen) (LegState.broadcasting, refl, refl)

  record_wave-Keeps :
      (rail : Rail) (result : DispatchResult) (wave : List Claimed)
      → WavePicked env K wave
      → Keeps env K (record_wave env rail result wave)
  unfolding record_wave
  record_wave-Keeps rail result [] h = pure-Keeps env K true
  record_wave-Keeps rail result ((group, leg, gen) ∷ wave) (picks, rest) =
      bind-Keeps env K _ _
        (outcome_of-Keeps rail group leg gen (result.failures leg.logical_id)
          (result.outcomes leg.logical_id) picks)
        (λ a. record_wave-Keeps rail result wave rest)

  wave_answered-Keeps :
      (rail : Rail) (wave : List Claimed) (answer : Result RailError DispatchResult)
      → WavePicked env K wave
      → Keeps env K (wave_answered env rail wave answer)
  wave_answered-Keeps rail wave (ok result) h = record_wave-Keeps rail result wave h
  wave_answered-Keeps rail wave (err settler_quarantined) h = requeue_wave-Keeps wave
  wave_answered-Keeps rail wave (err (settler_not_yet_final transaction)) h =
      abort_wave-Keeps rail (settler_not_yet_final transaction) wave h
  wave_answered-Keeps rail wave (err (rail_failed a b)) h =
      abort_wave-Keeps rail (rail_failed a b) wave h

  send_wave-Keeps :
      (rail : Rail) (wave : List Claimed)
      → WavePicked env K wave
      → Keeps env K (send_wave env rail wave)
  send_wave-Keeps rail [] h = pure-Keeps env K false
  send_wave-Keeps rail (c ∷ wave) h =
      bind-Keeps env K _ _ (ask-Keeps env K _)
        (λ answer. wave_answered-Keeps rail (c ∷ wave) answer h)

  pub dispatch_legs-Keeps :
      (rail : Rail) (candidates : List Candidate)
      → AllPicked env K candidates
      → Keeps env K (dispatch_legs env rail candidates)
  unfolding dispatch_legs
  dispatch_legs-Keeps rail candidates h =
      bind_knowing-Keeps env K (WavePicked env K) (claim_wave env rail candidates)
        (send_wave env rail) (claim_wave-Keeps env K rail candidates)
        (claim_wave-Returns env K rail candidates h) (λ wave p. send_wave-Keeps rail wave p)
