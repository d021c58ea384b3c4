-- ===== src/Queue/Blocks.antt =====
-- Verdicts and flushes keep the agreement.
use px.Prelude.{
  ℕ, ◌+◌, String, ◌≡◌, refl, Bool, true, false, not, ◌||◌, Option, none, some, List, leb,
  if◌then◌else◌,
}
use px.Pending.State.{LegState, PendingPayoutLeg, PendingPayoutGroup, LegPatch}
use px.Pending.Grows.{Named}
use px.Ledger.Reversals.{find_payout_transfer}
use px.Queue.State.{
  evm, solana, RailKind, Verdict, landed, included, pending, terminal_absent, uncertain,
  settler_quarantined, settler_not_yet_final, PreparedPayout, Rail, binds, suppresses, QueueError,
  in_rail, identity_omitted, QueueEnv, QueueAction, gets, ask, ask_rail,
}
use px.Queue.Verdicts.{
  update, settle_prepared, settle_landed, fail_absent, claim_leg, if_claimed, with_claim, expected,
  already_included, has_stale_evidence, apply_verdict, is_terminal_leg,
}
use px.Queue.Flush.{
  matches, is_none_left, is_solana, names_absence, set_state, absent_after, flush_failed,
  flush_caught, has_identity, is_dry_run, broadcast_prepared, submit_by, flush_ready, flush_matched,
  flush_leg,
}
use px.Queue.Keeps.{
  Knowledge, Keeps, bind-Keeps, pure-Keeps, throw-Keeps, gets-Keeps, ask-Keeps, ask_rail-Keeps,
  tell-Keeps, catch-Keeps, attempt-Keeps, if-Keeps, update-Keeps,
}
use px.Queue.Settles.{settle-Keeps, reverse-Keeps}

-- The knowledge names the leg, by the reference that it pays out.
abbrev pub Picks : Knowledge → PendingPayoutGroup → PendingPayoutLeg → Type 0
Picks K group leg =
    (gs : List PendingPayoutGroup) → K.Known gs → Named group.group_ref leg.index leg.payout_ref gs

module _ (env : QueueEnv) (K : Knowledge) (group : PendingPayoutGroup) (leg : PendingPayoutLeg)
    (picks : Picks K group leg) where
  quiet_update-Keeps :
      (patch : LegPatch) (state : LegState) (gen : Option ℕ)
      → patch.state ≡ some state
      → is_terminal_leg state ≡ false
      → Keeps env K (update env group leg patch gen)
  quiet_update-Keeps patch state gen e h =
      update-Keeps env K group.group_ref leg.index patch gen (state, e, h)

  pub settle_prepared-Keeps :
      (prepared : PreparedPayout) → Keeps env K (settle_prepared env group leg prepared)
  unfolding settle_prepared
  settle_prepared-Keeps prepared =
      settle-Keeps env K group.group_ref leg.index leg.payout_ref prepared.tx_id _ none picks
        (λ n. (refl, refl))

  settle_landed-Keeps :
      (transaction : String) (block gen : Option ℕ)
      → Keeps env K (settle_landed env group leg transaction block gen)
  settle_landed-Keeps transaction block gen =
      settle-Keeps env K group.group_ref leg.index leg.payout_ref (some transaction) _ gen picks
        (λ n. (refl, refl))

  fail_absent-Keeps : (gen : Option ℕ) → Keeps env K (fail_absent env group leg gen)
  fail_absent-Keeps gen =
      reverse-Keeps env K group.group_ref leg.index leg.payout_ref _ gen picks (λ n. (refl, refl))

  -- A claim is made on a leg that is not terminal.
  with_claim-Keeps :
      (expect_gen : Bool) (act : Option ℕ → QueueAction Bool)
      → (expect_gen ≡ true → is_terminal_leg leg.state ≡ false)
      → ((gen : Option ℕ) → Keeps env K (act gen))
      → Keeps env K (with_claim env group leg expect_gen act)
  with_claim-Keeps false act open' keeps = keeps none
  with_claim-Keeps true act open' keeps =
      bind-Keeps env K (claim_leg env group leg) (if_claimed (act (some (leg.gen + 1))))
        (quiet_update-Keeps _ leg.state (some leg.gen) refl (open' refl)) go
    where
      go : (claimed : Bool) → Keeps env K (if_claimed (act (some (leg.gen + 1))) claimed)
      go true = keeps (some (leg.gen + 1))
      go false = pure-Keeps env K false

  pub apply_verdict-Keeps :
      (verdict : Verdict) (expect_gen : Bool)
      → (expect_gen ≡ true → is_terminal_leg leg.state ≡ false)
      → Keeps env K (apply_verdict env group leg verdict expect_gen)
  unfolding apply_verdict
  apply_verdict-Keeps (landed transaction block) expect_gen open' =
      with_claim-Keeps expect_gen (settle_landed env group leg transaction block) open'
        (settle_landed-Keeps transaction block)
  apply_verdict-Keeps terminal_absent expect_gen open' =
      with_claim-Keeps expect_gen (fail_absent env group leg) open' fail_absent-Keeps
  apply_verdict-Keeps (included transaction) expect_gen open' =
      if-Keeps env K (already_included leg transaction) _ _ (pure-Keeps env K false)
        (quiet_update-Keeps _ LegState.broadcasting (expected expect_gen leg) refl refl)
  apply_verdict-Keeps pending expect_gen open' =
      if-Keeps env K (has_stale_evidence leg) _ _
        (quiet_update-Keeps _ LegState.broadcasting (expected expect_gen leg) refl refl)
        (pure-Keeps env K false)
  apply_verdict-Keeps uncertain expect_gen open' =
      quiet_update-Keeps _ LegState.uncertain (expected expect_gen leg) refl refl

  unclaimed : (verdict : Verdict) → Keeps env K (apply_verdict env group leg verdict false)
  unclaimed verdict = apply_verdict-Keeps verdict false (λ e. cc)

  flush_failed-Keeps :
      (rail : Rail) (e : QueueError) → Keeps env K (flush_failed env rail group leg e)
  flush_failed-Keeps rail e =
      bind-Keeps env K (ask (λ n. rail.outbox_entries_by_ref n leg.payout_ref)) _
        (ask-Keeps env K _)
        (λ outbox.
          let doubtful =
            not (is_none_left outbox)
            || is_solana rail.kind
            || leb env.max_attempts (leg.attempts + 1) in
          bind-Keeps env K
            (set_state (if doubtful then LegState.uncertain else LegState.queued) (leg.attempts + 1)
              env group leg)
            _ (put_back doubtful) (λ done. absent (names_absence e)))
    where
      put_back :
          (b : Bool)
          → Keeps env K (
              set_state
                (if b then LegState.uncertain else LegState.queued)
                (leg.attempts + 1)
                env
                group
                leg)
      put_back true = quiet_update-Keeps _ LegState.uncertain none refl refl
      put_back false = quiet_update-Keeps _ LegState.queued none refl refl

      absent : (b : Bool) → Keeps env K (absent_after env group leg b)
      absent true = unclaimed terminal_absent
      absent false = pure-Keeps env K false

  flush_caught-Keeps :
      (rail : Rail) (e : QueueError) → Keeps env K (flush_caught env rail group leg e)
  flush_caught-Keeps rail (in_rail settler_quarantined) =
      quiet_update-Keeps _ LegState.queued none refl refl
  flush_caught-Keeps rail (in_rail (settler_not_yet_final transaction)) =
      unclaimed (included transaction)
  flush_caught-Keeps rail e = flush_failed-Keeps rail e

  broadcast_prepared-Keeps :
      (rail : Rail) (prepared : PreparedPayout)
      → Keeps env K (broadcast_prepared env rail group leg prepared)
  broadcast_prepared-Keeps rail prepared =
      bind-Keeps env K _ _ (quiet_update-Keeps _ LegState.broadcasting none refl refl) (λ a.
        bind-Keeps env K _ _ (attempt-Keeps env K _ (ask_rail-Keeps env K _))
          (λ b. bind-Keeps env K _ _ (ask_rail-Keeps env K _) (λ verdict. unclaimed verdict)))

  submit_by-Keeps :
      (kind : RailKind) (rail : Rail) → Keeps env K (submit_by kind env rail group leg)
  submit_by-Keeps evm rail =
      bind-Keeps env K (ask_rail (λ n. rail.submit_pool_payout n leg)) _ (ask_rail-Keeps env K _)
        settle_prepared-Keeps
  submit_by-Keeps solana rail =
      bind-Keeps env K (ask_rail (λ n. rail.prepare_pool_payout n leg)) _ (ask_rail-Keeps env K _)
        (λ prepared.
          if-Keeps env K (is_dry_run prepared.mode) _ _ (settle_prepared-Keeps prepared) (
            if-Keeps env K
              (has_identity prepared.signed_tx prepared.tx_id prepared.last_valid_block_height) _ _
              (broadcast_prepared-Keeps rail prepared) (throw-Keeps env K Bool identity_omitted)))

  flush_ready-Keeps :
      (rail : Rail) (parked : Bool) → Keeps env K (flush_ready env rail group leg parked)
  flush_ready-Keeps rail true = pure-Keeps env K false
  flush_ready-Keeps rail false =
      bind-Keeps env K _ _ (quiet_update-Keeps _ LegState.broadcasting none refl refl) (λ a.
        catch-Keeps env K (submit_by rail.kind env rail group leg) (flush_caught env rail group leg)
          (submit_by-Keeps rail.kind rail) (flush_caught-Keeps rail))

  flush_matched-Keeps : (rail : Rail) (b : Bool) → Keeps env K (flush_matched env rail group leg b)
  flush_matched-Keeps rail false =
      bind-Keeps env K _ _ (tell-Keeps env K (suppresses leg.logical_id))
        (λ a. quiet_update-Keeps _ LegState.uncertain none refl refl)
  flush_matched-Keeps rail true =
      bind-Keeps env K _ _ (tell-Keeps env K (binds leg.logical_id leg.payout_ref))
        (λ a. bind-Keeps env K _ _ (ask-Keeps env K rail.quarantined) (flush_ready-Keeps rail))

  pub flush_leg-Keeps : (rail : Rail) → Keeps env K (flush_leg env rail group leg)
  unfolding flush_leg
  flush_leg-Keeps rail = bind-Keeps env K (gets (λ w. w.ledger.memory)) _ (gets-Keeps env K _) (λ s.
      flush_matched-Keeps rail
        (matches group leg (find_payout_transfer env.config leg.payout_ref s)))
