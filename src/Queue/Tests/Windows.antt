-- ===== src/Queue/Tests/Windows.antt =====
-- A window of one exact leg and of one standard amount, and the cohorts that it leaves behind.
use px.Prelude.{
  String, ◌≡◌, ◌≤◌, refl, Bool, true, not, ◌&&◌, ◌||◌, ◌==◌, none, some, List, [], ◌∷◌, all, any,
  is_some, leb, length,
}
use px.Prelude.Dict.{lookup, insert}
use px.Prelude.Action.{ok}
use px.Concentration.Metric.{
  owners_by_lane, leg_anonymity, anonymity_by_leg, anonymity_by_lane, lane_key_for, minimum_of,
  compute_k_eff,
}
use px.Concentration.Gate.{meets_target, plan_window_release}
use px.Concentration.Owners.{no_repeats}
use px.Pending.State.{LegState, PendingPayoutGroup}
use px.Pending.Methods.{group_tag}
use px.Pending.Marks.{mark_evidence_counted}
use px.Cohorts.Book.{CohortKind, CohortMember, CohortRecord, put_cohort}
use px.Queue.State.{in_the_journal, in_the_book, ask, catch, ◌>>=◌, pure, throw, gets}
use px.Queue.Verdicts.{is_terminal_leg, is_state, derived_state, is_final_group}
use px.Queue.Dispatch.{Candidate}
use px.Queue.Cohorts.{set_cohort, plan_cohort, tally, realized}
use px.Queue.Claims.{Concentration, weakest, concentration_for}
use px.Queue.Cover.{
  has_leg_in, holds_for, holds_of, realized_to, is_resolved, concentration_for-weakest,
  concentration_for-told,
}
use px.Queue.Groups.{derived_state-says}
use px.Queue.Realized.{settled_for, realized-is_covered}
use px.Queue.Shuffle.{count, shuffle_from}
use px.Queue.Samples.{
  effective_k_eff_target, record_concurrency_sample, record_lanes, keep_samples,
  record_k_eff_sample,
}
use px.Queue.Gate.{views, rows, apply_concentration_gate}
use px.Queue.Due.{is_due}
use px.Queue.Released.{leaves, apply_concentration_gate-releases}
use px.Queue.Tests.{leg, group, start, sample_queue}

abbrev mixed : List LegState
mixed = LegState.settled ∷ LegState.failed ∷ []

derived_state-says_example :
    (is_final_group (derived_state mixed) ≡ all is_terminal_leg mixed)
    × ((group_tag (derived_state mixed) == 5) ≡ any (is_state 4) mixed)
    × ((group_tag (derived_state mixed) == 2) ≡ all (is_state 2) mixed)
derived_state-says_example = derived_state-says mixed

abbrev member : CohortMember
member = record {
  group_ref = "g";
  leg_index = 0;
  owner_ref = "acct_a";
  lane_key = some "base:0xa:5";
  held_ms = 3;
}

abbrev wide : CohortRecord
wide = record {
  cohort_id = "base:1";
  network = "base";
  kind = CohortKind.cohort;
  target_k = 2;
  planned_k_eff = 2;
  created_at = 0;
  members = member ∷ [];
  realized_k_eff = some 2;
  terminal_at = some 9;
  landing_spread = none;
  broadcast_spread_ms = some 4;
}

abbrev thin : CohortRecord
thin = record wide { cohort_id = "base:2"; realized_k_eff = some 1 }

abbrev told_cover : Concentration
told_cover = record {
  realized_k_eff = 1;
  held_ms = 3;
  landing_spread_blocks = none;
  broadcast_spread_ms = some 4;
}

told_thin : concentration_for "g" (wide ∷ thin ∷ []) ≡ some told_cover
unfolding weakest
told_thin = refl

concentration_for-weakest_example :
    (all (holds_for "g" (realized_to (leb 1))) (wide ∷ thin ∷ []) ≡ true)
    × (any (holds_of "g" (realized_to (λ n. 1 == n))) (wide ∷ thin ∷ []) ≡ true)
concentration_for-weakest_example =
    concentration_for-weakest "g" (wide ∷ thin ∷ []) told_cover told_thin

concentration_for-told_example : is_some (concentration_for "g" (wide ∷ thin ∷ [])) ≡ (
    any (has_leg_in "g") (wide ∷ thin ∷ []) && all (holds_for "g" is_resolved) (wide ∷ thin ∷ []))
concentration_for-told_example = concentration_for-told "g" (wide ∷ thin ∷ [])

abbrev settled_group : PendingPayoutGroup
settled_group = record group { legs = record leg { state = LegState.settled } ∷ [] }

realized-is_covered_example :
    (owners : List String) × (no_repeats owners ≡ true)
    × (realized (tally (settled_group ∷ []) (member ∷ [])) ≤ length owners)
    × (all (λ o. any (settled_for (settled_group ∷ []) o) (member ∷ [])) owners ≡ true)
realized-is_covered_example = realized-is_covered (settled_group ∷ []) (member ∷ [])

-- The second group pays a standard amount, and waits for a second account.
abbrev standard : Candidate
standard = (
  record group { group_ref = "h"; owner_tag = "acct_b" },
  record leg { denomination_atomic = some "5" },
)

abbrev window : List Candidate
window = (group, leg) ∷ standard ∷ []

only_exact : (apply_concentration_gate sample_queue "base" window start).0 ≡ ok ((group, leg) ∷ [])
unfolding apply_concentration_gate plan_cohort put_cohort set_cohort in_the_journal in_the_book ask
    catch ◌>>=◌ pure throw gets views rows mark_evidence_counted effective_k_eff_target record_lanes
    record_concurrency_sample keep_samples record_k_eff_sample shuffle_from owners_by_lane
    leg_anonymity anonymity_by_leg minimum_of compute_k_eff anonymity_by_lane lane_key_for
    meets_target plan_window_release lookup insert
only_exact = refl

apply_concentration_gate-releases_example :
    (refs : List String) × ((p : Candidate → Bool)
      → count p ((group, leg) ∷ []) ≡ count (λ c. p c && leaves refs c) window)
    × (all (λ c. not (is_due 100 0 c) || leaves refs c) window ≡ true)
apply_concentration_gate-releases_example =
    apply_concentration_gate-releases sample_queue "base" window start ((group, leg) ∷ []) refl
      only_exact
