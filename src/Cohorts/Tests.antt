-- ===== src/Cohorts/Tests.antt =====
-- The book at sample calls.
use px.Prelude.Action.{Write, write_done, write_failed}
use px.Prelude.{◌≡◌, refl, true, false, none, some, List, [], ◌∷◌}
use px.Cohorts.Book.{
  CohortKind, CohortMember, CohortRecord, CohortWorld, CohortCall, puts_cohort, resolves,
  prunes_cohorts, cohort_run, cohort_step, put_cohort, resolve_cohort, prune_cohorts,
}
use px.Cohorts.Spec.{spec_run}
use px.Cohorts.Views.{view}
use px.Cohorts.Refines.{cohort_run-refines}

abbrev member : CohortMember
member = record {
  group_ref = "g";
  leg_index = 0;
  owner_ref = "acct_a";
  lane_key = none;
  held_ms = 3;
}

abbrev planned : CohortRecord
planned = record {
  cohort_id = "base:1";
  network = "base";
  kind = CohortKind.exact;
  target_k = 1;
  planned_k_eff = 1;
  created_at = 0;
  members = member ∷ [];
  realized_k_eff = none;
  terminal_at = none;
  landing_spread = none;
  broadcast_spread_ms = none;
}

abbrev empty_book : CohortWorld
empty_book = record { memory = []; disk = [] }

-- A write fails, a second resolution changes nothing, and what is resolved is pruned later.
abbrev book_calls : List (Write × CohortCall)
book_calls =
    (write_failed false, puts_cohort planned)
    ∷ (write_done, puts_cohort (record planned { cohort_id = "base:2" }))
    ∷ (
      write_done,
      resolves "base:1" 1 7 (record { landing_spread = none; broadcast_spread_ms = some 2 }),
    )
    ∷ (
      write_done,
      resolves "base:1" 5 9 (record { landing_spread = none; broadcast_spread_ms = none }),
    )
    ∷ (write_failed true, prunes_cohorts 7)
    ∷ []

cohort_run-refines_example :
    view (cohort_run book_calls empty_book).memory ≡ spec_run book_calls (view [])
cohort_run-refines_example = cohort_run-refines book_calls empty_book refl

open_one_left :
    (cohort_run book_calls empty_book).memory ≡ record planned { cohort_id = "base:2" } ∷ []
unfolding cohort_run cohort_step put_cohort resolve_cohort prune_cohorts
open_one_left = refl
