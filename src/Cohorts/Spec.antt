-- ===== src/Cohorts/Spec.antt =====
-- What the book promises: a map from the ids of cohorts to their records.
use px.Prelude.Action.{Write, write_done, write_failed}
use px.Prelude.{ℕ, String, Bool, false, Option, none, some, List, [], ◌∷◌, if◌then◌else◌, leb}
use px.Prelude.Text.{str_eq}
use px.Cohorts.Book.{
  CohortRecord, CohortMember, Spread, CohortCall, puts_cohort, resolves, prunes_cohorts,
}

abbrev pub CohortMap : Type 0
CohortMap = String → Option CohortRecord

abbrev pub if_members : List CohortMember → CohortRecord → Option CohortRecord
if_members [] c = none
if_members (m ∷ ms) c = some c

-- A new id with members is recorded; nothing else is.
abbrev pub recorded : CohortRecord → Option CohortRecord → Option CohortRecord
recorded c (some old) = some old
recorded c none = if_members c.members c

-- What was measured replaces what is there.
abbrev pub measured : {A : Type 0} → Option A → Option A → Option A
measured (some new) old = some new
measured none old = old

-- The record of a cohort that is over: what it achieved, and when, with all else as recorded.
abbrev pub closed : ℕ → ℕ → Spread → CohortRecord → CohortRecord
closed k_eff at spread c = record {
  cohort_id = c.cohort_id;
  network = c.network;
  kind = c.kind;
  target_k = c.target_k;
  planned_k_eff = c.planned_k_eff;
  created_at = c.created_at;
  members = c.members;
  realized_k_eff = some k_eff;
  terminal_at = some at;
  landing_spread = measured spread.landing_spread c.landing_spread;
  broadcast_spread_ms = measured spread.broadcast_spread_ms c.broadcast_spread_ms;
}

abbrev pub close_unless : Option ℕ → Write → ℕ → ℕ → Spread → CohortRecord → CohortRecord
close_unless (some known) written k_eff at spread c = c
close_unless none write_done k_eff at spread c = closed k_eff at spread c
close_unless none (write_failed replaced) k_eff at spread c = c

-- A cohort without a result is closed, by a write that succeeds; one that has a result never
-- changes.
abbrev pub settled_once : Write → ℕ → ℕ → Spread → Option CohortRecord → Option CohortRecord
settled_once written k_eff at spread none = none
settled_once written k_eff at spread (some c) =
    some (close_unless c.realized_k_eff written k_eff at spread c)

-- The end of a cohort lies at the horizon or before.
abbrev pub is_over : ℕ → Option ℕ → Bool
is_over horizon none = false
is_over horizon (some at) = leb at horizon

-- A cohort goes once it ended long enough ago, and never before.
abbrev pub unless_past : ℕ → Option CohortRecord → Option CohortRecord
unless_past horizon none = none
unless_past horizon (some c) = if is_over horizon c.terminal_at then none else some c

abbrev pub spec_step : Write → CohortCall → CohortMap → CohortMap
spec_step written (puts_cohort c) m j = if str_eq c.cohort_id j then recorded c (m j) else m j
spec_step written (resolves cohort_id k_eff at spread) m j =
    if str_eq cohort_id j then settled_once written k_eff at spread (m j) else m j
spec_step written (prunes_cohorts horizon) m j = unless_past horizon (m j)

abbrev pub spec_run : List (Write × CohortCall) → CohortMap → CohortMap
spec_run [] m = m
spec_run ((written, call) ∷ calls) m = spec_run calls (spec_step written call m)
