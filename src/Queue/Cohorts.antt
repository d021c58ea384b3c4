-- ===== src/Queue/Cohorts.antt =====
-- `planCohort`, `settleCohorts`, `pruneCohorts` and `concentrationFor`: who leaves together, and what
-- cover the cohort has given once all have ended. The queue is given a book, as the server does
-- whenever the gate is on. A clock that runs back would make `heldMs` negative; it is 0 here.
use px.Prelude.{
  ℕ, ◌-◌, max, String, Bool, true, false, not, ◌||◌, ◌==◌, Option, none, some, List, [], ◌∷◌, map,
  keep, is_some, ltb, if◌then◌else◌,
}
use px.Prelude.Text.{str_eq, ◌<>◌}
use px.Prelude.Dict.{insert}
use px.Prelude.Action.{ok}
use px.Queue.State.{◌>>=◌, ◌>>◌, pure, gets}
use px.Concentration.Metric.{ConcentrationLeg, lane_key_for, compute_k_eff}
use px.Pending.State.{PendingPayoutLeg, PendingPayoutGroup}
use px.Pending.Methods.{by_ref, leg_tag}
use px.Cohorts.Book.{
  CohortKind, CohortMember, LandingSpread, CohortRecord, Spread, put_cohort, resolved,
  resolve_cohort, is_kept, prune_cohorts,
}
use px.Queue.State.{QueueEnv, QueueWorld, QueueAction, in_the_book, ask}
use px.Queue.Verdicts.{is_terminal_leg}
use px.Queue.Dispatch.{Candidate, leg_in}

-- `this.cohortsById.set(...)`
unfoldable pub set_cohort : CohortRecord → QueueAction (Unit {0})
set_cohort c w = (ok tt, record w { cohorts_by_id = insert c.cohort_id c w.cohorts_by_id })

abbrev pub member_of : ℕ → Candidate → CohortMember
member_of now (group, leg) = record {
  group_ref = group.group_ref;
  leg_index = leg.index;
  owner_ref = group.owner_tag;
  lane_key = lane_key_for group.network group.asset leg.denomination_atomic;
  held_ms = now - group.created_at;
}

abbrev pub planned_cohort : String → String → CohortKind → List Candidate → ℕ → ℕ → ℕ → CohortRecord
planned_cohort random_hex network kind members target_k planned_k_eff now = record {
  cohort_id = network <> ":" <> random_hex;
  network = network;
  kind = kind;
  target_k = target_k;
  planned_k_eff = planned_k_eff;
  created_at = now;
  members = map (member_of now) members;
  realized_k_eff = none;
  terminal_at = none;
  landing_spread = none;
  broadcast_spread_ms = none;
}

-- `planCohort`: the book first, then the working copy.
unfoldable pub plan_cohort :
    QueueEnv → String → CohortKind → List Candidate → ℕ → ℕ → ℕ → QueueAction (Unit {0})
plan_cohort env network kind members target_k planned_k_eff now = do
  random_hex ← ask env.random_hex
  let c = planned_cohort random_hex network kind members target_k planned_k_eff now
  in_the_book env (λ persists. put_cohort persists c)
  set_cohort c

-- What the loop over the members gathers: whether all have ended, and those that settled.
pub record Tally : Type 0 where
  pub all_terminal : Bool
  pub settled : List (CohortMember × PendingPayoutLeg)

abbrev pub tally_leg : CohortMember → Option PendingPayoutLeg → Tally → Tally
tally_leg member none t = record t { all_terminal = false }
tally_leg member (some leg) t =
    if not (is_terminal_leg leg.state)
    then record t { all_terminal = false }
    else if leg_tag leg.state == 2
    then record t { settled = (member, leg) ∷ t.settled }
    else t

unfoldable pub tally : List PendingPayoutGroup → List CohortMember → Tally
tally gs [] = record { all_terminal = true; settled = [] }
tally gs (m ∷ ms) = tally_leg m (leg_in (by_ref m.group_ref gs) m.leg_index) (tally gs ms)

abbrev pub cover_leg : CohortMember × PendingPayoutLeg → ConcentrationLeg
cover_leg (member, leg) = record {
  group_ref = member.group_ref;
  owner_ref = member.owner_ref;
  denomination_atomic = leg.denomination_atomic;
  lane_key = member.lane_key;
}

abbrev pub realized : Tally → ℕ
realized t = compute_k_eff (map cover_leg t.settled)

abbrev pub measured : Option ℕ → Option (List ℕ) → Option (List ℕ)
measured (some n) (some ns) = some (n ∷ ns)
measured (some n) none = none
measured none ns = none

-- The values of a measure, when every member has one.
unfoldable pub all_measured :
    (PendingPayoutLeg → Option ℕ) → List (CohortMember × PendingPayoutLeg) → Option (List ℕ)
all_measured f [] = some []
all_measured f ((_, leg) ∷ settled) = measured (f leg) (all_measured f settled)

-- `Math.min(...)` and `Math.max(...)`, of at least one value.
unfoldable pub least : ℕ → List ℕ → ℕ
least n [] = n
least n (m ∷ ms) = least (if ltb m n then m else n) ms

unfoldable pub greatest : ℕ → List ℕ → ℕ
greatest n [] = n
greatest n (m ∷ ms) = greatest (max n m) ms

-- The ends of the values, when there is a value and none is missing.
abbrev pub extent : Option (List ℕ) → Option (ℕ × ℕ)
extent none = none
extent (some []) = none
extent (some (n ∷ ns)) = some (least n ns, greatest n ns)

abbrev pub landing_of : Option (ℕ × ℕ) → Option LandingSpread
landing_of none = none
landing_of (some (low, high)) =
    some (record { min_block = low; max_block = high; spread_blocks = high - low })

abbrev pub width_of : Option (ℕ × ℕ) → Option ℕ
width_of none = none
width_of (some (low, high)) = some (high - low)

abbrev pub spread_of : Tally → Spread
spread_of t = record {
  landing_spread = landing_of (extent (all_measured (λ leg. leg.landed_block) t.settled));
  broadcast_spread_ms = width_of (extent (all_measured (λ leg. leg.broadcast_at) t.settled));
}

abbrev pub settle_tallied : QueueEnv → CohortRecord → Tally → Bool → QueueAction (Unit {0})
settle_tallied env c t false = pure tt
settle_tallied env c t true = do
  now ← ask env.now
  in_the_book env (λ persists. resolve_cohort persists c.cohort_id (realized t) now (spread_of t))
  set_cohort (resolved (realized t) now (spread_of t) c)

abbrev pub is_other : String → CohortRecord → Bool
is_other network c = not (str_eq c.network network) || is_some c.realized_k_eff

abbrev pub settle_open : QueueEnv → CohortRecord → Bool → QueueAction (Unit {0})
settle_open env c true = pure tt
settle_open env c false = do
  gs ← gets (λ w. w.pending.memory)
  settle_tallied env c (tally gs c.members) (tally gs c.members).all_terminal

-- The loop, over the cohorts as they were when it began.
unfoldable pub settle_each : QueueEnv → String → List CohortRecord → QueueAction (Unit {0})
settle_each env network [] = pure tt
settle_each env network (c ∷ cs) = do
  settle_open env c (is_other network c)
  settle_each env network cs

abbrev pub cohorts_of : QueueWorld → List CohortRecord
cohorts_of w = map (λ e. e.1) w.cohorts_by_id

-- `settleCohorts`
unfoldable pub settle_cohorts : QueueEnv → String → QueueAction (Unit {0})
settle_cohorts env network = do cs ← gets cohorts_of; settle_each env network cs

unfoldable pub forget_cohorts : ℕ → QueueAction (Unit {0})
forget_cohorts before w =
    (ok tt, record w { cohorts_by_id = keep (λ e. is_kept before e.1) w.cohorts_by_id })

-- `pruneCohorts`
unfoldable pub prune_queue_cohorts : QueueEnv → ℕ → QueueAction (Unit {0})
prune_queue_cohorts env before = do
  in_the_book env (λ persists. prune_cohorts persists before)
  forget_cohorts before
