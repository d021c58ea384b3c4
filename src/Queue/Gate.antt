-- ===== src/Queue/Gate.antt =====
-- `applyConcentrationGate`: which legs of a window leave now, and which wait for more cover.
use px.Prelude.{
  ℕ, min, max, String, Bool, true, false, not, Option, none, some, List, [], ◌∷◌, ◌++◌, any, keep,
  map, is_some, or_else, if◌then◌else◌,
}
use px.Prelude.Text.{str_eq}
use px.Prelude.Dict.{Dict, lookup, insert}
use px.Concentration.Metric.{ConcentrationLeg, lane_key_for, anonymity_by_lane}
use px.Concentration.Gate.{ConcentrationGroup, ReleaseDecision, window_legs, plan_window_release}
use px.Concentration.Target.{KEffSample}
use px.Pending.State.{PendingPayoutLeg, PendingPayoutGroup}
use px.Pending.Marks.{mark_evidence_counted}
use px.Cohorts.Book.{CohortKind}
use px.Queue.State.{◌>>=◌, ◌>>◌, pure, gets, catch, ask, QueueEnv, QueueAction, in_the_journal}
use px.Queue.Dispatch.{Candidate}
use px.Queue.Cohorts.{plan_cohort}
use px.Queue.Samples.{effective_k_eff_target, keep_samples, record_k_eff_sample}
use px.Queue.Shuffle.{shuffle_items}

-- A leg of no standard amount has no cover to wait for.
abbrev pub is_exact : Candidate → Bool
is_exact (group, leg) = not (is_some leg.denomination_atomic)

abbrev pub is_denominated : Candidate → Bool
is_denominated (group, leg) = is_some leg.denomination_atomic

-- The group's own cap, within that of the server.
abbrev pub hold_of : ℕ → Option ℕ → ℕ
hold_of ceiling none = ceiling
hold_of ceiling (some cap) = min cap ceiling

abbrev pub view_of : ℕ → PendingPayoutGroup → ConcentrationGroup
view_of ceiling group = record {
  group_ref = group.group_ref;
  owner_ref = group.owner_tag;
  created_at = group.created_at;
  max_hold_ms = hold_of ceiling group.max_hold_ms;
  legs = [];
}

abbrev pub view_leg : PendingPayoutGroup → PendingPayoutLeg → ConcentrationLeg
view_leg group leg = record {
  group_ref = group.group_ref;
  owner_ref = group.owner_tag;
  denomination_atomic = leg.denomination_atomic;
  lane_key = lane_key_for group.network group.asset leg.denomination_atomic;
}

abbrev pub with_leg : ConcentrationLeg → ConcentrationGroup → ConcentrationGroup
with_leg leg view = record view { legs = view.legs ++ leg ∷ [] }

-- The loop that fills `groups`.
unfoldable pub views : ℕ → List Candidate → Dict ConcentrationGroup → Dict ConcentrationGroup
views ceiling [] groups = groups
views ceiling ((group, leg) ∷ candidates) groups = views ceiling candidates (
    insert group.group_ref
      (with_leg (view_leg group leg)
        (or_else (lookup group.group_ref groups) (view_of ceiling group)))
      groups)

-- The same loop, where it fills `byRef`.
unfoldable pub rows : List Candidate → Dict PendingPayoutGroup → Dict PendingPayoutGroup
rows [] by_ref = by_ref
rows ((group, leg) ∷ candidates) by_ref = rows candidates (insert group.group_ref group by_ref)

abbrev pub is_uncounted : Option PendingPayoutGroup → Bool
is_uncounted none = true
is_uncounted (some group) = not (is_some group.evidence_counted_at)

abbrev pub fresh_refs : Dict ConcentrationGroup → Dict PendingPayoutGroup → List String
fresh_refs groups by_ref = keep (λ ref. is_uncounted (lookup ref by_ref)) (map (λ e. e.0) groups)

-- `Math.max(...laneTargets.values())`, and the static target when there is no lane.
abbrev pub greatest_target : ℕ → (String → ℕ) → Dict ℕ → ℕ
greatest_target static target [] = static
greatest_target static target ((lane, _) ∷ []) = target lane
greatest_target static target ((lane, _) ∷ (l ∷ lanes)) =
    max (target lane) (greatest_target static target (l ∷ lanes))

abbrev pub is_nothing : {A : Type 0} → List A → Bool
is_nothing [] = true
is_nothing (_ ∷ _) = false

abbrev pub in_refs : List String → Candidate → Bool
in_refs refs (group, leg) = any (str_eq group.group_ref) refs

abbrev pub leg_in_refs : List String → ConcentrationLeg → Bool
leg_in_refs refs leg = any (str_eq leg.group_ref) refs

abbrev pub count_marked :
    QueueEnv → ℕ → List ConcentrationLeg → List String → QueueAction (Unit {0})
count_marked env now legs [] = pure tt
count_marked env now legs (m ∷ marked) =
    keep_samples env.gate now (anonymity_by_lane (keep (leg_in_refs (m ∷ marked)) legs))

-- The evidence counts each group once; a marking that fails is passed over, and nothing is counted.
abbrev pub count_fresh : QueueEnv → ℕ → List ConcentrationLeg → List String → QueueAction (Unit {0})
count_fresh env now legs [] = pure tt
count_fresh env now legs (f ∷ fresh) = do
  marked ←
      catch (in_the_journal env (λ persists. mark_evidence_counted persists (f ∷ fresh) now))
        (λ e. pure [])
  count_marked env now legs marked

abbrev pub plan_some :
    QueueEnv → String → CohortKind → List Candidate → ℕ → ℕ → ℕ → QueueAction (Unit {0})
plan_some env network kind [] target_k planned_k_eff now = pure tt
plan_some env network kind (m ∷ members) target_k planned_k_eff now =
    plan_cohort env network kind (m ∷ members) target_k planned_k_eff now

abbrev pub sample_release : QueueEnv → ℕ → ReleaseDecision → QueueAction (Unit {0})
sample_release env now decision =
    if is_nothing decision.release_group_refs
    then pure tt
    else record_k_eff_sample env.gate now decision.realized_k_eff

-- `merge`
abbrev pub merged : QueueEnv → List Candidate → List Candidate → QueueAction (List Candidate)
merged env exact released = do draws ← ask env.draws; pure (shuffle_items draws (exact ++ released))

abbrev pub window_views : QueueEnv → List Candidate → List ConcentrationGroup
window_views env denominated = map (λ e. e.1) (views env.gate.max_hold_ms denominated [])

abbrev pub target_of : QueueEnv → ℕ → Dict (List KEffSample) → List Candidate → ℕ
target_of env now samples denominated =
    greatest_target env.gate.k_eff_target (effective_k_eff_target env.gate samples now)
      (anonymity_by_lane (window_legs (window_views env denominated)))

abbrev pub decision_of : QueueEnv → ℕ → Dict (List KEffSample) → List Candidate → ReleaseDecision
decision_of env now samples denominated =
    plan_window_release (window_views env denominated) (record {
      k_eff_target = target_of env now samples denominated;
      target_for_lane = some (effective_k_eff_target env.gate samples now);
      now = now;
    })

-- From the decision on.
abbrev pub release_by :
    QueueEnv
    → String
    → ℕ
    → ℕ
    → List Candidate
    → List Candidate
    → ReleaseDecision
    → QueueAction (List Candidate)
release_by env network now k_eff_target exact denominated decision = do
  let released = keep (in_refs decision.release_group_refs) denominated
  plan_some env network CohortKind.exact exact 1 1 now
  plan_some env network (if decision.gated then CohortKind.forced else CohortKind.cohort) released
      k_eff_target decision.realized_k_eff now
  sample_release env now decision
  merged env exact (if decision.gated then released else denominated)

abbrev pub gate_denominated :
    QueueEnv → String → ℕ → List Candidate → List Candidate → QueueAction (List Candidate)
gate_denominated env network now exact [] = do
  plan_some env network CohortKind.exact exact 1 1 now
  pure exact
gate_denominated env network now exact (d ∷ denominated) = do
  samples ← gets (λ w. w.samples)
  count_fresh env now (window_legs (window_views env (d ∷ denominated)))
      (fresh_refs (views env.gate.max_hold_ms (d ∷ denominated) []) (rows (d ∷ denominated) []))
  release_by env network now (target_of env now samples (d ∷ denominated)) exact (d ∷ denominated)
      (decision_of env now samples (d ∷ denominated))

-- `applyConcentrationGate`
unfoldable pub apply_concentration_gate :
    QueueEnv → String → List Candidate → QueueAction (List Candidate)
apply_concentration_gate env network candidates = do
  now ← ask env.now
  gate_denominated env network now (keep is_exact candidates) (keep is_denominated candidates)
