-- ===== src/Concentration/Tests.antt =====
-- The theorems on k_eff, the gate and the target at a sample window.
use px.Prelude.{
  ℕ, ◌≤◌, max, ◌⊎◌, String, ◌≡◌, refl, true, Option, none, some, List, [], ◌∷◌, ◌++◌, map, any, all,
  length, leb, ◌==◌, is_some, arith,
}
use mathlib.Core.List.{Perm}
use px.Prelude.Text.{str_eq}
use px.Concentration.Metric.{
  ConcentrationLeg, owners_by_lane, leg_anonymity, anonymity_by_leg, compute_k_eff,
}
use px.Concentration.Gate.{ConcentrationGroup, GateParams, plan_window_release}
use px.Concentration.Target.{
  AdaptiveTargetInput, observed, adaptive_k_eff_target, insert_ascending, ascending,
}
use px.Concentration.Owners.{no_repeats, owns_in_lane, leg_anonymity-counts_owners}
use px.Concentration.Least.{
  compute_k_eff-least, compute_k_eff-exact, regroup, compute_k_eff-regroup,
}
use px.Concentration.Release.{plan-keeps_groups, plan-releases_overdue}
use px.Concentration.Bounds.{shows, adaptive_k_eff_target-some, adaptive_k_eff_target-bounds}

abbrev leg_of : String → String → Option String → ConcentrationLeg
leg_of group owner lane = record {
  group_ref = group;
  owner_ref = owner;
  denomination_atomic = none;
  lane_key = lane;
}

abbrev alice_leg : ConcentrationLeg
alice_leg = leg_of "g1" "alice" (some "base:usdc:10")

abbrev window : List ConcentrationLeg
window =
    alice_leg
    ∷ leg_of "g2" "bob" (some "base:usdc:10")
    ∷ leg_of "g3" "alice" (some "base:usdc:10")
    ∷ []

abbrev exact_window : List ConcentrationLeg
exact_window = leg_of "g2" "bob" none ∷ []

leg_anonymity-counts_owners_example :
    (owners : List String) × (leg_anonymity (owners_by_lane window []) (some "base:usdc:10")
      ≡ length owners)
    × (no_repeats owners ≡ true)
    × ((o : String) → any (str_eq o) owners ≡ any (owns_in_lane "base:usdc:10" o) window)
leg_anonymity-counts_owners_example = leg_anonymity-counts_owners "base:usdc:10" window refl

compute_k_eff-least_example :
    (all
        (leb (compute_k_eff (alice_leg ∷ exact_window)))
        (anonymity_by_leg (alice_leg ∷ exact_window))
      ≡ true)
    × (any
          (◌==◌ (compute_k_eff (alice_leg ∷ exact_window)))
          (anonymity_by_leg (alice_leg ∷ exact_window))
        ≡ true)
compute_k_eff-least_example = compute_k_eff-least alice_leg exact_window

compute_k_eff-exact_example : compute_k_eff (alice_leg ∷ exact_window) ≡ 1
compute_k_eff-exact_example = compute_k_eff-exact alice_leg exact_window refl

compute_k_eff-regroup_example :
    compute_k_eff (map (regroup (λ leg. leg.owner_ref)) window) ≡ compute_k_eff window
compute_k_eff-regroup_example = compute_k_eff-regroup (λ leg. leg.owner_ref) window

abbrev group_of : String → ℕ → ConcentrationGroup
group_of ref created_at = record {
  group_ref = ref;
  owner_ref = "alice";
  created_at = created_at;
  max_hold_ms = 10;
  legs = window;
}

abbrev strict_gate : GateParams
strict_gate = record { k_eff_target = 5; target_for_lane = none; now = 20 }

plan-keeps_groups_example :
    Perm
      ((plan_window_release
          (group_of "g1" 5 ∷ group_of "g2" 15 ∷ [])
          strict_gate).release_group_refs
        ++ (plan_window_release
            (group_of "g1" 5 ∷ group_of "g2" 15 ∷ [])
            strict_gate).held_group_refs)
      ("g1" ∷ "g2" ∷ [])
plan-keeps_groups_example = plan-keeps_groups (group_of "g1" 5 ∷ group_of "g2" 15 ∷ []) strict_gate

plan-releases_overdue_example :
    any
      (str_eq "g1")
      (plan_window_release (group_of "g1" 5 ∷ group_of "g2" 15 ∷ []) strict_gate).release_group_refs
    ≡ true
plan-releases_overdue_example =
    plan-releases_overdue [] (group_of "g1" 5) (group_of "g2" 15 ∷ []) strict_gate (omega arith)

abbrev sample_target : AdaptiveTargetInput
sample_target = record {
  samples =
      record { at_ms = 90; k_eff = 4 }
      ∷ record { at_ms = 95; k_eff = 2 }
      ∷ record { at_ms = 99; k_eff = 3 }
      ∷ [];
  now_ms = 100;
  window_ms = 50;
  min_samples = 2;
  quantile_num = 1;
  quantile_den = 2;
  ceiling = 5;
}

adaptive_k_eff_target-some_example : is_some (adaptive_k_eff_target sample_target) ≡ true
adaptive_k_eff_target-some_example =
    adaptive_k_eff_target-some sample_target (omega arith) (omega arith)

sample_target_is_3 : adaptive_k_eff_target sample_target ≡ some 3
unfolding adaptive_k_eff_target observed ascending insert_ascending
sample_target_is_3 = refl

adaptive_k_eff_target-bounds_example :
    (1 ≤ 3) × (3 ≤ max 1 5) × ((3 ≤ 1) ⊎ (any (shows 100 50 3) sample_target.samples ≡ true))
adaptive_k_eff_target-bounds_example =
    adaptive_k_eff_target-bounds sample_target 3 sample_target_is_3
