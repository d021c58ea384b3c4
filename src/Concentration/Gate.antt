-- ===== src/Concentration/Gate.antt =====
-- `planWindowRelease`: the flush gate delays, and never refuses.
use px.Prelude.{
  ℕ, ◌+◌, String, Bool, true, false, not, ◌||◌, Option, none, some, List, [], ◌∷◌, ◌++◌, all, keep,
  leb, if◌then◌else◌,
}
use px.Concentration.Metric.{ConcentrationLeg, compute_k_eff, anonymity_by_lane}

pub record ConcentrationGroup : Type 0 where
  pub group_ref : String
  pub owner_ref : String
  pub created_at : ℕ
  pub max_hold_ms : ℕ
  pub legs : List ConcentrationLeg

pub record ReleaseDecision : Type 0 where
  pub window_k_eff : ℕ
  pub gated : Bool
  pub release_group_refs : List String
  pub held_group_refs : List String
  pub realized_k_eff : ℕ

pub record GateParams : Type 0 where
  pub k_eff_target : ℕ
  pub target_for_lane : Option (String → ℕ)
  pub now : ℕ

-- `groups.flatMap((group) => group.legs)`
abbrev pub window_legs : List ConcentrationGroup → List ConcentrationLeg
window_legs [] = []
window_legs (g ∷ gs) = g.legs ++ window_legs gs

abbrev pub group_refs : List ConcentrationGroup → List String
group_refs [] = []
group_refs (g ∷ gs) = g.group_ref ∷ group_refs gs

abbrev lanes_meet : (String → ℕ) → List ConcentrationLeg → Bool
lanes_meet target legs = all (λ e. leb (target e.0) e.1) (anonymity_by_lane legs)

abbrev meets : Option (String → ℕ) → ℕ → List ConcentrationLeg → Bool
meets none k_eff_target legs = leb k_eff_target (compute_k_eff legs)
meets (some target) k_eff_target legs = lanes_meet target legs

unfoldable pub meets_target : GateParams → List ConcentrationLeg → Bool
meets_target params legs = meets params.target_for_lane params.k_eff_target legs

-- `params.now - group.createdAt >= group.maxHoldMs`, without the subtraction.
abbrev pub is_overdue : ℕ → ConcentrationGroup → Bool
is_overdue now g = leb (g.created_at + g.max_hold_ms) now

abbrev pub is_waiting : ℕ → ConcentrationGroup → Bool
is_waiting now g = not (is_overdue now g)

abbrev pub is_empty : List ConcentrationLeg → Bool
is_empty [] = true
is_empty (_ ∷ _) = false

-- The target is met, or there is nothing to weigh: every group proceeds.
abbrev pub opened : List ConcentrationGroup → ReleaseDecision
opened groups = record {
  window_k_eff = compute_k_eff (window_legs groups);
  gated = false;
  release_group_refs = group_refs groups;
  held_group_refs = [];
  realized_k_eff = compute_k_eff (window_legs groups);
}

-- Otherwise only the groups past their own cap proceed.
abbrev pub gated : List ConcentrationGroup → GateParams → ReleaseDecision
gated groups params =
    let released = keep (is_overdue params.now) groups in
    record {
      window_k_eff = compute_k_eff (window_legs groups);
      gated = true;
      release_group_refs = group_refs released;
      held_group_refs = group_refs (keep (is_waiting params.now) groups);
      realized_k_eff = compute_k_eff (window_legs released);
    }

unfoldable pub plan_window_release : List ConcentrationGroup → GateParams → ReleaseDecision
plan_window_release groups params =
    let legs = window_legs groups in
    if is_empty legs || meets_target params legs then opened groups else gated groups params
