-- ===== src/Concentration/Release.antt =====
-- The gate keeps every group, and holds none past its own ceiling.
use mathlib.Core.List.{Perm, perm_middle, append-nil}
use mathlib.Core.List.Perm
use px.Prelude.{
  ℕ, ◌+◌, ◌≤◌, String, ◌≡◌, refl, inl, inr, Bool, true, false, ◌||◌, List, [], ◌∷◌, ◌++◌, any, keep,
  le→leb, Bool-cases, arith, if◌then◌else◌,
}
use px.Prelude.Text.{str_eq, str_eq_refl}
use px.Concentration.Gate.{
  ConcentrationGroup, GateParams, window_legs, group_refs, meets_target, is_overdue, is_waiting,
  is_empty, opened, gated, plan_window_release,
}

keep-refs-perm :
    (now : ℕ) (gs : List ConcentrationGroup)
    → Perm
        (group_refs (keep (is_overdue now) gs) ++ group_refs (keep (is_waiting now) gs))
        (group_refs gs)
keep-refs-perm now [] = Perm.nil
keep-refs-perm now (g ∷ gs) =
    let rest = Perm.cons g.group_ref (keep-refs-perm now gs) in
    elim (Bool-cases (is_overdue now g)) [
      | inl e ↦ rw e rest
      | inr e ↦ rw e (
          Perm.trans
            (perm_middle (group_refs (keep (is_overdue now) gs))
              (group_refs (keep (is_waiting now) gs)))
            rest)
    ]

-- Whatever the window, the released and the held groups together are the groups that were given.
pub plan-keeps_groups :
    (groups : List ConcentrationGroup) (params : GateParams)
    → Perm
        ((plan_window_release groups params).release_group_refs
          ++ (plan_window_release groups params).held_group_refs)
        (group_refs groups)
unfolding plan_window_release
plan-keeps_groups groups params =
    split (is_empty (window_legs groups) || meets_target params (window_legs groups))
  where
    all_of_it : Perm (group_refs groups ++ []) (group_refs groups)
    all_of_it = rw append-nil (Perm.refl (group_refs groups))

    split :
        (b : Bool)
        → Perm
            ((if b then opened groups else gated groups params).release_group_refs
              ++ (if b then opened groups else gated groups params).held_group_refs)
            (group_refs groups)
    split true = all_of_it
    split false = keep-refs-perm params.now groups

any-refs-append :
    (r : String) (xs ys : List ConcentrationGroup)
    → any (str_eq r) (group_refs (xs ++ ys))
      ≡ (any (str_eq r) (group_refs xs) || any (str_eq r) (group_refs ys))
any-refs-append r [] ys = refl
any-refs-append r (x ∷ xs) ys = ground (arith, any-refs-append r xs ys)

overdue-kept :
    (now : ℕ) (xs : List ConcentrationGroup) (g : ConcentrationGroup) (ys : List ConcentrationGroup)
    → is_overdue now g ≡ true
    → any (str_eq g.group_ref) (group_refs (keep (is_overdue now) (xs ++ g ∷ ys))) ≡ true
overdue-kept now [] g ys h = rw (h, str_eq_refl g.group_ref)
overdue-kept now (x ∷ xs) g ys h = ground (arith, overdue-kept now xs g ys h)

-- A group that has waited as long as it may is released, whatever the window's k_eff.
pub plan-releases_overdue :
    (xs : List ConcentrationGroup) (g : ConcentrationGroup) (ys : List ConcentrationGroup)
    (params : GateParams)
    → g.created_at + g.max_hold_ms ≤ params.now
    → any (str_eq g.group_ref) (plan_window_release (xs ++ g ∷ ys) params).release_group_refs ≡ true
unfolding plan_window_release
plan-releases_overdue xs g ys params h =
    let groups = xs ++ g ∷ ys in
    elim (Bool-cases (is_empty (window_legs groups) || meets_target params (window_legs groups))) [
      | inl e ↦
          rw e
            (rw (any-refs-append g.group_ref xs (g ∷ ys), str_eq_refl g.group_ref) (ground arith))
      | inr e ↦ rw e (overdue-kept params.now xs g ys (le→leb _ _ h))
    ]
