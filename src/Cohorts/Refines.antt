-- ===== src/Cohorts/Refines.antt =====
-- The book is such a map, whatever writes of its file fail.
use px.Prelude.Action.{Write, write_done, write_failed}
use mathlib.Core.Path.{fun_ext}
use px.Prelude.{
  ℕ, zero, suc, ◌-◌, String, ◌≡◌, refl, sym, ap, ◌∙◌, true, Option, none, some, List, [], ◌∷◌, ◌++◌,
  any, keep, length, is_some, Bool-cases, arith, inl, inr,
}
use px.Prelude.Text.{str_eq_iff}
use px.Cohorts.Book.{
  CohortRecord, CohortWorld, Spread, has_id, push, put_cohort, persist_cohorts, is_no_members,
  resolved, resolve_found, resolve_cohort, is_kept, drop_cohorts, prune_cohorts, CohortCall,
  puts_cohort, resolves, prunes_cohorts, cohort_step, cohort_run,
}
use px.Cohorts.Matches.{
  changed-settled_once, unwritten-settled_once, known-settled_once, unless-unless_past,
  members-if_members,
}
use px.Cohorts.Spec.{spec_step, spec_run}
use px.Cohorts.Views.{
  view, distinct_ids, view-append, view_absent, view_present, view-update_first, view-keep,
  keep_all, distinct_ids-append, distinct_ids-keep, distinct_ids-update_first,
}

-- A world after a call: its ids are distinct, and it stands for the map that is promised.
abbrev Promised : Write → CohortCall → CohortWorld → CohortWorld → Type 0
Promised persists call w w' =
    (distinct_ids w'.memory ≡ true)
    × ((j : String) → view w'.memory j ≡ spec_step persists call (view w.memory) j)

pushed :
    (persists : Write) (c : CohortRecord) (w : CohortWorld)
    → (persist_cohorts persists (push c w)).1.memory ≡ w.memory ++ c ∷ []
pushed write_done c w = refl
pushed (write_failed replaced) c w = refl

put_cohort-Promised :
    (persists : Write) (c : CohortRecord) (w : CohortWorld)
    → distinct_ids w.memory ≡ true
    → Promised persists (puts_cohort c) w (put_cohort persists c w).1
unfolding put_cohort
put_cohort-Promised persists c w h = elim (Bool-cases (any (has_id c.cohort_id) w.memory)) [
  | inl known ↦
      let (old, e) = view_present c.cohort_id w.memory known in
      rw known (h, λ j. ground (arith, str_eq_iff c.cohort_id j, e))
  | inr new ↦
      let absent = view_absent c.cohort_id w.memory new in
      elim (Bool-cases (is_no_members c.members)) [
        | inl empty ↦
            let nothing = (members-if_members c.members c).0 empty in
            rw (new, empty) (h, λ j. ground (arith, str_eq_iff c.cohort_id j, absent, nothing))
        | inr full ↦
            let all_of_it = (members-if_members c.members c).1 full in
            rw (new, full, pushed persists c w)
              (
                distinct_ids-append c w.memory h new,
                λ j.
                    ground (
                      arith,
                      str_eq_iff c.cohort_id j,
                      absent,
                      all_of_it,
                      view-append c j w.memory,
                    ),
              )
      ]
]

module _ (cohort_id : String) (k_eff terminal_at : ℕ) (spread : Spread) (w : CohortWorld)
    (h : distinct_ids w.memory ≡ true) where
  resolve_found-Promised :
      (persists : Write) (found : Option CohortRecord)
      → view w.memory cohort_id ≡ found
      → Promised persists
          (resolves cohort_id k_eff terminal_at spread)
          w
          (resolve_found persists cohort_id k_eff terminal_at spread found w).1
  resolve_found-Promised persists none e = (h, λ j. ground (arith, str_eq_iff cohort_id j, e))
  resolve_found-Promised write_done (some c) e = elim (Bool-cases (is_some c.realized_k_eff)) [
    | inl known ↦
        let same = known-settled_once write_done k_eff terminal_at spread c known in
        rw known (h, λ j. ground (arith, str_eq_iff cohort_id j, e, same))
    | inr open' ↦
        let same = changed-settled_once k_eff terminal_at spread c open' in
        rw open' (
          distinct_ids-update_first cohort_id (resolved k_eff terminal_at spread) w.memory
              (λ x. refl) h,
          λ j. ground (
            arith,
            str_eq_iff cohort_id j,
            e,
            same,
            view-update_first cohort_id j (resolved k_eff terminal_at spread) w.memory (λ x. refl),
          ),
        )
  ]
  resolve_found-Promised (write_failed replaced) (some c) e =
      elim (Bool-cases (is_some c.realized_k_eff)) [
        | inl known ↦
            let same = unwritten-settled_once replaced k_eff terminal_at spread c in
            rw known (h, λ j. ground (arith, str_eq_iff cohort_id j, e, same))
        | inr open' ↦
            let same = unwritten-settled_once replaced k_eff terminal_at spread c in
            rw open' (h, λ j. ground (arith, str_eq_iff cohort_id j, e, same))
      ]

dropped :
    (persists : Write) (kept : List CohortRecord) (removed : ℕ) (w : CohortWorld)
    → (drop_cohorts persists kept (suc removed) w).1.memory ≡ kept
dropped write_done kept removed w = refl
dropped (write_failed replaced) kept removed w = refl

drop_cohorts-Promised :
    (persists : Write) (before removed : ℕ) (w : CohortWorld)
    → distinct_ids w.memory ≡ true
    → length w.memory - length (keep (is_kept before) w.memory) ≡ removed
    → Promised persists
        (prunes_cohorts before)
        w
        (drop_cohorts persists (keep (is_kept before) w.memory) removed w).1
drop_cohorts-Promised persists before zero w h e =
    let same = keep_all (is_kept before) w.memory e in
    (
      h,
      λ j.
          ap (λ cs. view cs j) (sym same)
          ∙ view-keep j (is_kept before) w.memory h
          ∙ unless-unless_past before (view w.memory j),
    )
drop_cohorts-Promised persists before (suc removed) w h e =
    rw (dropped persists (keep (is_kept before) w.memory) removed w) (
      distinct_ids-keep (is_kept before) w.memory h,
      λ j. view-keep j (is_kept before) w.memory h ∙ unless-unless_past before (view w.memory j),
    )

cohort_step-Promised :
    (persists : Write) (call : CohortCall) (w : CohortWorld)
    → distinct_ids w.memory ≡ true
    → Promised persists call w (cohort_step persists call w)
unfolding cohort_step resolve_cohort prune_cohorts
cohort_step-Promised persists (puts_cohort c) w h = put_cohort-Promised persists c w h
cohort_step-Promised persists (resolves cohort_id k_eff terminal_at spread) w h =
    resolve_found-Promised cohort_id k_eff terminal_at spread w h persists (view w.memory cohort_id)
      refl
cohort_step-Promised persists (prunes_cohorts before) w h =
    drop_cohorts-Promised persists before
      (length w.memory - length (keep (is_kept before) w.memory)) w h refl

-- The book refines the map from ids to records: from any records with distinct ids, and over any
-- calls, whatever writes of the file fail in them, the records in memory stand for the map that the
-- same calls give.
pub cohort_run-refines :
    (calls : List (Write × CohortCall)) (w : CohortWorld)
    → distinct_ids w.memory ≡ true
    → view (cohort_run calls w).memory ≡ spec_run calls (view w.memory)
unfolding cohort_run
cohort_run-refines [] w h = refl
cohort_run-refines ((persists, call) ∷ calls) w h =
    let w' = cohort_step persists call w in
    let (distinct, same) = cohort_step-Promised persists call w h in
    cohort_run-refines calls w' distinct ∙ ap (spec_run calls) (fun_ext same)
