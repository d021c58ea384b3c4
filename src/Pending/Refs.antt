-- ===== src/Pending/Refs.antt =====
-- The references of the legs stay distinct over any calls.
use px.Prelude.Action.{Write, write_done, write_failed}
use px.Prelude.{
  ℕ, zero, suc, ◌-◌, String, ◌≡◌, refl, Bool, true, false, not, ◌&&◌, Option, none, some, List, [],
  ◌∷◌, ◌++◌, map, find, keep, update_first, length, Bool-cases, inl, inr, ◌==◌,
}
use px.Prelude.Action.{Result, ok, err, pure, continue, ◌>>◌, throw_if}
use px.Pending.State.{
  GroupState, PendingPayoutLeg, PendingPayoutGroup, LegPatch, PendingError, PendingWorld,
  PendingAction, assert_pending, group_exists_different, index_immutable, ref_immutable,
  logical_id_immutable,
}
use px.Pending.Methods.{
  has_ref, has_index, by_ref, known_refs, same_group, persist_pending, assert_and_persist,
  checked_write, put_by, put_group, stale, moves_index, moves_ref, patched, write_patched,
  write_leg, update_found_leg, update_found_group, update_leg, same_option, same_nat, group_tag,
}
use px.Pending.Marks.{
  with_state, set_found, set_group_state, is_marked, mark, stamp, mark_evidence_counted,
  is_retained, write_pruned, write_removed, prune_groups,
}
use px.Pending.Calls.{PendingCall, puts, updates, sets, marks, prunes, pending_step, pending_run}
use px.Pending.Valid.{
  distinct_refs, Unseen, check_groups_found, check_groups-keep, check_groups-map,
  check_groups-update_first,
}

abbrev pub Passes : List PendingPayoutGroup → Type 0
Passes gs = (out : List String) × (assert_pending gs ≡ ok out)

-- Both the state in memory and the one in the file pass the check.
abbrev pub IsChecked : PendingWorld → Type 0
IsChecked w = Passes w.memory × Passes w.disk

-- A method that leaves checked worlds.
abbrev Checks : {A : Type 0} → PendingAction A → Type 0
Checks m = (w : PendingWorld) → IsChecked w → IsChecked (m w).1

-- What follows a step on worlds changes nothing more.
pub world_after :
    {A B : Type 0} (r : Result PendingError A) (b : B) (w : PendingWorld)
    → (continue {W = PendingWorld} r (λ _. pure b) w).1 ≡ w
world_after (ok a) b w = refl
world_after (err e) b w = refl

throw_if-Checks : (b : Bool) (e : PendingError) → Checks (throw_if b e)
throw_if-Checks true e w h = h
throw_if-Checks false e w h = h

persist_pending-Checks :
    (persists : Write) (next : List PendingPayoutGroup)
    → Passes next
    → Checks (persist_pending persists next)
persist_pending-Checks write_done next p w h = (p, p)
persist_pending-Checks (write_failed true) next p w h = (h.0, p)
persist_pending-Checks (write_failed false) next p w h = h

assert_and_persist-Checks :
    (persists : Write) (next : List PendingPayoutGroup) → Checks (assert_and_persist persists next)
assert_and_persist-Checks persists next w h = go (assert_pending next) refl
  where
    go :
        (r : Result PendingError (List String))
        → assert_pending next ≡ r
        → IsChecked (checked_write persists next r w).1
    go (ok out) e = persist_pending-Checks persists next (out, e) w h
    go (err e') e = h

put_group-Checks :
    (persists : Write) (group : PendingPayoutGroup) → Checks (put_group persists group)
unfolding put_group
put_group-Checks persists group w h = go (by_ref group.group_ref w.memory)
  where
    go : (found : Option PendingPayoutGroup) → IsChecked (put_by persists group found w).1
    go none = assert_and_persist-Checks persists (w.memory ++ group ∷ []) w h
    go (some existing) =
        throw_if-Checks (not (same_group existing group)) group_exists_different w h

write_patched-Checks :
    (persists : Write) (group_ref : String) (index : ℕ) (patch : LegPatch)
    → Checks (write_patched persists group_ref index patch)
write_patched-Checks persists group_ref index patch w h =
    let next = patched group_ref index patch w.memory in
    let (r, w') = assert_and_persist persists next w in
    rw (world_after {B = Bool} r true w') (assert_and_persist-Checks persists next w h)

guarded-Checks :
    {A : Type 0} (a b c : Bool) (e f g : PendingError) (m : PendingAction A)
    → Checks m
    → Checks (throw_if a e >> (throw_if b f >> (throw_if c g >> m)))
guarded-Checks true b c e f g m k w h = h
guarded-Checks false true c e f g m k w h = h
guarded-Checks false false true e f g m k w h = h
guarded-Checks false false false e f g m k w h = k w h

write_leg-Checks :
    (persists : Write) (group_ref : String) (index : ℕ) (patch : LegPatch) (leg : PendingPayoutLeg)
    → Checks (write_leg persists group_ref index patch leg)
write_leg-Checks persists group_ref index patch leg =
    guarded-Checks (moves_index patch.index leg.index) (moves_ref patch.payout_ref leg.payout_ref)
      (moves_ref patch.logical_id leg.logical_id) index_immutable ref_immutable logical_id_immutable
      (write_patched persists group_ref index patch)
      (write_patched-Checks persists group_ref index patch)

update_leg-Checks :
    (persists : Write) (group_ref : String) (index : ℕ) (patch : LegPatch) (gen : Option ℕ)
    → Checks (update_leg persists group_ref index patch gen)
unfolding update_leg
update_leg-Checks persists group_ref index patch gen w h = go (by_ref group_ref w.memory)
  where
    leg_found :
        (found : Option PendingPayoutLeg)
        → IsChecked (update_found_leg persists group_ref index patch gen found w).1
    leg_found none = h
    leg_found (some leg) = elim (Bool-cases (stale gen leg)) [
      | inl old ↦ rw old h
      | inr current ↦ rw current (write_leg-Checks persists group_ref index patch leg w h)
    ]

    go :
        (found : Option PendingPayoutGroup)
        → IsChecked (update_found_group persists group_ref index patch gen found w).1
    go none = h
    go (some g) = leg_found (find (has_index index) g.legs)

-- A state whose groups are changed where the check does not look passes as before.
updated-Passes :
    (group_ref : String) (state : GroupState) (terminal_at : Option ℕ)
    (gs : List PendingPayoutGroup)
    → Passes gs
    → Passes (update_first (has_ref group_ref) (with_state state terminal_at) gs)
updated-Passes group_ref state terminal_at gs (out, e) = (
  out,
  check_groups-update_first (has_ref group_ref) (with_state state terminal_at) [] gs out
      (λ g. (refl, refl)) e,
)

mark-Unseen : (wanted : List String) (at_ms : ℕ) → Unseen (mark wanted at_ms)
mark-Unseen wanted at_ms g = elim (Bool-cases (is_marked wanted g)) [
  | inl e ↦ rw e (refl, refl)
  | inr e ↦ rw e (refl, refl)
]

set_group_state-Checks :
    (persists : Write) (group_ref : String) (state : GroupState) (terminal_at : Option ℕ)
    → Checks (set_group_state persists group_ref state terminal_at)
unfolding set_group_state
set_group_state-Checks persists group_ref state terminal_at w h = go (by_ref group_ref w.memory)
  where
    go :
        (found : Option PendingPayoutGroup)
        → IsChecked (set_found persists group_ref state terminal_at found w).1
    go none = h
    go (some g) =
        elim (Bool-cases (
          group_tag g.group_state == group_tag state
          && same_option same_nat g.terminal_at terminal_at)) [
            | inl same ↦ rw same h
            | inr changed ↦ rw changed (
                persist_pending-Checks persists
                  (update_first (has_ref group_ref) (with_state state terminal_at) w.memory)
                  (updated-Passes group_ref state terminal_at w.memory h.0) w h)
          ]

mark_evidence_counted-Checks :
    (persists : Write) (wanted : List String) (at_ms : ℕ)
    → Checks (mark_evidence_counted persists wanted at_ms)
unfolding mark_evidence_counted
mark_evidence_counted-Checks persists wanted at_ms w h = go (keep (is_marked wanted) w.memory)
  where
    go :
        (marked : List PendingPayoutGroup)
        → IsChecked (stamp persists wanted at_ms w.memory marked w).1
    go [] = h
    go (g ∷ gs) =
        let next = map (mark wanted at_ms) w.memory in
        let (r, w') = persist_pending persists next w in
        let (out, e) = h.0 in
        rw (world_after {B = List String} r (map (λ x. x.group_ref) (g ∷ gs)) w') (
          persist_pending-Checks persists next
            (out, check_groups-map (mark wanted at_ms) [] w.memory out (mark-Unseen wanted at_ms) e)
            w h)

write_pruned-Checks :
    (persists : Write) (next : List PendingPayoutGroup)
    → Passes next
    → Checks (write_pruned persists next)
write_pruned-Checks write_done next p w h = (p, p)
write_pruned-Checks (write_failed true) next p w h = (p, p)
write_pruned-Checks (write_failed false) next p w h = (p, h.1)

prune_groups-Checks : (persists : Write) (now : ℕ) → Checks (prune_groups persists now)
unfolding prune_groups
prune_groups-Checks persists now w h =
    let kept = keep (is_retained now) w.memory in go (length w.memory - length kept)
  where
    kept_passes : Passes (keep (is_retained now) w.memory)
    kept_passes =
        let (out, e) = h.0 in check_groups-keep (is_retained now) [] [] w.memory out (λ r m. m) e

    go :
        (removed : ℕ)
        → IsChecked (write_removed persists (keep (is_retained now) w.memory) removed w).1
    go zero = h
    go (suc removed) =
        let kept = keep (is_retained now) w.memory in
        let (r, w') = write_pruned persists kept w in
        rw (world_after {B = ℕ} r (suc removed) w')
          (write_pruned-Checks persists kept kept_passes w h)

pub pending_step-Checks :
    (persists : Write) (call : PendingCall) (w : PendingWorld)
    → IsChecked w
    → IsChecked (pending_step persists call w)
unfolding pending_step
pending_step-Checks persists (puts group) w h = put_group-Checks persists group w h
pending_step-Checks persists (updates group_ref index patch gen) w h =
    update_leg-Checks persists group_ref index patch gen w h
pending_step-Checks persists (sets group_ref state terminal_at) w h =
    set_group_state-Checks persists group_ref state terminal_at w h
pending_step-Checks persists (marks wanted at_ms) w h =
    mark_evidence_counted-Checks persists wanted at_ms w h
pending_step-Checks persists (prunes now) w h = prune_groups-Checks persists now w h

pending_run-Checks :
    (calls : List (Write × PendingCall)) (w : PendingWorld)
    → IsChecked w
    → IsChecked (pending_run calls w)
unfolding pending_run
pending_run-Checks [] w h = h
pending_run-Checks ((persists, call) ∷ calls) w h =
    pending_run-Checks calls (pending_step persists call w) (pending_step-Checks persists call w h)

-- After any calls on a journal that passed its check, whatever writes fail, no payout reference
-- stands in two legs, in memory or in the file.
pub pending_run-distinct_refs :
    (calls : List (Write × PendingCall)) (w : PendingWorld)
    → IsChecked w
    → (distinct_refs (known_refs (pending_run calls w).memory) ≡ true)
      × (distinct_refs (known_refs (pending_run calls w).disk) ≡ true)
pending_run-distinct_refs calls w h =
    let ((out, e), (out', e')) = pending_run-Checks calls w h in
    (
      (check_groups_found [] (pending_run calls w).memory out e).apart,
      (check_groups_found [] (pending_run calls w).disk out' e').apart,
    )
