-- ===== src/Pending/Gens.antt =====
-- No call but a prune loses a leg or lowers its generation.
use px.Prelude.Action.{Write, write_done, write_failed}
use px.Prelude.{
  ℕ, String, ◌≡◌, refl, Bool, true, false, not, ◌&&◌, Option, none, some, List, [], ◌∷◌, ◌++◌, map,
  find, keep, all, update_first, Bool-cases, arith, inl, inr, or_else, ◌==◌,
}
use px.Prelude.Text.{str_eq_iff}
use px.Prelude.Action.{Result, ok, err, ◌>>◌, throw_if}
use px.Pending.State.{
  GroupState, PendingPayoutLeg, PendingPayoutGroup, LegPatch, apply_patch, PendingError,
  PendingWorld, PendingAction, assert_pending, index_immutable, ref_immutable, logical_id_immutable,
}
use px.Pending.Methods.{
  has_ref, has_index, by_ref, same_group, persist_pending, assert_and_persist, checked_write,
  put_by, put_group, stale, moves_index, moves_ref, patched, patch_group, write_patched,
  update_found_leg, update_found_group, update_leg, same_option, same_nat, group_tag,
}
use px.Pending.Marks.{
  with_state, set_found, set_group_state, is_marked, mark, stamp, mark_evidence_counted,
}
use px.Pending.Calls.{PendingCall, puts, updates, sets, marks, prunes, pending_step, pending_run}
use px.Pending.Refs.{world_after}
use px.Pending.Grows.{
  LegGrows, GroupsGrow, GroupGrows, GroupsGrow-refl, GroupsGrow-append, GroupsGrow-map,
  GroupsGrow-update_first, LegsGrow-update_first, same_legs-GroupGrows, AtLeast, AtLeast-GroupsGrow,
}

abbrev pub Grows : {A : Type 0} → PendingAction A → PendingWorld → Type 0
Grows m w = GroupsGrow w.memory (m w).1.memory

persist_pending-Grows :
    (persists : Write) (next : List PendingPayoutGroup) (w : PendingWorld)
    → GroupsGrow w.memory next
    → Grows (persist_pending persists next) w
persist_pending-Grows write_done next w h = h
persist_pending-Grows (write_failed replaced) next w h = GroupsGrow-refl w.memory

assert_and_persist-Grows :
    (persists : Write) (next : List PendingPayoutGroup) (w : PendingWorld)
    → GroupsGrow w.memory next
    → Grows (assert_and_persist persists next) w
assert_and_persist-Grows persists next w h = go (assert_pending next)
  where
    go :
        (r : Result PendingError (List String))
        → GroupsGrow w.memory (checked_write persists next r w).1.memory
    go (ok out) = persist_pending-Grows persists next w h
    go (err e) = GroupsGrow-refl w.memory

pub put_group-Grows :
    (persists : Write) (group : PendingPayoutGroup) (w : PendingWorld)
    → Grows (put_group persists group) w
unfolding put_group
put_group-Grows persists group w = go (by_ref group.group_ref w.memory)
  where
    go :
        (found : Option PendingPayoutGroup)
        → GroupsGrow w.memory (put_by persists group found w).1.memory
    go none =
        assert_and_persist-Grows persists (w.memory ++ group ∷ []) w
          (GroupsGrow-append w.memory (group ∷ []))
    go (some existing) = elim (Bool-cases (not (same_group existing group))) [
      | inl e ↦ rw e (GroupsGrow-refl w.memory)
      | inr e ↦ rw e (GroupsGrow-refl w.memory)
    ]

-- The index and the reference of a patch that the guards let through.
names_kept :
    (patch : LegPatch) (leg : PendingPayoutLeg)
    → moves_index patch.index leg.index ≡ false
    → moves_ref patch.payout_ref leg.payout_ref ≡ false
    → LegGrows leg (apply_patch patch leg)
unfolding apply_patch
names_kept patch leg h k = (index_same patch.index h, omega arith, ref_same patch.payout_ref k)
  where
    index_same : (o : Option ℕ) → moves_index o leg.index ≡ false → or_else o leg.index ≡ leg.index
    index_same none h = refl
    index_same (some i) h = ground arith

    ref_same :
        (o : Option String)
        → moves_ref o leg.payout_ref ≡ false
        → or_else o leg.payout_ref ≡ leg.payout_ref
    ref_same none k = refl
    ref_same (some r) k = ground (arith, str_eq_iff r leg.payout_ref)

write_patched-Grows :
    (persists : Write) (group_ref : String) (index : ℕ) (patch : LegPatch) (w : PendingWorld)
    → GroupsGrow w.memory (patched group_ref index patch w.memory)
    → Grows (write_patched persists group_ref index patch) w
write_patched-Grows persists group_ref index patch w h =
    let next = patched group_ref index patch w.memory in
    let (r, w') = assert_and_persist persists next w in
    rw (world_after {B = Bool} r true w') (assert_and_persist-Grows persists next w h)

patched-GroupsGrow :
    (group_ref : String) (index : ℕ) (patch : LegPatch) (g : PendingPayoutGroup)
    (leg : PendingPayoutLeg) (gs : List PendingPayoutGroup)
    → by_ref group_ref gs ≡ some g
    → find (has_index index) g.legs ≡ some leg
    → moves_index patch.index leg.index ≡ false
    → moves_ref patch.payout_ref leg.payout_ref ≡ false
    → GroupsGrow gs (patched group_ref index patch gs)
patched-GroupsGrow group_ref index patch g leg gs e f h r =
    GroupsGrow-update_first (has_ref group_ref) (patch_group index patch) gs λ x k. (
      refl,
      LegsGrow-update_first (has_index index) (apply_patch patch) x.legs λ l j.
          let same : x ≡ g = cc in
          let found : find (has_index index) g.legs ≡ some l = rw (← same) j in
          let one : leg ≡ l = cc in names_kept patch l (rw (← one) h) (rw (← one) r),
    )

pub update_leg-Grows :
    (persists : Write) (group_ref : String) (index : ℕ) (patch : LegPatch) (gen : Option ℕ)
    (w : PendingWorld)
    → Grows (update_leg persists group_ref index patch gen) w
unfolding update_leg
update_leg-Grows persists group_ref index patch gen w = go (by_ref group_ref w.memory) refl
  where
    written :
        (g : PendingPayoutGroup) (leg : PendingPayoutLeg)
        → by_ref group_ref w.memory ≡ some g
        → find (has_index index) g.legs ≡ some leg
        → (a b c : Bool) → moves_index patch.index leg.index ≡ a
        → moves_ref patch.payout_ref leg.payout_ref ≡ b
        → GroupsGrow w.memory
            ((throw_if a index_immutable
                >> (throw_if b ref_immutable
                    >> (throw_if c logical_id_immutable
                        >> write_patched persists group_ref index patch)))
              w).1.memory
    written g leg e f true b c h r = GroupsGrow-refl w.memory
    written g leg e f false true c h r = GroupsGrow-refl w.memory
    written g leg e f false false true h r = GroupsGrow-refl w.memory
    written g leg e f false false false h r =
        write_patched-Grows persists group_ref index patch w
          (patched-GroupsGrow group_ref index patch g leg w.memory e f h r)

    leg_found :
        (g : PendingPayoutGroup) (found : Option PendingPayoutLeg)
        → by_ref group_ref w.memory ≡ some g
        → find (has_index index) g.legs ≡ found
        → GroupsGrow w.memory (update_found_leg persists group_ref index patch gen found w).1.memory
    leg_found g none e f = GroupsGrow-refl w.memory
    leg_found g (some leg) e f = elim (Bool-cases (stale gen leg)) [
      | inl old ↦ rw old (GroupsGrow-refl w.memory)
      | inr current ↦ rw current (
          written g leg e f (moves_index patch.index leg.index)
            (moves_ref patch.payout_ref leg.payout_ref) (moves_ref patch.logical_id leg.logical_id)
            refl refl)
    ]

    go :
        (found : Option PendingPayoutGroup)
        → by_ref group_ref w.memory ≡ found
        → GroupsGrow w.memory
            (update_found_group persists group_ref index patch gen found w).1.memory
    go none e = GroupsGrow-refl w.memory
    go (some g) e = leg_found g (find (has_index index) g.legs) e refl

pub set_group_state-Grows :
    (persists : Write) (group_ref : String) (state : GroupState) (terminal_at : Option ℕ)
    (w : PendingWorld)
    → Grows (set_group_state persists group_ref state terminal_at) w
unfolding set_group_state
set_group_state-Grows persists group_ref state terminal_at w = go (by_ref group_ref w.memory)
  where
    go :
        (found : Option PendingPayoutGroup)
        → GroupsGrow w.memory (set_found persists group_ref state terminal_at found w).1.memory
    go none = GroupsGrow-refl w.memory
    go (some g) =
        elim (Bool-cases (
          group_tag g.group_state == group_tag state
          && same_option same_nat g.terminal_at terminal_at)) [
            | inl same ↦ rw same (GroupsGrow-refl w.memory)
            | inr changed ↦ rw changed (
                persist_pending-Grows persists
                  (update_first (has_ref group_ref) (with_state state terminal_at) w.memory) w
                  (GroupsGrow-update_first (has_ref group_ref) (with_state state terminal_at)
                    w.memory
                    (λ x k. same_legs-GroupGrows x (with_state state terminal_at x) refl refl)))
          ]

mark-GroupGrows :
    (wanted : List String) (at_ms : ℕ) (g : PendingPayoutGroup) → GroupGrows g (mark wanted at_ms g)
mark-GroupGrows wanted at_ms g = elim (Bool-cases (is_marked wanted g)) [
  | inl e ↦ rw e (same_legs-GroupGrows g (record g { evidence_counted_at = some at_ms }) refl refl)
  | inr e ↦ rw e (same_legs-GroupGrows g g refl refl)
]

pub mark_evidence_counted-Grows :
    (persists : Write) (wanted : List String) (at_ms : ℕ) (w : PendingWorld)
    → Grows (mark_evidence_counted persists wanted at_ms) w
unfolding mark_evidence_counted
mark_evidence_counted-Grows persists wanted at_ms w = go (keep (is_marked wanted) w.memory)
  where
    go :
        (marked : List PendingPayoutGroup)
        → GroupsGrow w.memory (stamp persists wanted at_ms w.memory marked w).1.memory
    go [] = GroupsGrow-refl w.memory
    go (g ∷ gs) =
        let next = map (mark wanted at_ms) w.memory in
        let (r, w') = persist_pending persists next w in
        rw (world_after {B = List String} r (map (λ x. x.group_ref) (g ∷ gs)) w') (
          persist_pending-Grows persists next w
            (GroupsGrow-map (mark wanted at_ms) w.memory (mark-GroupGrows wanted at_ms)))

abbrev pub is_prune : PendingCall → Bool
is_prune (puts _) = false
is_prune (updates _ _ _ _) = false
is_prune (sets _ _ _) = false
is_prune (marks _ _) = false
is_prune (prunes _) = true

pub pending_step-Grows :
    (persists : Write) (call : PendingCall) (w : PendingWorld)
    → is_prune call ≡ false
    → GroupsGrow w.memory (pending_step persists call w).memory
unfolding pending_step
pending_step-Grows persists (puts group) w h = put_group-Grows persists group w
pending_step-Grows persists (updates group_ref index patch gen) w h =
    update_leg-Grows persists group_ref index patch gen w
pending_step-Grows persists (sets group_ref state terminal_at) w h =
    set_group_state-Grows persists group_ref state terminal_at w
pending_step-Grows persists (marks wanted at_ms) w h =
    mark_evidence_counted-Grows persists wanted at_ms w
pending_step-Grows persists (prunes now) w h = cc

-- No call of a list prunes.
abbrev pub no_prunes : List (Write × PendingCall) → Bool
no_prunes calls = all (λ c. not (is_prune c.1)) calls

pub pending_run-AtLeast :
    (group_ref : String) (index n : ℕ) (calls : List (Write × PendingCall)) (w : PendingWorld)
    → no_prunes calls ≡ true
    → AtLeast group_ref index n w.memory
    → AtLeast group_ref index n (pending_run calls w).memory
unfolding pending_run
pending_run-AtLeast group_ref index n [] w h a = a
pending_run-AtLeast group_ref index n ((persists, call) ∷ calls) w h a =
    let w' = pending_step persists call w in
    pending_run-AtLeast group_ref index n calls w' (ground arith) (
      AtLeast-GroupsGrow group_ref index n w.memory w'.memory a
        (pending_step-Grows persists call w (ground arith)))

pub find-update_first {ℓ} :
    {A : Type ℓ} (p : A → Bool) (f : A → A) (xs : List A) (x : A)
    → find p xs ≡ some x
    → p (f x) ≡ true
    → find p (update_first p f xs) ≡ some (f x)
find-update_first p f [] x e h = cc
find-update_first p f (y ∷ ys) x e h = elim (Bool-cases (p y)) [
  | inl here ↦
      let same : y ≡ x = ground arith in
      let holds : p (f y) ≡ true = rw same h in rw (here, holds, same)
  | inr later ↦ rw (later, later) (find-update_first p f ys x (ground arith) h)
]
