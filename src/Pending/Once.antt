-- ===== src/Pending/Once.antt =====
-- An update with an expected generation claims the leg: of several, one succeeds.
use px.Prelude.Action.{Write, write_done, write_failed}
use px.Prelude.{
  ℕ, suc, ◌≤◌, String, ◌≡◌, refl, Bool, true, false, Option, none, some, List, find, Bool-cases,
  Option-cases, arith, inl, inr, ◌==◌, find-holds,
}
use px.Prelude.Action.{Result, ok, err, pure, continue, ◌>>◌, throw_if}
use px.Pending.State.{
  PendingPayoutLeg, PendingPayoutGroup, LegPatch, apply_patch, PendingError, PendingWorld,
  assert_pending, index_immutable, ref_immutable, logical_id_immutable,
}
use px.Pending.Methods.{
  has_ref, has_index, by_ref, checked_write, moves_index, moves_ref, patched, patch_group,
  write_patched, update_found_leg, update_found_group, update_leg,
}
use px.Pending.Calls.{PendingCall, pending_run}
use px.Pending.Grows.{leg_at, AtLeast}
use px.Pending.Gens.{no_prunes, pending_run-AtLeast, find-update_first}

index_same :
    (patch : LegPatch) (leg : PendingPayoutLeg)
    → moves_index patch.index leg.index ≡ false
    → (apply_patch patch leg).index ≡ leg.index
unfolding apply_patch
index_same patch leg h = elim (Option-cases patch.index) [
  | inl e ↦ rw e refl
  | inr (i, e) ↦ ground (arith, e)
]

-- The leg that a patch went to.
leg_at-patched :
    (group_ref : String) (index : ℕ) (patch : LegPatch) (g : PendingPayoutGroup)
    (leg : PendingPayoutLeg) (gs : List PendingPayoutGroup)
    → by_ref group_ref gs ≡ some g
    → find (has_index index) g.legs ≡ some leg
    → moves_index patch.index leg.index ≡ false
    → leg_at group_ref index (patched group_ref index patch gs) ≡ some (apply_patch patch leg)
leg_at-patched group_ref index patch g leg gs e f h =
    let named = find-holds (has_ref group_ref) gs g e in
    let group = find-update_first (has_ref group_ref) (patch_group index patch) gs g e named in
    let indexed = find-holds (has_index index) g.legs leg f in
    let kept = index_same patch leg h in
    let leg_found =
      find-update_first (has_index index) (apply_patch patch) g.legs leg f (rw kept indexed) in
    rw (group, leg_found)

-- What a successful write left behind.
write_patched-true :
    (persists : Write) (group_ref : String) (index : ℕ) (patch : LegPatch) (w : PendingWorld)
    → (write_patched persists group_ref index patch w).0 ≡ ok true
    → (write_patched persists group_ref index patch w).1.memory
      ≡ patched group_ref index patch w.memory
write_patched-true persists group_ref index patch w =
    go persists (assert_pending (patched group_ref index patch w.memory))
  where
    next : List PendingPayoutGroup
    next = patched group_ref index patch w.memory

    go :
        (persists : Write) (r : Result PendingError (List String))
        → (continue
            (checked_write persists next r w).0
            (λ _. pure true)
            (checked_write persists next r w).1).0
          ≡ ok true
        → (continue {B = Bool}
            (checked_write persists next r w).0
            (λ _. pure true)
            (checked_write persists next r w).1).1.memory
          ≡ next
    go write_done (ok out) h = refl
    go (write_failed replaced) (ok out) h = cc
    go persists (err e) h = cc

claimed :
    (persists : Write) (group_ref : String) (index : ℕ) (patch : LegPatch) (gen : ℕ)
    (w : PendingWorld)
    → (update_leg persists group_ref index patch (some gen) w).0 ≡ ok true
    → AtLeast group_ref index
        (suc gen)
        (update_leg persists group_ref index patch (some gen) w).1.memory
unfolding update_leg
claimed persists group_ref index patch gen w = go (by_ref group_ref w.memory) refl
  where
    Claimed : Result PendingError Bool × PendingWorld → Type 0
    Claimed r = r.0 ≡ ok true → AtLeast group_ref index (suc gen) r.1.memory

    written :
        (g : PendingPayoutGroup) (leg : PendingPayoutLeg)
        → by_ref group_ref w.memory ≡ some g
        → find (has_index index) g.legs ≡ some leg
        → leg.gen ≡ gen
        → (a b c : Bool) → moves_index patch.index leg.index ≡ a
        → Claimed (
            (throw_if a index_immutable
                >> (throw_if b ref_immutable
                    >> (throw_if c logical_id_immutable
                        >> write_patched persists group_ref index patch)))
              w)
    written g leg e f at true b c h k = cc
    written g leg e f at false true c h k = cc
    written g leg e f at false false true h k = cc
    written g leg e f at false false false h k =
        let there = write_patched-true persists group_ref index patch w k in
        let grown : suc gen ≤ (apply_patch patch leg).gen =
          unfold apply_patch in omega (arith, at) in
        (
          apply_patch patch leg,
          rw there (leg_at-patched group_ref index patch g leg w.memory e f h),
          grown,
        )

    leg_found :
        (g : PendingPayoutGroup) (found : Option PendingPayoutLeg)
        → by_ref group_ref w.memory ≡ some g
        → find (has_index index) g.legs ≡ found
        → Claimed (update_found_leg persists group_ref index patch (some gen) found w)
    leg_found g none e f = λ k. cc
    leg_found g (some leg) e f = elim (Bool-cases (leg.gen == gen)) [
      | inr old ↦ rw old (λ k. cc)
      | inl current ↦ rw current (
          written g leg e f (ground arith) (moves_index patch.index leg.index)
            (moves_ref patch.payout_ref leg.payout_ref) (moves_ref patch.logical_id leg.logical_id)
            refl)
    ]

    go :
        (found : Option PendingPayoutGroup)
        → by_ref group_ref w.memory ≡ found
        → Claimed (update_found_group persists group_ref index patch (some gen) found w)
    go none e = λ k. cc
    go (some g) e = leg_found g (find (has_index index) g.legs) e refl

refused :
    (persists : Write) (group_ref : String) (index : ℕ) (patch : LegPatch) (gen : ℕ)
    (w : PendingWorld)
    → AtLeast group_ref index (suc gen) w.memory
    → update_leg persists group_ref index patch (some gen) w ≡ (ok false, w)
unfolding update_leg
refused persists group_ref index patch gen w (leg, e, le) = go (by_ref group_ref w.memory) refl
  where
    go :
        (found : Option PendingPayoutGroup)
        → by_ref group_ref w.memory ≡ found
        → update_found_group persists group_ref index patch (some gen) found w ≡ (ok false, w)
    go none f = ground (arith, f, e)
    go (some g) f =
        let there : find (has_index index) g.legs ≡ some leg = ground (arith, f, e) in
        let moved : (leg.gen == gen) ≡ false = ground (arith, le) in rw (there, moved)

-- A leg is claimed once: after an update that expected a generation has succeeded, an update that
-- expects the same generation returns false and changes nothing, whatever calls came between the
-- two, none of which prunes.
pub update_leg-once :
    (persists : Write) (group_ref : String) (index : ℕ) (patch : LegPatch) (gen : ℕ)
    (w : PendingWorld) (calls : List (Write × PendingCall)) (persists' : Write) (patch' : LegPatch)
    → (update_leg persists group_ref index patch (some gen) w).0 ≡ ok true
    → no_prunes calls ≡ true
    → (let later = pending_run calls (update_leg persists group_ref index patch (some gen) w).1 in
        update_leg persists' group_ref index patch' (some gen) later ≡ (ok false, later))
update_leg-once persists group_ref index patch gen w calls persists' patch' done free =
    let w' = (update_leg persists group_ref index patch (some gen) w).1 in
    refused persists' group_ref index patch' gen (pending_run calls w') (
      pending_run-AtLeast group_ref index (suc gen) calls w' free
        (claimed persists group_ref index patch gen w done))
