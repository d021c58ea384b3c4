-- ===== src/Pending/Marks.antt =====
-- The methods of the journal on whole groups, and `load`.
use px.Prelude.Action.{Write, write_done, write_failed, on_disk}
use px.Prelude.{
  ℕ, zero, suc, String, Bool, true, not, ◌&&◌, ◌||◌, ◌==◌, Option, none, some, List, [], ◌∷◌, map,
  any, keep, update_first, length, is_some, ltb, ◌-◌, if◌then◌else◌,
}
use px.Prelude.Text.{str_eq}
use px.Prelude.Action.{Result, ok, err, pure, throw, gets, throw_if, modify, ◌>>=◌, ◌>>◌}
use px.Pending.State.{
  GroupState, PendingPayoutGroup, PendingError, group_not_found, persist_failed, file_invalid,
  change_not_enabled, PendingAction, assert_pending,
}
use px.Pending.Methods.{has_ref, by_ref, group_tag, persist_pending, same_option, same_nat}

abbrev pub with_state : GroupState → Option ℕ → PendingPayoutGroup → PendingPayoutGroup
with_state state terminal_at g = record g { group_state = state; terminal_at = terminal_at }

abbrev pub set_found :
    Write → String → GroupState → Option ℕ → Option PendingPayoutGroup → PendingAction (Unit {0})
set_found persists group_ref state terminal_at none = throw group_not_found
set_found persists group_ref state terminal_at (some g) =
    if group_tag g.group_state == group_tag state && same_option same_nat g.terminal_at terminal_at
    then pure tt
    else do
      gs ← gets (λ w. w.memory)
      persist_pending persists (update_first (has_ref group_ref) (with_state state terminal_at) gs)

-- `setGroupState`
unfoldable pub set_group_state : Write → String → GroupState → Option ℕ → PendingAction (Unit {0})
set_group_state persists group_ref state terminal_at = do
  gs ← gets (λ w. w.memory)
  set_found persists group_ref state terminal_at (by_ref group_ref gs)

abbrev pub is_marked : List String → PendingPayoutGroup → Bool
is_marked wanted g = any (str_eq g.group_ref) wanted && not (is_some g.evidence_counted_at)

abbrev pub mark : List String → ℕ → PendingPayoutGroup → PendingPayoutGroup
mark wanted at_ms g =
    if is_marked wanted g then record g { evidence_counted_at = some at_ms } else g

abbrev pub stamp :
    Write
    → List String
    → ℕ
    → List PendingPayoutGroup
    → List PendingPayoutGroup
    → PendingAction (List String)
stamp persists wanted at_ms gs [] = pure []
stamp persists wanted at_ms gs (g ∷ marked) = do
  persist_pending persists (map (mark wanted at_ms) gs)
  pure (map (λ g. g.group_ref) (g ∷ marked))

-- `markEvidenceCounted`: the references that were newly stamped.
unfoldable pub mark_evidence_counted : Write → List String → ℕ → PendingAction (List String)
mark_evidence_counted persists wanted at_ms = do
  gs ← gets (λ w. w.memory)
  stamp persists wanted at_ms gs (keep (is_marked wanted) gs)

-- `setChangeState`
abbrev pub set_change_state : String → PendingAction (Unit {0})
set_change_state group_ref = throw change_not_enabled

abbrev pub after : ℕ → Option ℕ → Bool
after now none = true
after now (some at) = ltb now at

abbrev pub is_retained : ℕ → PendingPayoutGroup → Bool
is_retained now g = group_tag g.group_state == 5 || after now g.terminal_at

-- A write that fails here does not bring the pruned groups back.
abbrev pub write_pruned : Write → List PendingPayoutGroup → PendingAction (Unit {0})
write_pruned write_done next w = (ok tt, record { memory = next; disk = next })
write_pruned (write_failed replaced) next w =
    (err persist_failed, record { memory = next; disk = on_disk replaced next w.disk })

abbrev pub write_removed : Write → List PendingPayoutGroup → ℕ → PendingAction ℕ
write_removed persists kept zero = pure 0
write_removed persists kept (suc removed) = do write_pruned persists kept; pure (suc removed)

-- `prune`
unfoldable pub prune_groups : Write → ℕ → PendingAction ℕ
prune_groups persists now = do
  gs ← gets (λ w. w.memory)
  let kept = keep (is_retained now) gs
  write_removed persists kept (length gs - length kept)

-- What the file held, once decrypted: its version and its groups, or something that is no list.
pub record StoredPending : Type 0 where
  pub version : ℕ
  pub groups : Option (List PendingPayoutGroup)

abbrev loaded_checked :
    Bool
    → Write
    → List PendingPayoutGroup
    → Result PendingError (List String)
    → PendingAction (Unit {0})
loaded_checked rewrite persists gs (err e) = throw e
loaded_checked rewrite persists gs (ok _) = if rewrite then write_pruned persists gs else pure tt

abbrev loaded : Bool → Bool → Write → Option (List PendingPayoutGroup) → PendingAction (Unit {0})
loaded version_ok rewrite persists none = throw file_invalid
loaded version_ok rewrite persists (some gs) = do
  throw_if (not version_ok) file_invalid
  modify (λ w. record w { memory = gs })
  loaded_checked rewrite persists gs (assert_pending gs)

-- `load`: a file that is not yet encrypted is written again.
unfoldable pub load_pending : Bool → Write → StoredPending → PendingAction (Unit {0})
load_pending rewrite persists stored = loaded (stored.version == 1) rewrite persists stored.groups
