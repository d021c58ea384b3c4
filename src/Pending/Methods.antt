-- ===== src/Pending/Methods.antt =====
-- The methods of the journal. `structuredClone` is no operation on values. A call is given whether
-- its write of the file succeeds.
use px.Prelude.Action.{Write, write_done, write_failed, on_disk}
use px.Prelude.{
  ℕ, String, Bool, true, false, not, ◌&&◌, ◌==◌, Option, none, some, List, [], ◌∷◌, ◌++◌, find,
  keep, update_first, if◌then◌else◌,
}
use px.Prelude.Int.{eq_ℤ}
use px.Prelude.Text.{str_eq}
use px.Prelude.Action.{Result, ok, err, pure, throw, gets, throw_if, ◌>>=◌, ◌>>◌}
use px.Pending.State.{
  LegState, GroupState, ChainStatus, PayoutMode, Strategy, PendingPayoutLeg, PendingPayoutGroup,
  LegPatch, apply_patch, PendingError, group_exists_different, group_not_found, leg_not_found,
  index_immutable, ref_immutable, logical_id_immutable, persist_failed, PendingAction,
  assert_pending,
}

abbrev pub has_ref : String → PendingPayoutGroup → Bool
has_ref group_ref g = str_eq g.group_ref group_ref

abbrev pub has_index : ℕ → PendingPayoutLeg → Bool
has_index index leg = leg.index == index

-- `byRef`
abbrev pub by_ref : String → List PendingPayoutGroup → Option PendingPayoutGroup
by_ref group_ref gs = find (has_ref group_ref) gs

abbrev pub payout_refs_of : List PendingPayoutLeg → List String
payout_refs_of [] = []
payout_refs_of (leg ∷ legs) = leg.payout_ref ∷ payout_refs_of legs

-- `knownRefs`, as the list that the set is made from.
abbrev pub known_refs : List PendingPayoutGroup → List String
known_refs [] = []
known_refs (g ∷ gs) = payout_refs_of g.legs ++ known_refs gs

abbrev pub leg_tag : LegState → ℕ
leg_tag LegState.queued = 0
leg_tag LegState.broadcasting = 1
leg_tag LegState.settled = 2
leg_tag LegState.failed = 3
leg_tag LegState.uncertain = 4

abbrev pub group_tag : GroupState → ℕ
group_tag GroupState.queued = 0
group_tag GroupState.in_flight = 1
group_tag GroupState.settled = 2
group_tag GroupState.partial = 3
group_tag GroupState.failed = 4
group_tag GroupState.uncertain = 5

abbrev pub chain_tag : ChainStatus → ℕ
chain_tag ChainStatus.included = 0
chain_tag ChainStatus.finalized = 1

abbrev pub mode_tag : PayoutMode → ℕ
mode_tag PayoutMode.dry_run = 0
mode_tag PayoutMode.onchain = 1

abbrev pub strategy_tag : Strategy → ℕ
strategy_tag Strategy.single = 0
strategy_tag Strategy.denominations = 1

abbrev pub is_queued : PendingPayoutLeg → Bool
is_queued leg = leg_tag leg.state == 0

abbrev with_group :
    PendingPayoutGroup → List PendingPayoutLeg → List (PendingPayoutGroup × PendingPayoutLeg)
with_group g [] = []
with_group g (leg ∷ legs) = (g, leg) ∷ with_group g legs

-- `queuedLegs`
abbrev pub queued_legs :
    String → List PendingPayoutGroup → List (PendingPayoutGroup × PendingPayoutLeg)
queued_legs network [] = []
queued_legs network (g ∷ gs) =
    let rest = queued_legs network gs in
    if str_eq g.network network then with_group g (keep is_queued g.legs) ++ rest else rest

-- Equality of optional values, by an equality of the values.
abbrev pub same_option : {A : Type 0} → (A → A → Bool) → Option A → Option A → Bool
same_option same none none = true
same_option same none (some _) = false
same_option same (some _) none = false
same_option same (some a) (some b) = same a b

abbrev pub same_nat : ℕ → ℕ → Bool
same_nat a b = a == b

abbrev pub same_chain : ChainStatus → ChainStatus → Bool
same_chain a b = chain_tag a == chain_tag b

abbrev pub same_mode : PayoutMode → PayoutMode → Bool
same_mode a b = mode_tag a == mode_tag b

abbrev same_leg : PendingPayoutLeg → PendingPayoutLeg → Bool
same_leg a b =
    a.index == b.index
    && str_eq a.payout_ref b.payout_ref
    && str_eq a.recipient b.recipient
    && eq_ℤ a.amount_atomic b.amount_atomic
    && same_option str_eq a.ephemeral_pub_key b.ephemeral_pub_key
    && same_option str_eq a.denomination_atomic b.denomination_atomic
    && leg_tag a.state == leg_tag b.state
    && a.attempts == b.attempts
    && str_eq a.logical_id b.logical_id
    && a.gen == b.gen
    && same_option str_eq a.signed_tx b.signed_tx
    && same_option str_eq a.tx_id b.tx_id
    && same_option same_nat a.nonce b.nonce
    && same_option same_nat a.last_valid_block_height b.last_valid_block_height
    && same_option same_nat a.context_slot b.context_slot
    && same_option same_chain a.chain_status b.chain_status
    && same_option same_mode a.mode b.mode
    && same_option str_eq a.transaction_hash b.transaction_hash
    && same_option same_nat a.terminal_at b.terminal_at
    && same_option same_nat a.broadcast_at b.broadcast_at
    && same_option same_nat a.landed_block b.landed_block

abbrev same_legs_of : List PendingPayoutLeg → List PendingPayoutLeg → Bool
same_legs_of [] [] = true
same_legs_of [] (_ ∷ _) = false
same_legs_of (_ ∷ _) [] = false
same_legs_of (a ∷ as') (b ∷ bs) = same_leg a b && same_legs_of as' bs

-- `JSON.stringify(existing) === JSON.stringify(group)`, for groups whose keys have one order.
abbrev pub same_group : PendingPayoutGroup → PendingPayoutGroup → Bool
same_group a b =
    str_eq a.group_ref b.group_ref
    && str_eq a.owner_tag b.owner_tag
    && str_eq a.network b.network
    && str_eq a.asset b.asset
    && strategy_tag a.strategy == strategy_tag b.strategy
    && str_eq a.plan_hash b.plan_hash
    && same_legs_of a.legs b.legs
    && group_tag a.group_state == group_tag b.group_state
    && a.created_at == b.created_at
    && same_option same_nat a.terminal_at b.terminal_at
    && same_option same_nat a.max_hold_ms b.max_hold_ms
    && same_option same_nat a.evidence_counted_at b.evidence_counted_at

-- Writes the file; if that fails, the clone of the earlier state comes back.
abbrev pub persist_pending : Write → List PendingPayoutGroup → PendingAction (Unit {0})
persist_pending write_done next w = (ok tt, record { memory = next; disk = next })
persist_pending (write_failed replaced) next w =
    (err persist_failed, record w { disk = on_disk replaced next w.disk })

-- The same after the check of the new state.
abbrev pub checked_write :
    Write → List PendingPayoutGroup → Result PendingError (List String) → PendingAction (Unit {0})
checked_write persists next (err e) w = (err e, w)
checked_write persists next (ok _) w = persist_pending persists next w

abbrev pub assert_and_persist : Write → List PendingPayoutGroup → PendingAction (Unit {0})
assert_and_persist persists next = checked_write persists next (assert_pending next)

abbrev pub put_by :
    Write → PendingPayoutGroup → Option PendingPayoutGroup → PendingAction (Unit {0})
put_by persists group (some existing) =
    throw_if (not (same_group existing group)) group_exists_different
put_by persists group none = do
  gs ← gets (λ w. w.memory)
  assert_and_persist persists (gs ++ group ∷ [])

-- `putGroup`
unfoldable pub put_group : Write → PendingPayoutGroup → PendingAction (Unit {0})
put_group persists group = do
  gs ← gets (λ w. w.memory)
  put_by persists group (by_ref group.group_ref gs)

abbrev pub stale : Option ℕ → PendingPayoutLeg → Bool
stale none leg = false
stale (some gen) leg = not (leg.gen == gen)

abbrev pub moves_index : Option ℕ → ℕ → Bool
moves_index none current = false
moves_index (some new) current = not (new == current)

abbrev pub moves_ref : Option String → String → Bool
moves_ref none current = false
moves_ref (some new) current = not (str_eq new current)

abbrev pub patched_legs : ℕ → LegPatch → List PendingPayoutLeg → List PendingPayoutLeg
patched_legs index patch legs = update_first (has_index index) (apply_patch patch) legs

abbrev pub patch_group : ℕ → LegPatch → PendingPayoutGroup → PendingPayoutGroup
patch_group index patch g = record g { legs = patched_legs index patch g.legs }

abbrev pub patched : String → ℕ → LegPatch → List PendingPayoutGroup → List PendingPayoutGroup
patched group_ref index patch gs = update_first (has_ref group_ref) (patch_group index patch) gs

abbrev pub write_patched : Write → String → ℕ → LegPatch → PendingAction Bool
write_patched persists group_ref index patch = do
  gs ← gets (λ w. w.memory)
  assert_and_persist persists (patched group_ref index patch gs)
  pure true

abbrev pub write_leg : Write → String → ℕ → LegPatch → PendingPayoutLeg → PendingAction Bool
write_leg persists group_ref index patch leg = do
  throw_if (moves_index patch.index leg.index) index_immutable
  throw_if (moves_ref patch.payout_ref leg.payout_ref) ref_immutable
  throw_if (moves_ref patch.logical_id leg.logical_id) logical_id_immutable
  write_patched persists group_ref index patch

abbrev pub update_found_leg :
    Write → String → ℕ → LegPatch → Option ℕ → Option PendingPayoutLeg → PendingAction Bool
update_found_leg persists group_ref index patch expect_gen none = throw leg_not_found
update_found_leg persists group_ref index patch expect_gen (some leg) =
    if stale expect_gen leg then pure false else write_leg persists group_ref index patch leg

abbrev pub update_found_group :
    Write → String → ℕ → LegPatch → Option ℕ → Option PendingPayoutGroup → PendingAction Bool
update_found_group persists group_ref index patch expect_gen none = throw group_not_found
update_found_group persists group_ref index patch expect_gen (some g) =
    update_found_leg persists group_ref index patch expect_gen (find (has_index index) g.legs)

-- `updateLeg`
unfoldable pub update_leg : Write → String → ℕ → LegPatch → Option ℕ → PendingAction Bool
update_leg persists group_ref index patch expect_gen = do
  gs ← gets (λ w. w.memory)
  update_found_group persists group_ref index patch expect_gen (by_ref group_ref gs)
