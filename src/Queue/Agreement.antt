-- ===== src/Queue/Agreement.antt =====
-- The journal and the ledger agree: a settled leg's payout is settled in the ledger, and a failed
-- leg's payout is gone from it. What an update of a leg does to that.
use px.Prelude.Action.{Write, write_done, write_failed}
use px.Prelude.{
  ℕ, String, ◌≡◌, refl, ◌⊎◌, inl, inr, Bool, true, false, Option, none, some, List, [], ◌∷◌, all,
  find, update_first, or_else, Bool-cases, arith,
}
use px.Prelude.Action.{Result, ok, err}
use px.Ledger.State.{Ledger, Config}
use px.Pending.State.{
  LegState, PendingPayoutLeg, PendingPayoutGroup, LegPatch, apply_patch, PendingWorld, PendingError,
  assert_pending,
}
use px.Pending.Methods.{
  has_ref, has_index, by_ref, patched, patch_group, update_leg, update_found_group,
  update_found_leg, stale, write_leg, write_patched, moves_index, moves_ref, checked_write,
  assert_and_persist,
}
use px.Pending.Grows.{leg_at}
use px.Pending.Refs.{world_after}
use px.Queue.Verdicts.{is_terminal_leg}
use px.Queue.Standing.{is_settled_in, is_gone_from, Follows}

abbrev pub state_agrees : Config → Ledger → String → LegState → Bool
state_agrees cfg s payout_ref LegState.queued = true
state_agrees cfg s payout_ref LegState.broadcasting = true
state_agrees cfg s payout_ref LegState.settled = is_settled_in cfg payout_ref s
state_agrees cfg s payout_ref LegState.failed = is_gone_from cfg payout_ref s
state_agrees cfg s payout_ref LegState.uncertain = true

abbrev pub leg_agrees : Config → Ledger → PendingPayoutLeg → Bool
leg_agrees cfg s leg = state_agrees cfg s leg.payout_ref leg.state

abbrev pub group_agrees : Config → Ledger → PendingPayoutGroup → Bool
group_agrees cfg s g = all (leg_agrees cfg s) g.legs

-- Every leg of the journal agrees with the ledger.
abbrev pub agree : Config → Ledger → List PendingPayoutGroup → Bool
agree cfg s gs = all (group_agrees cfg s) gs

state_agrees-Follows :
    (cfg : Config) (s s' : Ledger) (r : String) (state : LegState)
    → Follows cfg s s'
    → state_agrees cfg s r state ≡ true
    → state_agrees cfg s' r state ≡ true
state_agrees-Follows cfg s s' r LegState.queued f h = refl
state_agrees-Follows cfg s s' r LegState.broadcasting f h = refl
state_agrees-Follows cfg s s' r LegState.settled f h = f.settled_stays r h
state_agrees-Follows cfg s s' r LegState.failed f h = f.gone_stays r h
state_agrees-Follows cfg s s' r LegState.uncertain f h = refl

all_mono {ℓ} :
    {A : Type ℓ} (p q : A → Bool) (xs : List A)
    → ((x : A) → p x ≡ true → q x ≡ true)
    → all p xs ≡ true
    → all q xs ≡ true
all_mono p q [] h k = refl
all_mono p q (x ∷ xs) h k = ground (arith, h x, all_mono p q xs h)

pub agree-Follows :
    (cfg : Config) (s s' : Ledger) (gs : List PendingPayoutGroup)
    → Follows cfg s s'
    → agree cfg s gs ≡ true
    → agree cfg s' gs ≡ true
agree-Follows cfg s s' gs f h =
    all_mono (group_agrees cfg s) (group_agrees cfg s') gs
      (λ g.
        all_mono (leg_agrees cfg s) (leg_agrees cfg s') g.legs
          (λ leg. state_agrees-Follows cfg s s' leg.payout_ref leg.state f))
      h

-- An update of the element found that agrees.
all-update_found {ℓ} :
    {A : Type ℓ} (p q : A → Bool) (f : A → A) (xs : List A)
    → ((x : A) → find q xs ≡ some x → p x ≡ true → p (f x) ≡ true)
    → all p xs ≡ true
    → all p (update_first q f xs) ≡ true
all-update_found p q f [] h k = refl
all-update_found p q f (x ∷ xs) h k = elim (Bool-cases (q x)) [
  | inl e ↦
      let px : p x ≡ true = ground arith in
      let found = h x (rw e refl) px in ground (arith, e, found)
  | inr e ↦
      let rest = all-update_found p q f xs (λ y g. h y (rw e g)) in
      ground (arith, e, rest (ground arith))
]

pub agree-patched :
    (cfg : Config) (s : Ledger) (group_ref : String) (index : ℕ) (patch : LegPatch)
    (gs : List PendingPayoutGroup)
    → ((leg : PendingPayoutLeg)
        → leg_at group_ref index gs ≡ some leg
        → leg_agrees cfg s (apply_patch patch leg) ≡ true)
    → agree cfg s gs ≡ true
    → agree cfg s (patched group_ref index patch gs) ≡ true
agree-patched cfg s group_ref index patch gs h k =
    all-update_found (group_agrees cfg s) (has_ref group_ref) (patch_group index patch) gs
      (λ g e.
        all-update_found (leg_agrees cfg s) (has_index index) (apply_patch patch) g.legs
          (λ leg f a. h leg (rw (e, f) refl)))
      k

-- A patch to a state that is not terminal.
abbrev pub IsQuiet : LegPatch → Type 0
IsQuiet patch = (state : LegState) × (patch.state ≡ some state) × (is_terminal_leg state ≡ false)

quiet_state :
    (cfg : Config) (s : Ledger) (r : String) (state : LegState)
    → is_terminal_leg state ≡ false
    → state_agrees cfg s r state ≡ true
quiet_state cfg s r LegState.queued h = refl
quiet_state cfg s r LegState.broadcasting h = refl
quiet_state cfg s r LegState.settled h = cc
quiet_state cfg s r LegState.failed h = cc
quiet_state cfg s r LegState.uncertain h = refl

pub quiet_agrees :
    (cfg : Config) (s : Ledger) (patch : LegPatch) (leg : PendingPayoutLeg)
    → IsQuiet patch
    → leg_agrees cfg s (apply_patch patch leg) ≡ true
unfolding apply_patch
quiet_agrees cfg s patch leg (state, e, h) =
    rw e (quiet_state cfg s (or_else patch.payout_ref leg.payout_ref) state h)

-- A patch of the state alone to one that agrees with the ledger.
pub patched_agrees :
    (cfg : Config) (s : Ledger) (patch : LegPatch) (leg : PendingPayoutLeg) (r : String)
    (state : LegState)
    → patch.state ≡ some state
    → patch.payout_ref ≡ none
    → leg.payout_ref ≡ r
    → state_agrees cfg s r state ≡ true
    → leg_agrees cfg s (apply_patch patch leg) ≡ true
unfolding apply_patch
patched_agrees cfg s patch leg r state e f g h = rw (e, f, g) h

abbrev Became : String → ℕ → LegPatch → PendingWorld → PendingWorld → Type 0
Became group_ref index patch w w' =
    (w'.memory ≡ w.memory) ⊎ (w'.memory ≡ patched group_ref index patch w.memory)

-- An update of a leg writes its patch or nothing.
pub update_leg-Became :
    (persists : Write) (group_ref : String) (index : ℕ) (patch : LegPatch) (gen : Option ℕ)
    (w : PendingWorld)
    → Became group_ref index patch w (update_leg persists group_ref index patch gen w).1
unfolding update_leg
update_leg-Became persists group_ref index patch gen w = go (by_ref group_ref w.memory)
  where
    next : List PendingPayoutGroup
    next = patched group_ref index patch w.memory

    persisted :
        (persists : Write) (r : Result PendingError (List String))
        → Became group_ref index patch w (checked_write persists next r w).1
    persisted write_done (ok out) = inr refl
    persisted (write_failed replaced) (ok out) = inl refl
    persisted persists (err e) = inl refl

    written : Became group_ref index patch w (write_patched persists group_ref index patch w).1
    written =
        let (r, w') = assert_and_persist persists next w in
        rw (world_after {B = Bool} r true w') (persisted persists (assert_pending next))

    guarded :
        (leg : PendingPayoutLeg) (a b c : Bool)
        → moves_index patch.index leg.index ≡ a
        → moves_ref patch.payout_ref leg.payout_ref ≡ b
        → moves_ref patch.logical_id leg.logical_id ≡ c
        → Became group_ref index patch w (write_leg persists group_ref index patch leg w).1
    guarded leg true b c e f g = rw e (inl refl)
    guarded leg false true c e f g = rw (e, f) (inl refl)
    guarded leg false false true e f g = rw (e, f, g) (inl refl)
    guarded leg false false false e f g = rw (e, f, g) written

    leg_found :
        (found : Option PendingPayoutLeg)
        → Became group_ref index patch w
            (update_found_leg persists group_ref index patch gen found w).1
    leg_found none = inl refl
    leg_found (some leg) = elim (Bool-cases (stale gen leg)) [
      | inl old ↦ rw old (inl refl)
      | inr current ↦ rw current (
          guarded leg (moves_index patch.index leg.index)
            (moves_ref patch.payout_ref leg.payout_ref) (moves_ref patch.logical_id leg.logical_id)
            refl refl refl)
    ]

    go :
        (found : Option PendingPayoutGroup)
        → Became group_ref index patch w
            (update_found_group persists group_ref index patch gen found w).1
    go none = inl refl
    go (some g) = leg_found (find (has_index index) g.legs)

pub agree-with_state :
    (cfg : Config) (s : Ledger) (p : PendingPayoutGroup → Bool)
    (f : PendingPayoutGroup → PendingPayoutGroup) (gs : List PendingPayoutGroup)
    → ((g : PendingPayoutGroup) → (f g).legs ≡ g.legs)
    → agree cfg s gs ≡ true
    → agree cfg s (update_first p f gs) ≡ true
agree-with_state cfg s p f gs same h =
    all-update_found (group_agrees cfg s) p f gs (λ g e k. rw (same g) k) h
