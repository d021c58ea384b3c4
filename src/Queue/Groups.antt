-- ===== src/Queue/Groups.antt =====
-- What the state of a group says of its legs.
use px.Prelude.{
  ℕ, ◌≡◌, refl, Bool, true, false, ◌&&◌, ◌||◌, ◌==◌, List, [], ◌∷◌, any, all, arith, if◌then◌else◌,
}
use px.Pending.State.{LegState, GroupState}
use px.Pending.Methods.{group_tag}
use px.Queue.Verdicts.{is_terminal_leg, is_state, derived_state, is_final_group}

-- A doubtful leg is not terminal, and legs that are all of one terminal state are all terminal.
not_all_terminal :
    (states : List LegState) → any (is_state 4) states ≡ true → all is_terminal_leg states ≡ false
not_all_terminal [] h = cc
not_all_terminal (s ∷ states) h = ground (arith, not_all_terminal states)

all_of_one :
    (tag : ℕ) (states : List LegState)
    → ((tag == 2) || (tag == 3)) ≡ true
    → all (is_state tag) states ≡ true
    → all is_terminal_leg states ≡ true
all_of_one tag [] e h = refl
all_of_one tag (s ∷ states) e h = ground (arith, all_of_one tag states)

-- Terminal legs without a failed one have all settled.
all_settled :
    (states : List LegState)
    → all is_terminal_leg states ≡ true
    → any (is_state 3) states ≡ false
    → all (is_state 2) states ≡ true
all_settled [] h f = refl
all_settled (s ∷ states) h f = ground (arith, all_settled states)

not_all_settled :
    (states : List LegState) → any (is_state 4) states ≡ true → all (is_state 2) states ≡ false
not_all_settled [] h = cc
not_all_settled (s ∷ states) h = ground (arith, not_all_settled states)

-- The choice of `derived_state`, of the outcomes of its tests.
abbrev chosen : Bool → Bool → Bool → Bool → Bool → Bool → GroupState
chosen doubt settled failed over some_failed moving =
    if doubt
    then GroupState.uncertain
    else if settled
    then GroupState.settled
    else if failed
    then GroupState.failed
    else if over && some_failed
    then GroupState.partial
    else if moving
    then GroupState.in_flight
    else GroupState.queued

Says : Bool → Bool → Bool → GroupState → Type 0
Says doubt settled over state =
    (is_final_group state ≡ over)
    × ((group_tag state == 5) ≡ doubt)
    × ((group_tag state == 2) ≡ settled)

chosen_lem :
    (doubt settled failed over some_failed moving : Bool)
    → (doubt ≡ true → over ≡ false)
    → (doubt ≡ true → settled ≡ false)
    → (settled ≡ true → over ≡ true)
    → (failed ≡ true → over ≡ true)
    → (over ≡ true → some_failed ≡ false → settled ≡ true)
    → Says doubt settled over (chosen doubt settled failed over some_failed moving)
unfolding Says
chosen_lem true settled failed over some_failed moving a b c d e = (rw (a refl), refl, rw (b refl))
chosen_lem false true failed over some_failed moving a b c d e = (rw (c refl), refl, refl)
chosen_lem false false true over some_failed moving a b c d e = (rw (d refl), refl, refl)
chosen_lem false false false true true moving a b c d e = (refl, refl, refl)
chosen_lem false false false true false moving a b c d e = cc (e refl refl)
chosen_lem false false false false some_failed true a b c d e = (refl, refl, refl)
chosen_lem false false false false some_failed false a b c d e = (refl, refl, refl)

-- The state of a group is final exactly when every leg is, uncertain exactly when a leg is, and
-- settled exactly when every leg is.
pub derived_state-says :
    (states : List LegState)
    → (is_final_group (derived_state states) ≡ all is_terminal_leg states)
      × ((group_tag (derived_state states) == 5) ≡ any (is_state 4) states)
      × ((group_tag (derived_state states) == 2) ≡ all (is_state 2) states)
unfolding derived_state Says
derived_state-says states =
    chosen_lem (any (is_state 4) states) (all (is_state 2) states) (all (is_state 3) states)
      (all is_terminal_leg states) (any (is_state 3) states) (any (is_state 1) states)
      (not_all_terminal states) (not_all_settled states) (all_of_one 2 states refl)
      (all_of_one 3 states refl) (all_settled states)
