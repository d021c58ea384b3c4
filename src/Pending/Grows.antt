-- ===== src/Pending/Grows.antt =====
-- Generations of legs never fall: how a state's groups lie in a later state.
use px.Prelude.{
  ℕ, ◌≤◌, String, ◌≡◌, refl, ◌∙◌, ap, Bool, Option, none, some, List, [], ◌∷◌, ◌++◌, map, find,
  update_first, Bool-cases, arith, inl, inr, ◌==◌,
}
use px.Prelude.Text.{str_eq}
use px.Pending.State.{PendingPayoutLeg, PendingPayoutGroup}
use px.Pending.Methods.{has_index, by_ref}

abbrev pub LegGrows : PendingPayoutLeg → PendingPayoutLeg → Type 0
LegGrows leg leg' =
    (leg'.index ≡ leg.index) × (leg.gen ≤ leg'.gen) × (leg'.payout_ref ≡ leg.payout_ref)

abbrev pub LegsGrow : List PendingPayoutLeg → List PendingPayoutLeg → Type 0
LegsGrow [] [] = Unit
LegsGrow [] (_ ∷ _) = ⊥
LegsGrow (_ ∷ _) [] = ⊥
LegsGrow (leg ∷ legs) (leg' ∷ legs') = LegGrows leg leg' × LegsGrow legs legs'

abbrev pub GroupGrows : PendingPayoutGroup → PendingPayoutGroup → Type 0
GroupGrows g g' = (g'.group_ref ≡ g.group_ref) × LegsGrow g.legs g'.legs

-- Groups may be added behind.
abbrev pub GroupsGrow : List PendingPayoutGroup → List PendingPayoutGroup → Type 0
GroupsGrow [] gs' = Unit
GroupsGrow (_ ∷ _) [] = ⊥
GroupsGrow (g ∷ gs) (g' ∷ gs') = GroupGrows g g' × GroupsGrow gs gs'

LegsGrow-refl : (legs : List PendingPayoutLeg) → LegsGrow legs legs
LegsGrow-refl [] = tt
LegsGrow-refl (leg ∷ legs) = ((refl, omega arith, refl), LegsGrow-refl legs)

pub GroupsGrow-refl : (gs : List PendingPayoutGroup) → GroupsGrow gs gs
GroupsGrow-refl [] = tt
GroupsGrow-refl (g ∷ gs) = ((refl, LegsGrow-refl g.legs), GroupsGrow-refl gs)

pub GroupsGrow-append : (gs more : List PendingPayoutGroup) → GroupsGrow gs (gs ++ more)
GroupsGrow-append [] more = tt
GroupsGrow-append (g ∷ gs) more = ((refl, LegsGrow-refl g.legs), GroupsGrow-append gs more)

pub same_legs-GroupGrows :
    (g g' : PendingPayoutGroup) → g'.group_ref ≡ g.group_ref → g'.legs ≡ g.legs → GroupGrows g g'
same_legs-GroupGrows g g' e f = (e, rw f (LegsGrow-refl g.legs))

pub GroupsGrow-map :
    (f : PendingPayoutGroup → PendingPayoutGroup) (gs : List PendingPayoutGroup)
    → ((g : PendingPayoutGroup) → GroupGrows g (f g))
    → GroupsGrow gs (map f gs)
GroupsGrow-map f [] h = tt
GroupsGrow-map f (g ∷ gs) h = (h g, GroupsGrow-map f gs h)

-- An update that lets the element found grow.
pub LegsGrow-update_first :
    (p : PendingPayoutLeg → Bool) (f : PendingPayoutLeg → PendingPayoutLeg)
    (legs : List PendingPayoutLeg)
    → ((leg : PendingPayoutLeg) → find p legs ≡ some leg → LegGrows leg (f leg))
    → LegsGrow legs (update_first p f legs)
LegsGrow-update_first p f [] h = tt
LegsGrow-update_first p f (leg ∷ legs) h = elim (Bool-cases (p leg)) [
  | inl e ↦ rw e (h leg (rw e refl), LegsGrow-refl legs)
  | inr e ↦ rw e ((refl, omega arith, refl), LegsGrow-update_first p f legs (λ l k. h l (rw e k)))
]

pub GroupsGrow-update_first :
    (p : PendingPayoutGroup → Bool) (f : PendingPayoutGroup → PendingPayoutGroup)
    (gs : List PendingPayoutGroup)
    → ((g : PendingPayoutGroup) → find p gs ≡ some g → GroupGrows g (f g))
    → GroupsGrow gs (update_first p f gs)
GroupsGrow-update_first p f [] h = tt
GroupsGrow-update_first p f (g ∷ gs) h = elim (Bool-cases (p g)) [
  | inl e ↦ rw e (h g (rw e refl), GroupsGrow-refl gs)
  | inr e ↦
      rw e ((refl, LegsGrow-refl g.legs), GroupsGrow-update_first p f gs (λ x k. h x (rw e k)))
]

abbrev leg_of : ℕ → Option PendingPayoutGroup → Option PendingPayoutLeg
leg_of index none = none
leg_of index (some g) = find (has_index index) g.legs

-- The leg that a group's reference and an index name.
abbrev pub leg_at : String → ℕ → List PendingPayoutGroup → Option PendingPayoutLeg
leg_at group_ref index gs = leg_of index (by_ref group_ref gs)

-- That leg is there and its generation is no less than a number.
abbrev pub AtLeast : String → ℕ → ℕ → List PendingPayoutGroup → Type 0
AtLeast group_ref index n gs =
    (leg : PendingPayoutLeg) × (leg_at group_ref index gs ≡ some leg) × (n ≤ leg.gen)

-- That leg is there and pays out a reference.
abbrev pub Named : String → ℕ → String → List PendingPayoutGroup → Type 0
Named group_ref index payout_ref gs =
    (leg : PendingPayoutLeg) × (leg_at group_ref index gs ≡ some leg)
    × (leg.payout_ref ≡ payout_ref)

legs_found :
    (index n : ℕ) (legs legs' : List PendingPayoutLeg) (leg : PendingPayoutLeg)
    → LegsGrow legs legs'
    → find (has_index index) legs ≡ some leg
    → n ≤ leg.gen
    → (leg' : PendingPayoutLeg) × (find (has_index index) legs' ≡ some leg')
      × (n ≤ leg'.gen)
      × (leg'.payout_ref ≡ leg.payout_ref)
legs_found index n [] legs' leg grows e h = cc
legs_found index n (l ∷ legs) [] leg grows e h = absurd grows
legs_found index n (l ∷ legs) (l' ∷ legs') leg ((same, le, ref), rest) e h =
    elim (Bool-cases (l.index == index)) [
      | inl here ↦
          let found : l ≡ leg = ground arith in
          let le' : l.gen ≤ l'.gen = le in
          let gens : l.gen ≡ leg.gen = ap (λ x. x.gen) found in
          let refs : l.payout_ref ≡ leg.payout_ref = ap (λ x. x.payout_ref) found in
          (l', rw (same, here), omega arith, ref ∙ refs)
      | inr later ↦
          let (leg', f, k, r) = legs_found index n legs legs' leg rest (ground arith) h in
          (leg', rw (same, later, f), k, r)
    ]

leg_at-GroupsGrow :
    (group_ref : String) (index n : ℕ) (gs gs' : List PendingPayoutGroup) (leg : PendingPayoutLeg)
    → leg_at group_ref index gs ≡ some leg
    → n ≤ leg.gen
    → GroupsGrow gs gs'
    → (leg' : PendingPayoutLeg) × (leg_at group_ref index gs' ≡ some leg')
      × (n ≤ leg'.gen)
      × (leg'.payout_ref ≡ leg.payout_ref)
leg_at-GroupsGrow group_ref index n [] gs' leg e h grows = cc
leg_at-GroupsGrow group_ref index n (g ∷ gs) [] leg e h grows = absurd grows
leg_at-GroupsGrow group_ref index n (g ∷ gs) (g' ∷ gs') leg e h ((same, legs), rest) =
    elim (Bool-cases (str_eq g.group_ref group_ref)) [
      | inl here ↦
          let (leg', f, k, r) = legs_found index n g.legs g'.legs leg legs (ground arith) h in
          (leg', rw (same, here, f), k, r)
      | inr later ↦
          let (leg', f, k, r) =
            leg_at-GroupsGrow group_ref index n gs gs' leg (ground arith) h rest in
          (leg', rw (same, later, f), k, r)
    ]

pub AtLeast-GroupsGrow :
    (group_ref : String) (index n : ℕ) (gs gs' : List PendingPayoutGroup)
    → AtLeast group_ref index n gs
    → GroupsGrow gs gs'
    → AtLeast group_ref index n gs'
AtLeast-GroupsGrow group_ref index n gs gs' (leg, e, h) grows =
    let (leg', f, k, r) = leg_at-GroupsGrow group_ref index n gs gs' leg e h grows in (leg', f, k)

pub Named-GroupsGrow :
    (group_ref : String) (index : ℕ) (payout_ref : String) (gs gs' : List PendingPayoutGroup)
    → Named group_ref index payout_ref gs
    → GroupsGrow gs gs'
    → Named group_ref index payout_ref gs'
Named-GroupsGrow group_ref index payout_ref gs gs' (leg, e, h) grows =
    let (leg', f, k, r) = leg_at-GroupsGrow group_ref index 0 gs gs' leg e (omega arith) grows in
    (leg', f, r ∙ h)
