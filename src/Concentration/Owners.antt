-- ===== src/Concentration/Owners.antt =====
-- What k_eff counts: distinct paying accounts of a lane, and the least of these over the legs.
use px.Prelude.{
  String, ◌≡◌, refl, ap, ◌∙◌, inl, inr, Bool, true, false, ◌&&◌, ◌||◌, not, Option, none, some,
  List, [], ◌∷◌, ◌++◌, any, length, or_else, Bool-cases, arith, if◌then◌else◌,
}
use px.Prelude.Text.{str_eq, str_eq_iff, str_eq_refl}
use px.Prelude.Dict.{Dict, lookup, lookup-insert, lookup-nil}
use px.Concentration.Metric.{
  ConcentrationLeg, add_owner, add_to_lane, owners_by_lane, set_size, leg_anonymity,
}

abbrev pub in_lane : String → Option String → Bool
in_lane lane none = false
in_lane lane (some k) = str_eq k lane

-- The owners of one lane, gathered in order.
lane_owners : String → List String → List ConcentrationLeg → List String
lane_owners lane seen [] = seen
lane_owners lane seen (leg ∷ legs) =
    lane_owners lane (if in_lane lane leg.lane_key then add_owner leg.owner_ref seen else seen) legs

add_to_lane-lookup :
    (lane owner : String) (key : Option String) (d : Dict (List String))
    → or_else (lookup lane (add_to_lane owner key d)) [] ≡ (
        if in_lane lane key
        then add_owner owner (or_else (lookup lane d) [])
        else or_else (lookup lane d) [])
add_to_lane-lookup lane owner none d = refl
add_to_lane-lookup lane owner (some k) d =
    let law = lookup-insert k lane (add_owner owner (or_else (lookup k d) [])) d in
    elim (Bool-cases (str_eq k lane)) [
      | inl e ↦ rw (law, e, (str_eq_iff k lane).0 e)
      | inr e ↦ rw (law, e)
    ]

-- The map holds for each lane the owners of its legs.
owners_by_lane-lookup :
    (lane : String) (legs : List ConcentrationLeg) (d : Dict (List String))
    → or_else (lookup lane (owners_by_lane legs d)) []
      ≡ lane_owners lane (or_else (lookup lane d) []) legs
unfolding owners_by_lane lane_owners
owners_by_lane-lookup lane [] d = refl
owners_by_lane-lookup lane (leg ∷ legs) d =
    owners_by_lane-lookup lane legs (add_to_lane leg.owner_ref leg.lane_key d)
    ∙ rw (add_to_lane-lookup lane leg.owner_ref leg.lane_key d)

abbrev pub no_repeats : List String → Bool
no_repeats [] = true
no_repeats (x ∷ xs) = not (any (str_eq x) xs) && no_repeats xs

any-concat :
    (o x : String) (xs : List String)
    → any (str_eq o) (xs ++ x ∷ []) ≡ (any (str_eq o) xs || str_eq o x)
any-concat o x [] = ground arith
any-concat o x (y ∷ xs) = ground (arith, any-concat o x xs)

no_repeats-concat :
    (x : String) (xs : List String)
    → no_repeats xs ≡ true
    → any (str_eq x) xs ≡ false
    → no_repeats (xs ++ x ∷ []) ≡ true
no_repeats-concat x [] h f = refl
no_repeats-concat x (y ∷ xs) h f =
    ground (arith, any-concat y x xs, no_repeats-concat x xs, str_eq_iff x y, str_eq_iff y x)

any-add_owner :
    (o x : String) (xs : List String)
    → any (str_eq o) (add_owner x xs) ≡ (any (str_eq o) xs || str_eq o x)
any-add_owner o x xs = elim (Bool-cases (any (str_eq x) xs)) [
  | inl e ↦ rw e (elim (Bool-cases (str_eq o x)) [
    | inl same ↦ rw ((str_eq_iff o x).0 same) (ground arith)
    | inr other ↦ rw other (ground arith)
  ])
  | inr e ↦ rw e (any-concat o x xs)
]

no_repeats-add_owner :
    (x : String) (xs : List String) → no_repeats xs ≡ true → no_repeats (add_owner x xs) ≡ true
no_repeats-add_owner x xs h = elim (Bool-cases (any (str_eq x) xs)) [
  | inl e ↦ rw e h
  | inr e ↦ rw e (no_repeats-concat x xs h e)
]

abbrev pub owns_in_lane : String → String → ConcentrationLeg → Bool
owns_in_lane lane owner leg = in_lane lane leg.lane_key && str_eq owner leg.owner_ref

lane_owners_lem :
    (lane o : String) (seen : List String) (legs : List ConcentrationLeg)
    → no_repeats seen ≡ true
    → (any (str_eq o) (lane_owners lane seen legs)
        ≡ (any (str_eq o) seen || any (owns_in_lane lane o) legs))
      × (no_repeats (lane_owners lane seen legs) ≡ true)
unfolding lane_owners
lane_owners_lem lane o seen [] h = (ground arith, h)
lane_owners_lem lane o seen (leg ∷ legs) h = elim (Bool-cases (in_lane lane leg.lane_key)) [
  | inl e ↦ rw e (
      let (m, n) =
        lane_owners_lem lane o (add_owner leg.owner_ref seen) legs
          (no_repeats-add_owner leg.owner_ref seen h) in
      (ground (arith, m, any-add_owner o leg.owner_ref seen), n))
  | inr e ↦ rw e (lane_owners_lem lane o seen legs h)
]

lane_has_owner :
    (lane : String) (legs : List ConcentrationLeg)
    → any (λ leg. in_lane lane leg.lane_key) legs ≡ true
    → (o : String) × (any (owns_in_lane lane o) legs ≡ true)
lane_has_owner lane [] h = cc
lane_has_owner lane (leg ∷ legs) h = elim (Bool-cases (in_lane lane leg.lane_key)) [
  | inl e ↦ (leg.owner_ref, rw (e, str_eq_refl leg.owner_ref))
  | inr e ↦ let (o, m) = lane_has_owner lane legs (rw e at h) in (o, ground (arith, m))
]

-- The size that is read for a lane is that of its set of owners, if it has one.
set_size_of_member :
    (o : String) (found : Option (List String))
    → any (str_eq o) (or_else found []) ≡ true
    → set_size found ≡ length (or_else found [])
set_size_of_member o none h = cc
set_size_of_member o (some owners) h = refl

-- The anonymity of a leg in a lane is the number of distinct accounts that pay for a leg of that
-- lane in the window: a list without repetitions holds an account exactly when it pays for one.
pub leg_anonymity-counts_owners :
    (lane : String) (legs : List ConcentrationLeg)
    → any (λ leg. in_lane lane leg.lane_key) legs ≡ true
    → (owners : List String) × (leg_anonymity (owners_by_lane legs []) (some lane) ≡ length owners)
      × (no_repeats owners ≡ true)
      × ((o : String) → any (str_eq o) owners ≡ any (owns_in_lane lane o) legs)
unfolding leg_anonymity
leg_anonymity-counts_owners lane legs h =
    let (o, m) = lane_has_owner lane legs h in
    let law = owners_by_lane-lookup lane legs [] ∙ rw (lookup-nil {V = List String} lane) in
    let members = λ (p : String). lane_owners_lem lane p [] legs refl in
    (
      lane_owners lane [] legs,
      set_size_of_member o (lookup lane (owners_by_lane legs [])) (rw law ((members o).0 ∙ m))
          ∙ ap length law,
      (members o).1,
      λ p. (members p).0,
    )
