-- ===== src/Concentration/Least.antt =====
-- k_eff is the least anonymity over the legs, and groups play no part in it.
use mathlib.Core.Path.{subst}
use px.Prelude.{
  some_injective, ℕ, ◌≤◌, String, ◌≡◌, refl, sym, ap, ◌∙◌, le→leb, inl, inr, Bool, true, false,
  ◌||◌, Option, none, some, List, [], ◌∷◌, map, any, all, length, or_else, ltb, leb, ◌==◌,
  Bool-cases, Option-cases, arith,
}
use px.Prelude.Dict.{Dict, lookup, all-insert, all-lookup}
use px.Concentration.Metric.{
  ConcentrationLeg, add_owner, add_to_lane, owners_by_lane, leg_anonymity, anonymity_by_leg,
  minimum_of, compute_k_eff,
}

minimum_of_lem :
    (m : ℕ) (xs : List ℕ)
    → (r : ℕ) × (minimum_of (some m) xs ≡ some r)
      × (r ≤ m)
      × (all (leb r) xs ≡ true)
      × ((r == m || any (◌==◌ r) xs) ≡ true)
unfolding minimum_of
minimum_of_lem m [] = (m, refl, omega arith, refl, ground arith)
minimum_of_lem m (x ∷ xs) = elim (Bool-cases (ltb x m)) [
  | inl e ↦
      let (r, eq, le, low, hit) = minimum_of_lem x xs in
      (r, rw e eq, ground arith, ground arith, ground arith)
  | inr e ↦
      let (r, eq, le, low, hit) = minimum_of_lem m xs in
      (r, rw e eq, le, ground arith, ground arith)
]

minimum_least :
    (k x : ℕ) (xs : List ℕ)
    → minimum_of (some x) xs ≡ some k
    → (all (leb k) (x ∷ xs) ≡ true) × (any (◌==◌ k) (x ∷ xs) ≡ true)
minimum_least k x xs e =
    let (r, eq, le, low, hit) = minimum_of_lem x xs in
    let same : r ≡ k = some_injective (sym eq ∙ e) in
    subst (λ t. (all (leb t) (x ∷ xs) ≡ true) × (any (◌==◌ t) (x ∷ xs) ≡ true)) same
      (rw (le→leb _ _ le) low, hit)

minimum_there :
    (x : ℕ) (xs : List ℕ) → minimum_of (some x) xs ≡ some (or_else (minimum_of (some x) xs) 0)
minimum_there x xs = let (r, eq, le, low, hit) = minimum_of_lem x xs in rw eq

-- k_eff of a window is the anonymity of one of its legs, and at most that of every leg.
pub compute_k_eff-least :
    (leg : ConcentrationLeg) (legs : List ConcentrationLeg)
    → (all (leb (compute_k_eff (leg ∷ legs))) (anonymity_by_leg (leg ∷ legs)) ≡ true)
      × (any (◌==◌ (compute_k_eff (leg ∷ legs))) (anonymity_by_leg (leg ∷ legs)) ≡ true)
unfolding compute_k_eff anonymity_by_leg minimum_of
compute_k_eff-least leg legs =
    let by_lane = owners_by_lane (leg ∷ legs) [] in
    let a = leg_anonymity by_lane leg.lane_key in
    let rest = map (λ l. leg_anonymity by_lane l.lane_key) legs in
    minimum_least (compute_k_eff (leg ∷ legs)) a rest (minimum_there a rest)

abbrev has_owner : String × List String → Bool
has_owner e = leb 1 (length e.1)

add_owner-pos : (o : String) (xs : List String) → leb 1 (length (add_owner o xs)) ≡ true
add_owner-pos o [] = refl
add_owner-pos o (x ∷ xs) = ground arith

owners_by_lane-pos :
    (legs : List ConcentrationLeg) (d : Dict (List String))
    → all has_owner d ≡ true
    → all has_owner (owners_by_lane legs d) ≡ true
unfolding owners_by_lane
owners_by_lane-pos [] d h = h
owners_by_lane-pos (leg ∷ legs) d h =
    owners_by_lane-pos legs (add_to_lane leg.owner_ref leg.lane_key d) (go leg.lane_key)
  where
    go : (key : Option String) → all has_owner (add_to_lane leg.owner_ref key d) ≡ true
    go none = h
    go (some lane) =
        all-insert has_owner lane _ d h (add_owner-pos leg.owner_ref (or_else (lookup lane d) []))

leg_anonymity-pos :
    (d : Dict (List String)) (key : Option String)
    → all has_owner d ≡ true
    → leb 1 (leg_anonymity d key) ≡ true
unfolding leg_anonymity
leg_anonymity-pos d none h = refl
leg_anonymity-pos d (some lane) h = elim (Option-cases (lookup lane d)) [
  | inl e ↦ rw e
  | inr (owners, e) ↦ rw e (all-lookup has_owner lane owners d h e)
]

all_anonymity-pos :
    (d : Dict (List String)) (legs : List ConcentrationLeg)
    → all has_owner d ≡ true
    → all (leb 1) (map (λ l. leg_anonymity d l.lane_key) legs) ≡ true
all_anonymity-pos d [] h = refl
all_anonymity-pos d (leg ∷ legs) h =
    rw (leg_anonymity-pos d leg.lane_key h, all_anonymity-pos d legs h)

any_eq-of_all : (k : ℕ) (xs : List ℕ) → all (leb 1) xs ≡ true → any (◌==◌ k) xs ≡ true → 1 ≤ k
any_eq-of_all k [] h e = cc
any_eq-of_all k (x ∷ xs) h e = ground (arith, any_eq-of_all k xs)

-- k_eff is zero for the empty window alone.
pub compute_k_eff-pos :
    (leg : ConcentrationLeg) (legs : List ConcentrationLeg) → 1 ≤ compute_k_eff (leg ∷ legs)
compute_k_eff-pos leg legs =
    any_eq-of_all _ (anonymity_by_leg (leg ∷ legs))
      (unfold anonymity_by_leg in
        all_anonymity-pos (owners_by_lane (leg ∷ legs) []) (leg ∷ legs)
          (owners_by_lane-pos (leg ∷ legs) [] refl))
      (compute_k_eff-least leg legs).1

-- A window in which a leg has no lane.
abbrev pub is_exact : ConcentrationLeg → Bool
is_exact leg = elim leg.lane_key [ none ↦ true | some _ ↦ false ]

exact-anonymity :
    (k : ℕ) (d : Dict (List String)) (legs : List ConcentrationLeg)
    → any is_exact legs ≡ true
    → all (leb k) (map (λ l. leg_anonymity d l.lane_key) legs) ≡ true
    → k ≤ 1
unfolding leg_anonymity
exact-anonymity k d [] h a = cc
exact-anonymity k d (leg ∷ legs) h a = ground (arith, exact-anonymity k d legs)

-- One exact leg brings the k_eff of the whole window to 1.
pub compute_k_eff-exact :
    (leg : ConcentrationLeg) (legs : List ConcentrationLeg)
    → any is_exact (leg ∷ legs) ≡ true
    → compute_k_eff (leg ∷ legs) ≡ 1
compute_k_eff-exact leg legs h = omega (
  arith,
  compute_k_eff-pos leg legs,
  exact-anonymity (compute_k_eff (leg ∷ legs)) (owners_by_lane (leg ∷ legs) []) (leg ∷ legs) h
      (unfold anonymity_by_leg in (compute_k_eff-least leg legs).0),
)

-- The same legs under other groups.
abbrev pub regroup : (ConcentrationLeg → String) → ConcentrationLeg → ConcentrationLeg
regroup f leg = record leg { group_ref = f leg }

owners_by_lane-regroup :
    (f : ConcentrationLeg → String) (legs : List ConcentrationLeg) (d : Dict (List String))
    → owners_by_lane (map (regroup f) legs) d ≡ owners_by_lane legs d
unfolding owners_by_lane
owners_by_lane-regroup f [] d = refl
owners_by_lane-regroup f (leg ∷ legs) d =
    owners_by_lane-regroup f legs (add_to_lane leg.owner_ref leg.lane_key d)

map-regroup :
    (f : ConcentrationLeg → String) (d : Dict (List String)) (legs : List ConcentrationLeg)
    → map (λ l. leg_anonymity d l.lane_key) (map (regroup f) legs)
      ≡ map (λ l. leg_anonymity d l.lane_key) legs
map-regroup f d [] = refl
map-regroup f d (leg ∷ legs) = ap (◌∷◌ (leg_anonymity d leg.lane_key)) (map-regroup f d legs)

anonymity-regroup :
    (f : ConcentrationLeg → String) (legs : List ConcentrationLeg)
    → anonymity_by_leg (map (regroup f) legs) ≡ anonymity_by_leg legs
unfolding anonymity_by_leg
anonymity-regroup f legs =
    ap (λ d. map (λ l. leg_anonymity d l.lane_key) (map (regroup f) legs))
      (owners_by_lane-regroup f legs [])
    ∙ map-regroup f (owners_by_lane legs []) legs

-- Splitting or merging groups, one withdrawal into many quotes, leaves k_eff as it is.
pub compute_k_eff-regroup :
    (f : ConcentrationLeg → String) (legs : List ConcentrationLeg)
    → compute_k_eff (map (regroup f) legs) ≡ compute_k_eff legs
unfolding compute_k_eff
compute_k_eff-regroup f [] = refl
compute_k_eff-regroup f (leg ∷ legs) =
    ap (λ v. or_else (minimum_of none v) 0) (anonymity-regroup f (leg ∷ legs))
