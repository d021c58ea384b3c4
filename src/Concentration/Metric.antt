-- ===== src/Concentration/Metric.antt =====
-- `laneKeyFor`, `anonymityByLane`, `computeKEff` and `distinctGroupCount`. A lane is a text or
-- absent: the source's check for `undefined` guards against untyped callers.
use px.Prelude.{
  ℕ, String, Option, none, some, List, [], ◌∷◌, ◌++◌, map, any, length, or_else, ltb, if◌then◌else◌,
}
use px.Prelude.Text.{str_eq, ◌<>◌}
use px.Prelude.Dict.{Dict, lookup, insert}

pub record ConcentrationLeg : Type 0 where
  pub group_ref : String
  pub owner_ref : String
  pub denomination_atomic : Option String
  pub lane_key : Option String

unfoldable pub lane_key_for : String → String → Option String → Option String
lane_key_for network asset none = none
lane_key_for network asset (some denomination) =
    some (network <> ":" <> asset <> ":" <> denomination)

-- `Set.add`
abbrev pub add_owner : String → List String → List String
add_owner owner owners = if any (str_eq owner) owners then owners else owners ++ owner ∷ []

abbrev pub add_to_lane : String → Option String → Dict (List String) → Dict (List String)
add_to_lane owner none by_lane = by_lane
add_to_lane owner (some lane) by_lane =
    insert lane (add_owner owner (or_else (lookup lane by_lane) [])) by_lane

-- The loop that fills `ownersByLane`.
unfoldable pub owners_by_lane : List ConcentrationLeg → Dict (List String) → Dict (List String)
owners_by_lane [] by_lane = by_lane
owners_by_lane (leg ∷ legs) by_lane =
    owners_by_lane legs (add_to_lane leg.owner_ref leg.lane_key by_lane)

abbrev pub set_size : Option (List String) → ℕ
set_size none = 1
set_size (some owners) = length owners

-- `A(leg)`, from the filled map; a leg with no lane is alone.
unfoldable pub leg_anonymity : Dict (List String) → Option String → ℕ
leg_anonymity by_lane none = 1
leg_anonymity by_lane (some lane) = set_size (lookup lane by_lane)

unfoldable pub anonymity_by_leg : List ConcentrationLeg → List ℕ
anonymity_by_leg legs =
    let by_lane = owners_by_lane legs [] in map (λ leg. leg_anonymity by_lane leg.lane_key) legs

unfoldable pub anonymity_by_lane : List ConcentrationLeg → Dict ℕ
anonymity_by_lane legs = map (λ e. (e.0, length e.1)) (owners_by_lane legs [])

-- The loop of `computeKEff`; `none` is the initial infinity.
unfoldable pub minimum_of : Option ℕ → List ℕ → Option ℕ
minimum_of least [] = least
minimum_of none (a ∷ as') = minimum_of (some a) as'
minimum_of (some least) (a ∷ as') = minimum_of (some (if ltb a least then a else least)) as'

unfoldable pub compute_k_eff : List ConcentrationLeg → ℕ
compute_k_eff [] = 0
compute_k_eff (leg ∷ legs) = or_else (minimum_of none (anonymity_by_leg (leg ∷ legs))) 0

abbrev distinct : List String → List String → List String
distinct seen [] = seen
distinct seen (x ∷ xs) = distinct (add_owner x seen) xs

pub distinct_group_count : List ConcentrationLeg → ℕ
distinct_group_count legs = length (distinct [] (map (λ leg. leg.group_ref) legs))
