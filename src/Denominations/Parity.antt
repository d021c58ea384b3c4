-- ===== src/Denominations/Parity.antt =====
-- `assertDenominationParity`: every network offers the same ladder in human units.
use px.Prelude.{
  ℕ, ◌*◌, ◌^◌, String, Bool, true, not, ◌&&◌, Option, none, some, List, [], ◌∷◌, length, ◌==◌,
  if◌then◌else◌,
}
use px.Prelude.Dict.{Dict, lookup}
use px.Denominations.Config.{
  DenominationConfig, DenominationError, decimals_unknown, legs_differ, tiers_differ, values_differ,
}

-- The networks in the sorted order of their names, each with its configuration.
abbrev pub Networks : Type 0
Networks = List (String × DenominationConfig)

-- `mine * referenceScale !== theirs * scale` at no index, for ladders of one length.
unfoldable pub ladders_match : ℕ → ℕ → List ℕ → List ℕ → Bool
ladders_match scale reference_scale [] _ = true
ladders_match scale reference_scale (_ ∷ _) [] = true
ladders_match scale reference_scale (mine ∷ xs) (theirs ∷ ys) =
    mine * reference_scale == theirs * scale && ladders_match scale reference_scale xs ys

-- The body of the loop over the other networks.
unfoldable pub compare_network :
    DenominationConfig → ℕ → DenominationConfig → ℕ → Option DenominationError
compare_network reference reference_scale config scale =
    if not (config.max_legs == reference.max_legs)
    then some legs_differ
    else if not (length config.denominations_atomic == length reference.denominations_atomic)
    then some tiers_differ
    else if not (
        ladders_match scale reference_scale config.denominations_atomic
          reference.denominations_atomic)
    then some values_differ
    else none

abbrev pub first_error :
    Option DenominationError → Option DenominationError → Option DenominationError
first_error none later = later
first_error (some e) later = some e

abbrev pub compare_known :
    DenominationConfig → ℕ → DenominationConfig → Option ℕ → Option DenominationError
compare_known reference reference_scale config none = some decimals_unknown
compare_known reference reference_scale config (some d) =
    compare_network reference reference_scale config (10 ^ d)

unfoldable pub compare_rest : Dict ℕ → DenominationConfig → ℕ → Networks → Option DenominationError
compare_rest decimals reference reference_scale [] = none
compare_rest decimals reference reference_scale ((network, config) ∷ rest) =
    first_error (compare_known reference reference_scale config (lookup network decimals))
      (compare_rest decimals reference reference_scale rest)

abbrev pub compare_all :
    Dict ℕ → DenominationConfig → Option ℕ → Networks → Option DenominationError
compare_all decimals reference none rest = some decimals_unknown
compare_all decimals reference (some d) rest = compare_rest decimals reference (10 ^ d) rest

-- The error that `assertDenominationParity` throws; with fewer than two networks there is none.
unfoldable pub denomination_parity_error : Dict ℕ → Networks → Option DenominationError
denomination_parity_error decimals [] = none
denomination_parity_error decimals (_ ∷ []) = none
denomination_parity_error decimals ((reference, config) ∷ other ∷ rest) =
    compare_all decimals config (lookup reference decimals) (other ∷ rest)
