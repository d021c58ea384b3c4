-- ===== src/Denominations/Tests.antt =====
-- The theorems on denominations at sample ladders.
use px.Prelude.{ℕ, ◌≤◌, ◌≡◌, refl, true, none, some, List, [], ◌∷◌, all, any, false, arith}
use px.Prelude.Int.{pos}
use px.Prelude.Dict.{Dict, lookup}
use px.Prelude.Action.{ok}
use px.Denominations.Config.{
  DenominationConfig, RawConfig, normalize_config, sort_denominations, insert_denomination,
  neighbours_differ, within_enumeration_bound, choose_bounded, choose_loop,
}
use px.Denominations.Decompose.{
  PayoutPlanShape, decompose_payout, takes, tilings, leg_amounts, single_plan,
}
use px.Denominations.Tilings.{is_tiling, tilings-are_exact}
use px.Denominations.Complete.{same_legs, tilings-miss_none}
use px.Denominations.Search.{rounds, initial_search}
use px.Denominations.Loop.{search-finds_tilings}
use px.Denominations.Plans.{IsUniform, Preserves, decompose_payout-Preserves}
use px.Denominations.Largest.{best_from, descend, largest_tileable_at_most}
use px.Denominations.Maximal.{best_from-is_most}
use px.Denominations.Payable.{Paid, best_from-Paid}
use px.Denominations.Parity.{
  Networks, denomination_parity_error, compare_rest, compare_network, ladders_match,
}
use px.Denominations.Ladders.{SameLadder, denomination_parity-pairwise}

abbrev ladder : List ℕ
ladder = 1 ∷ 2 ∷ 5 ∷ []

tilings-are_exact_example : all (is_tiling ladder 3 6) (tilings ladder 3 6) ≡ true
tilings-are_exact_example = tilings-are_exact ladder 3 6

two_splits : tilings ladder 3 6 ≡ (0 ∷ 3 ∷ 0 ∷ []) ∷ (1 ∷ 0 ∷ 1 ∷ []) ∷ []
unfolding tilings takes
two_splits = refl

split_of_6 : is_tiling ladder 3 6 (1 ∷ 0 ∷ 1 ∷ []) ≡ true
unfolding leg_amounts
split_of_6 = refl

tilings-miss_none_example : any (same_legs ladder (1 ∷ 0 ∷ 1 ∷ [])) (tilings ladder 3 6) ≡ true
tilings-miss_none_example =
    tilings-miss_none ladder 3 6 (1 ∷ 0 ∷ 1 ∷ []) refl (omega arith) split_of_6

-- 9 is no sum of two tiers, so that the exact amount leaves as one leg.
nine_is_single :
    decompose_payout
      (λ n. (0, 1))
      (record { denominations_atomic = pos 2 ∷ pos 1 ∷ pos 5 ∷ []; max_legs = 2 })
      false
      9
    ≡ ok (single_plan 9)
unfolding decompose_payout normalize_config sort_denominations insert_denomination neighbours_differ
    within_enumeration_bound choose_bounded choose_loop tilings takes
nine_is_single = refl

abbrev base_ladder : DenominationConfig
base_ladder = record { denominations_atomic = 100 ∷ 200 ∷ []; max_legs = 3 }

abbrev solana_ladder : DenominationConfig
solana_ladder = record { denominations_atomic = 10 ∷ 20 ∷ []; max_legs = 3 }

abbrev tron_ladder : DenominationConfig
tron_ladder = record { denominations_atomic = 1000 ∷ 2000 ∷ []; max_legs = 3 }

abbrev decimals : Dict ℕ
decimals = ("base", 2) ∷ ("solana", 1) ∷ ("tron", 3) ∷ []

abbrev other_networks : Networks
other_networks = ("tron", tron_ladder) ∷ []

parity_holds :
    denomination_parity_error decimals
      (("base", base_ladder) ∷ ("solana", solana_ladder) ∷ other_networks)
    ≡ none
unfolding denomination_parity_error compare_rest compare_network ladders_match lookup
parity_holds = refl

solana_found :
    lookup "solana" (("base", base_ladder) ∷ ("solana", solana_ladder) ∷ other_networks)
    ≡ some solana_ladder
unfolding lookup
solana_found = refl

tron_found :
    lookup "tron" (("base", base_ladder) ∷ ("solana", solana_ladder) ∷ other_networks)
    ≡ some tron_ladder
unfolding lookup
tron_found = refl

solana_decimals : lookup "solana" decimals ≡ some 1
unfolding lookup
solana_decimals = refl

tron_decimals : lookup "tron" decimals ≡ some 3
unfolding lookup
tron_decimals = refl

denomination_parity-pairwise_example : SameLadder solana_ladder 1 tron_ladder 3
denomination_parity-pairwise_example =
    denomination_parity-pairwise decimals ("base", base_ladder) ("solana", solana_ladder)
      other_networks "solana" "tron" solana_ladder tron_ladder 1 3 parity_holds solana_found
      tron_found solana_decimals tron_decimals

search-finds_tilings_example :
    (n : ℕ) × (rounds 3 6 n (initial_search 3 6 ladder)
      ≡ record { stack = []; counts = 0 ∷ 0 ∷ 0 ∷ []; found = tilings ladder 3 6 })
search-finds_tilings_example = search-finds_tilings 3 6 1 (2 ∷ 5 ∷ [])

abbrev first_draws : ℕ → ℕ × ℕ
first_draws n = (0, 1)

abbrev sample_raw : RawConfig
sample_raw = record { denominations_atomic = pos 2 ∷ pos 1 ∷ pos 5 ∷ []; max_legs = 3 }

abbrev sample_normal : DenominationConfig
sample_normal = record { denominations_atomic = ladder; max_legs = 3 }

sample_normalizes : normalize_config sample_raw ≡ ok sample_normal
unfolding normalize_config sort_denominations insert_denomination neighbours_differ
sample_normalizes = refl

sample_bounded : within_enumeration_bound sample_normal ≡ true
unfolding within_enumeration_bound choose_bounded choose_loop
sample_bounded = refl

first_draws-IsUniform : IsUniform first_draws
first_draws-IsUniform n = refl

decompose_payout-Preserves_example :
    (plan : PayoutPlanShape) × (decompose_payout first_draws sample_raw false 6 ≡ ok plan)
    × Preserves 6 3 plan
decompose_payout-Preserves_example =
    decompose_payout-Preserves first_draws sample_raw sample_normal 6 first_draws-IsUniform
      sample_normalizes sample_bounded (omega arith)

-- Two legs of 5 or 3 are worth at most what the search finds under 9, which is 8.
best_from-is_most_example : 6 ≤ best_from 9 (5 ∷ 3 ∷ []) 2 0 0
unfolding leg_amounts
best_from-is_most_example =
    best_from-is_most 9 (5 ∷ 3 ∷ []) (0 ∷ 2 ∷ []) 2 0 0 refl refl (omega arith) (omega arith)
      (omega arith)

eight_found : best_from 9 (5 ∷ 3 ∷ []) 2 0 0 ≡ 8
unfolding best_from descend
eight_found = refl

largest_of_sample : largest_tileable_at_most sample_raw 16 ≡ ok (some 15)
unfolding largest_tileable_at_most normalize_config sort_denominations insert_denomination
    neighbours_differ within_enumeration_bound choose_bounded choose_loop best_from descend
largest_of_sample = refl

best_from-Paid_example : Paid 9 (5 ∷ 3 ∷ []) 2 0 (best_from 9 (5 ∷ 3 ∷ []) 2 0 0)
best_from-Paid_example = best_from-Paid 9 (5 ∷ 3 ∷ []) 2 refl
