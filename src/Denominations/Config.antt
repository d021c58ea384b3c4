-- ===== src/Denominations/Config.antt =====
-- `normalizeConfig`, `assertEnumerationBound` and the default ladder. A configuration as it is given
-- holds any integers; one that is normalized holds positive numbers in ascending order.
use px.Prelude.{
  ℕ, zero, suc, ◌+◌, ◌-◌, ◌*◌, ◌/◌, ◌^◌, min, Bool, true, false, not, ◌&&◌, List, [], ◌∷◌, map, all,
  keep, length, ltb, leb, ◌==◌, if◌then◌else◌,
}
use px.Prelude.Int.{ℤ, pos, negsuc}
use px.Prelude.Action.{Result, ok, err}

pub data DenominationError : Type 0 where
  off_chain_change total_not_positive max_legs_invalid denominations_empty : DenominationError
  denomination_not_positive denominations_repeated enum_cap_exceeded : DenominationError
  rng_out_of_range not_preserved : DenominationError
  decimals_unknown legs_differ tiers_differ values_differ : DenominationError

pub record RawConfig : Type 0 where
  pub denominations_atomic : List ℤ
  pub max_legs : ℕ

pub record DenominationConfig : Type 0 where
  pub denominations_atomic : List ℕ
  pub max_legs : ℕ

-- `ENUM_CAP`
abbrev pub enum_cap : ℕ
enum_cap = 200000

-- `Number.MAX_SAFE_INTEGER`
abbrev max_safe_integer : ℕ
max_safe_integer = 9007199254740991

-- `defaultDenominationsAtomic`
unfoldable pub default_denominations_atomic : ℕ → List ℕ
default_denominations_atomic decimals =
    keep (λ v. leb v (100 * 10 ^ decimals))
      (map (λ v. v * 10 ^ (decimals - 1)) (1 ∷ 2 ∷ 5 ∷ 10 ∷ 20 ∷ 50 ∷ 100 ∷ 200 ∷ 500 ∷ 1000 ∷ []))

-- `parseMaxLegs`
abbrev pub max_legs_ok : ℕ → Bool
max_legs_ok n = leb 1 n && leb n max_safe_integer

abbrev pub is_positive : ℤ → Bool
is_positive (pos n) = ltb 0 n
is_positive (negsuc n) = false

abbrev to_ℕ : ℤ → ℕ
to_ℕ (pos n) = n
to_ℕ (negsuc n) = 0

unfoldable pub insert_denomination : ℕ → List ℕ → List ℕ
insert_denomination x [] = x ∷ []
insert_denomination x (y ∷ ys) = if leb x y then x ∷ y ∷ ys else y ∷ insert_denomination x ys

-- `.sort((left, right) => left < right ? -1 : left > right ? 1 : 0)`
unfoldable pub sort_denominations : List ℕ → List ℕ
unfolding insert_denomination
sort_denominations [] = []
sort_denominations (x ∷ xs) = insert_denomination x (sort_denominations xs)

-- No value equals its predecessor.
unfoldable pub neighbours_differ : List ℕ → Bool
neighbours_differ [] = true
neighbours_differ (x ∷ []) = true
neighbours_differ (x ∷ y ∷ xs) = not (x == y) && neighbours_differ (y ∷ xs)

-- The check of repeated values, after the sort.
abbrev distinct_config : List ℕ → ℕ → Result DenominationError DenominationConfig
distinct_config values max_legs =
    if neighbours_differ values
    then ok (record { denominations_atomic = values; max_legs = max_legs })
    else err denominations_repeated

abbrev is_nil : List ℤ → Bool
is_nil [] = true
is_nil (_ ∷ _) = false

-- `normalizeConfig`
unfoldable pub normalize_config : RawConfig → Result DenominationError DenominationConfig
normalize_config config =
    if not (max_legs_ok config.max_legs)
    then err max_legs_invalid
    else if is_nil config.denominations_atomic
    then err denominations_empty
    else if not (all is_positive config.denominations_atomic)
    then err denomination_not_positive
    else distinct_config (sort_denominations (map to_ℕ config.denominations_atomic)) config.max_legs

-- The loop of `chooseBounded` with `left` rounds to go; it ends early above the cap.
unfoldable pub choose_loop : ℕ → ℕ → ℕ → ℕ → ℕ → ℕ
choose_loop base cap zero index result = result
choose_loop base cap (suc left) index result =
    let next = result * (base + index) / index in
    let rest = choose_loop base cap left (index + 1) next in if ltb cap next then next else rest

-- `chooseBounded`
unfoldable pub choose_bounded : ℕ → ℕ → ℕ → ℕ
choose_bounded n k cap = let width = min k (n - k) in choose_loop (n - width) cap width 1 1

-- `assertEnumerationBound` passes.
unfoldable pub within_enumeration_bound : DenominationConfig → Bool
within_enumeration_bound config =
    let tiers = length config.denominations_atomic in
    leb config.max_legs enum_cap
    && leb tiers enum_cap
    && leb (choose_bounded (config.max_legs + tiers) tiers enum_cap) enum_cap
