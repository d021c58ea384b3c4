-- ===== src/Concentration/Target.antt =====
-- `adaptiveKEffTarget` and `kEffHistogram`.
use px.Prelude.{
  ℕ, zero, suc, ◌+◌, ◌-◌, ◌*◌, ◌/◌, min, max, String, Bool, ◌&&◌, Option, none, some, List, [], ◌∷◌,
  keep, map, length, or_else, ltb, leb, if◌then◌else◌,
}
use px.Prelude.Text.{decimal}
use px.Prelude.Dict.{Dict, lookup, insert}

pub record KEffSample : Type 0 where
  pub at_ms : ℕ
  pub k_eff : ℕ

-- The quantile is the fraction `quantile_num / quantile_den`.
pub record AdaptiveTargetInput : Type 0 where
  pub samples : List KEffSample
  pub now_ms : ℕ
  pub window_ms : ℕ
  pub min_samples : ℕ
  pub quantile_num : ℕ
  pub quantile_den : ℕ
  pub ceiling : ℕ

unfoldable pub insert_ascending : ℕ → List ℕ → List ℕ
insert_ascending x [] = x ∷ []
insert_ascending x (y ∷ ys) = if leb x y then x ∷ y ∷ ys else y ∷ insert_ascending x ys

-- `.sort((a, b) => a - b)`
unfoldable pub ascending : List ℕ → List ℕ
unfolding insert_ascending
ascending [] = []
ascending (x ∷ xs) = insert_ascending x (ascending xs)

abbrev pub nth : List ℕ → ℕ → Option ℕ
nth [] i = none
nth (x ∷ xs) zero = some x
nth (x ∷ xs) (suc i) = nth xs i

-- `sample.atMs >= nowMs - windowMs && sample.kEff > 0`
abbrev pub is_evidence : ℕ → ℕ → KEffSample → Bool
is_evidence now_ms window_ms s = leb now_ms (s.at_ms + window_ms) && ltb 0 s.k_eff

unfoldable pub observed : AdaptiveTargetInput → List ℕ
observed input =
    ascending (map (λ s. s.k_eff) (keep (is_evidence input.now_ms input.window_ms) input.samples))

-- `Math.floor(clampedQuantile * (observed.length - 1))`
abbrev pub quantile_index : AdaptiveTargetInput → ℕ → ℕ
quantile_index input count =
    min input.quantile_num input.quantile_den * (count - 1) / input.quantile_den

abbrev pub clamp_target : ℕ → Option ℕ → Option ℕ
clamp_target ceiling none = none
clamp_target ceiling (some k) = some (max 1 (min ceiling k))

-- `none` is NaN: no observation is at the index.
unfoldable pub adaptive_k_eff_target : AdaptiveTargetInput → Option ℕ
adaptive_k_eff_target input =
    let seen = observed input in
    if ltb (length seen) input.min_samples
    then some 1
    else clamp_target input.ceiling (nth seen (quantile_index input (length seen)))

abbrev bucket_key : ℕ → String
bucket_key k = if leb 5 k then "5+" else decimal k

-- The loop of `kEffHistogram`; a sample inside the lag is passed over.
unfoldable pub fill_buckets : ℕ → ℕ → List KEffSample → Dict ℕ → Dict ℕ
fill_buckets now_ms lag_ms [] buckets = buckets
fill_buckets now_ms lag_ms (s ∷ rest) buckets =
    let key = bucket_key s.k_eff in
    fill_buckets now_ms lag_ms rest (
      if ltb now_ms (s.at_ms + lag_ms)
      then buckets
      else insert key (or_else (lookup key buckets) 0 + 1) buckets)

pub k_eff_histogram : List KEffSample → ℕ → ℕ → Dict ℕ
unfolding fill_buckets
k_eff_histogram samples now_ms lag_ms = fill_buckets now_ms lag_ms samples []
