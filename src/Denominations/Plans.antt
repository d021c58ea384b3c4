-- ===== src/Denominations/Plans.antt =====
-- A decomposition that is asked for correctly always gives a plan, and its legs are the total.
use native.Mathlib.Nat.{div-lt_iff_lt-mul, mul_comm, mul-le-mul_right, suc-mul}
use px.Prelude.{
  ℕ, zero, suc, ◌+◌, ◌-◌, ◌*◌, ◌/◌, ◌≤◌, ◌<◌, max, ◌≡◌, refl, ap, ◌∙◌, inl, inr, Bool, true, false,
  List, [], ◌∷◌, all, length, ltb, ◌==◌, Bool-cases, arith, if◌then◌else◌,
}
use px.Prelude.Action.{ok}
use px.Denominations.Config.{
  RawConfig, DenominationConfig, normalize_config, within_enumeration_bound,
}
use px.Denominations.Decompose.{
  PayoutLeg, PayoutPlanShape, single_plan, tilings, random_index, leg_amounts, nth, set_nth, swap,
  shuffle, sum_of, decompose_payout, nth_counts, indexed, checked_plan, choose_plan, below_first,
  denominations,
}
use px.Denominations.Tilings.{is_tiling, tilings-are_exact}

length-set_nth : (xs : List ℕ) (i v : ℕ) → length (set_nth xs i v) ≡ length xs
length-set_nth [] i v = refl
length-set_nth (x ∷ xs) zero v = refl
length-set_nth (x ∷ xs) (suc i) v = ap suc (length-set_nth xs i v)

sum_of-set_nth :
    (xs : List ℕ) (i v : ℕ) → i < length xs → sum_of (set_nth xs i v) + nth xs i ≡ sum_of xs + v
sum_of-set_nth [] i v h = omega arith
sum_of-set_nth (x ∷ xs) zero v h = omega arith
sum_of-set_nth (x ∷ xs) (suc i) v h = omega (arith, sum_of-set_nth xs i v (omega arith))

nth-set_nth :
    (xs : List ℕ) (i j v : ℕ)
    → i < length xs
    → nth (set_nth xs i v) j ≡ (if i == j then v else nth xs j)
nth-set_nth [] i j v h = absurd (omega arith)
nth-set_nth (x ∷ xs) zero zero v h = refl
nth-set_nth (x ∷ xs) zero (suc j) v h = ground arith
nth-set_nth (x ∷ xs) (suc i) zero v h = ground arith
nth-set_nth (x ∷ xs) (suc i) (suc j) v h = ground (arith, nth-set_nth xs i j v (omega arith))

-- A swap of two legs keeps their number and their sum.
swap_keeps :
    (xs : List ℕ) (i j : ℕ)
    → i < length xs
    → j < length xs
    → (length (swap xs i j) ≡ length xs) × (sum_of (swap xs i j) ≡ sum_of xs)
swap_keeps xs i j h k =
    let ys = set_nth xs i (nth xs j) in
    let same = length-set_nth xs i (nth xs j) in
    let first = sum_of-set_nth xs i (nth xs j) h in
    let second = sum_of-set_nth ys j (nth xs i) (omega arith) in
    let read = nth-set_nth xs i j (nth xs j) h in
    (length-set_nth ys j (nth xs i) ∙ same, ground (arith, first, second, read))

-- Every random number lies in [0, 1).
abbrev pub IsUniform : (ℕ → ℕ × ℕ) → Type 0
IsUniform draws = (n : ℕ) → ltb (draws n).0 (draws n).1 ≡ true

scaled_lt : (num den len : ℕ) → num < den → 1 ≤ len → num * len < len * den
scaled_lt num den len h k =
    let m = mul-le-mul_right len h in omega (arith, suc-mul num len, mul_comm den len)

random_index-inside :
    (len num den : ℕ)
    → ltb num den ≡ true
    → 1 ≤ len
    → (j : ℕ) × (random_index len (num, den) ≡ ok j) × (j < len)
random_index-inside len num den h k = (
  num * len / den,
  rw h,
  (div-lt_iff_lt-mul {k = den} {x = num * len} {y = len} (ground arith)).1
      (scaled_lt num den len (ground arith) k),
)

shuffle-keeps :
    (draws : ℕ → ℕ × ℕ) (n i : ℕ) (xs : List ℕ)
    → IsUniform draws
    → i ≤ length xs - 1
    → (ys : List ℕ) × (shuffle draws n i xs ≡ ok ys)
      × (length ys ≡ length xs)
      × (sum_of ys ≡ sum_of xs)
unfolding shuffle
shuffle-keeps draws n zero xs uniform h = (xs, refl, refl, refl)
shuffle-keeps draws n (suc i) xs uniform h =
    let (j, drawn, inside) =
      random_index-inside (suc (suc i)) (draws n).0 (draws n).1 (uniform n) (omega arith) in
    let (same_length, same_sum) = swap_keeps xs (suc i) j (omega arith) (omega arith) in
    let (ys, done, l, s) =
      shuffle-keeps draws (n + 1) i (swap xs (suc i) j) uniform (omega arith) in
    (ys, rw drawn done, l ∙ same_length, s ∙ same_sum)

all-nth_counts :
    (p : List ℕ → Bool) (found : List (List ℕ)) (j : ℕ)
    → all p found ≡ true
    → j < length found
    → p (nth_counts found j) ≡ true
all-nth_counts p [] j h k = absurd (omega arith)
all-nth_counts p (c ∷ found) zero h k = ground arith
all-nth_counts p (c ∷ found) (suc j) h k = all-nth_counts p found j (ground arith) (omega arith)

abbrev pub amounts_of : List PayoutLeg → List ℕ
amounts_of [] = []
amounts_of (leg ∷ legs) = leg.amount_atomic ∷ amounts_of legs

amounts_of-indexed : (i : ℕ) (xs : List ℕ) → amounts_of (indexed i xs) ≡ xs
amounts_of-indexed i [] = refl
amounts_of-indexed i (x ∷ xs) = ap (◌∷◌ x) (amounts_of-indexed (i + 1) xs)

length-indexed : (i : ℕ) (xs : List ℕ) → length (indexed i xs) ≡ length xs
length-indexed i [] = refl
length-indexed i (x ∷ xs) = ap suc (length-indexed (i + 1) xs)

-- A plan whose legs are worth the total and are no more than allowed.
abbrev pub Preserves : ℕ → ℕ → PayoutPlanShape → Type 0
Preserves total max_legs plan =
    (sum_of (amounts_of plan.legs) ≡ total) × (length plan.legs ≤ max 1 max_legs)

checked_plan-ok :
    (config : DenominationConfig) (total : ℕ) (ys : List ℕ)
    → sum_of ys ≡ total
    → length ys ≤ config.max_legs
    → (plan : PayoutPlanShape) × (checked_plan config total (ok ys) ≡ ok plan)
      × Preserves total config.max_legs plan
checked_plan-ok config total ys worth fits = (
  record {
    total_atomic = total;
    onchain_atomic = total;
    offchain_change_atomic = 0;
    legs = indexed 0 ys;
    strategy = denominations;
  },
  ground arith,
  (ap sum_of (amounts_of-indexed 0 ys) ∙ worth, omega (arith, length-indexed 0 ys)),
)

choose_plan-ok :
    (draws : ℕ → ℕ × ℕ) (config : DenominationConfig) (total : ℕ) (found : List (List ℕ))
    → IsUniform draws
    → all (is_tiling config.denominations_atomic config.max_legs total) found ≡ true
    → (plan : PayoutPlanShape) × (choose_plan draws config total found ≡ ok plan)
      × Preserves total config.max_legs plan
choose_plan-ok draws config total [] uniform h =
    (single_plan total, refl, (omega arith, omega arith))
choose_plan-ok draws config total (c ∷ cs) uniform h =
    let (j, drawn, inside) =
      random_index-inside (length (c ∷ cs)) (draws 0).0 (draws 0).1 (uniform 0) (omega arith) in
    let chosen =
      all-nth_counts (is_tiling config.denominations_atomic config.max_legs total) (c ∷ cs) j h
        inside in
    let amounts = leg_amounts config.denominations_atomic (nth_counts (c ∷ cs) j) in
    let (ys, shuffled_to, same_length, same_sum) =
      shuffle-keeps draws 1 (length amounts - 1) amounts uniform (omega arith) in
    let (plan, done, good) =
      checked_plan-ok config total ys (same_sum ∙ ground arith) (ground (arith, same_length)) in
    (plan, rw (drawn, shuffled_to) done, good)

-- With a configuration that passes the checks and random numbers in [0, 1), a positive total is
-- always given a plan: the last check never fails, the legs are worth exactly the total, and they
-- are at most as many as the configuration allows, or one.
pub decompose_payout-Preserves :
    (draws : ℕ → ℕ × ℕ) (raw : RawConfig) (config : DenominationConfig) (total : ℕ)
    → IsUniform draws
    → normalize_config raw ≡ ok config
    → within_enumeration_bound config ≡ true
    → 1 ≤ total
    → (plan : PayoutPlanShape) × (decompose_payout draws raw false total ≡ ok plan)
      × Preserves total config.max_legs plan
unfolding decompose_payout
decompose_payout-Preserves draws raw config total uniform normal bounded positive =
    let nonzero : total == 0 ≡ false = ground arith in
    elim (Bool-cases (below_first total config.denominations_atomic)) [
      | inl small ↦
          (single_plan total, rw (nonzero, normal, bounded, small), (omega arith, omega arith))
      | inr large ↦
          let (plan, done, good) =
            choose_plan-ok draws config total
              (tilings config.denominations_atomic config.max_legs total) uniform
              (tilings-are_exact config.denominations_atomic config.max_legs total) in
          (plan, rw (nonzero, normal, bounded, large) done, good)
    ]
