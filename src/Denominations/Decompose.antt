-- ===== src/Denominations/Decompose.antt =====
-- `decomposePayout`: a total is split into denominations by a random choice among all exact splits.
use px.Prelude.{
  ℕ, zero, suc, ◌+◌, ◌-◌, ◌*◌, ◌/◌, min, Bool, true, false, not, ◌&&◌, ◌||◌, Option, none, some,
  List, [], ◌∷◌, ◌++◌, length, ltb, ◌==◌, if◌then◌else◌,
}
use px.Prelude.Action.{Result, ok, err}
use px.Denominations.Config.{
  RawConfig, DenominationConfig, DenominationError, off_chain_change, total_not_positive,
  enum_cap_exceeded, rng_out_of_range, not_preserved, normalize_config, within_enumeration_bound,
}

pub data LegKind : Type 0 where
  denomination exact : LegKind

pub record PayoutLeg : Type 0 where
  pub index : ℕ
  pub amount_atomic : ℕ
  pub denomination_atomic : Option ℕ
  pub kind : LegKind

pub data Strategy : Type 0 where
  single denominations : Strategy

pub record PayoutPlanShape : Type 0 where
  pub total_atomic : ℕ
  pub onchain_atomic : ℕ
  pub offchain_change_atomic : ℕ
  pub legs : List PayoutLeg
  pub strategy : Strategy

-- `singlePlan`
abbrev pub single_plan : ℕ → PayoutPlanShape
single_plan total = record {
  total_atomic = total;
  onchain_atomic = total;
  offchain_change_atomic = 0;
  legs = record { index = 0; amount_atomic = total; denomination_atomic = none; kind = exact } ∷ [];
  strategy = single;
}

abbrev pub zeros : List ℕ → List ℕ
zeros [] = []
zeros (_ ∷ ds) = 0 ∷ zeros ds

abbrev pub with_count : ℕ → List (List ℕ) → List (List ℕ)
with_count take [] = []
with_count take (counts ∷ more) = (take ∷ counts) ∷ with_count take more

-- `maxTake` of a frame.
abbrev pub max_take : ℕ → ℕ → ℕ → ℕ
max_take d legs_left rest = min legs_left (rest / d)

abbrev pub is_nil : List ℕ → Bool
is_nil [] = true
is_nil (_ ∷ _) = false

-- One take of a frame: it meets the rest exactly, or the frames below go on with what is left, if
-- there are denominations and legs left.
abbrev pub branch : (ℕ → ℕ → List (List ℕ)) → ℕ → List ℕ → ℕ → ℕ → ℕ → List (List ℕ)
branch below d ds legs_left rest take =
    if take * d == rest
    then (take ∷ zeros ds) ∷ []
    else if not (is_nil ds) && ltb take legs_left
    then with_count take (below (legs_left - take) (rest - take * d))
    else []

-- The takes of a frame, `more` of them to go, from `take` on.
unfoldable pub takes : (ℕ → ℕ → List (List ℕ)) → ℕ → List ℕ → ℕ → ℕ → ℕ → ℕ → List (List ℕ)
takes below d ds legs_left rest zero take = branch below d ds legs_left rest take
takes below d ds legs_left rest (suc more) take =
    branch below d ds legs_left rest take ++ takes below d ds legs_left rest more (take + 1)

-- The vectors of counts that the loop pushes to `exact`, in its order: the stack of frames walks the
-- denominations depth first, the takes of each in ascending order, and this is that walk. `rest` is
-- `total - sum` and `legs_left` is `maxLegs - coins`.
unfoldable pub tilings : List ℕ → ℕ → ℕ → List (List ℕ)
unfolding takes
tilings [] legs_left rest = []
tilings (d ∷ ds) legs_left rest =
    takes (tilings ds) d ds legs_left rest (max_take d legs_left rest) 0

-- The value of a draw is the fraction of its two numbers.
abbrev pub random_index : ℕ → ℕ × ℕ → Result DenominationError ℕ
random_index length (num, den) =
    if ltb num den then ok (num * length / den) else err rng_out_of_range

abbrev pub replicate : ℕ → ℕ → List ℕ
replicate zero x = []
replicate (suc n) x = x ∷ replicate n x

-- The amounts of the legs before the shuffle.
unfoldable pub leg_amounts : List ℕ → List ℕ → List ℕ
leg_amounts [] _ = []
leg_amounts (_ ∷ _) [] = []
leg_amounts (d ∷ ds) (n ∷ counts) = replicate n d ++ leg_amounts ds counts

abbrev pub nth : List ℕ → ℕ → ℕ
nth [] i = 0
nth (x ∷ xs) zero = x
nth (x ∷ xs) (suc i) = nth xs i

abbrev pub set_nth : List ℕ → ℕ → ℕ → List ℕ
set_nth [] i v = []
set_nth (x ∷ xs) zero v = v ∷ xs
set_nth (x ∷ xs) (suc i) v = x ∷ set_nth xs i v

-- `[legs[i], legs[j]] = [legs[j], legs[i]]`
abbrev pub swap : List ℕ → ℕ → ℕ → List ℕ
swap xs i j = set_nth (set_nth xs i (nth xs j)) j (nth xs i)

abbrev shuffled :
    (ℕ → List ℕ → Result DenominationError (List ℕ))
    → List ℕ
    → ℕ
    → Result DenominationError ℕ
    → Result DenominationError (List ℕ)
shuffled rest xs i (err e) = err e
shuffled rest xs i (ok j) = rest i (swap xs i j)

-- The shuffle from index `i` down to 1, where draw `n` of the call is the next one.
unfoldable pub shuffle : (ℕ → ℕ × ℕ) → ℕ → ℕ → List ℕ → Result DenominationError (List ℕ)
shuffle draws n zero xs = ok xs
shuffle draws n (suc i) xs =
    shuffled (λ _ ys. shuffle draws (n + 1) i ys) xs (suc i) (random_index (suc (suc i)) (draws n))

abbrev pub indexed : ℕ → List ℕ → List PayoutLeg
indexed i [] = []
indexed i (a ∷ as') =
    record { index = i; amount_atomic = a; denomination_atomic = some a; kind = denomination }
    ∷ indexed (i + 1) as'

abbrev pub sum_of : List ℕ → ℕ
sum_of [] = 0
sum_of (x ∷ xs) = x + sum_of xs

-- The last check, and the plan.
abbrev pub checked_plan :
    DenominationConfig
    → ℕ
    → Result DenominationError (List ℕ)
    → Result DenominationError PayoutPlanShape
checked_plan config total (err e) = err e
checked_plan config total (ok amounts) =
    if not (sum_of amounts == total) || ltb config.max_legs (length amounts)
    then err not_preserved
    else ok (record {
      total_atomic = total;
      onchain_atomic = total;
      offchain_change_atomic = 0;
      legs = indexed 0 amounts;
      strategy = denominations;
    })

abbrev pub nth_counts : List (List ℕ) → ℕ → List ℕ
nth_counts [] i = []
nth_counts (c ∷ cs) zero = c
nth_counts (c ∷ cs) (suc i) = nth_counts cs i

abbrev plan_of :
    (ℕ → ℕ × ℕ)
    → DenominationConfig
    → ℕ
    → List (List ℕ)
    → Result DenominationError ℕ
    → Result DenominationError PayoutPlanShape
plan_of draws config total found (err e) = err e
plan_of draws config total found (ok chosen) =
    let amounts = leg_amounts config.denominations_atomic (nth_counts found chosen) in
    checked_plan config total (shuffle draws 1 (length amounts - 1) amounts)

abbrev pub choose_plan :
    (ℕ → ℕ × ℕ) → DenominationConfig → ℕ → List (List ℕ) → Result DenominationError PayoutPlanShape
choose_plan draws config total [] = ok (single_plan total)
choose_plan draws config total (c ∷ cs) =
    plan_of draws config total (c ∷ cs) (random_index (length (c ∷ cs)) (draws 0))

abbrev pub below_first : ℕ → List ℕ → Bool
below_first total [] = false
below_first total (d ∷ _) = ltb total d

abbrev decompose_normal :
    (ℕ → ℕ × ℕ)
    → ℕ
    → Result DenominationError DenominationConfig
    → Result DenominationError PayoutPlanShape
decompose_normal draws total (err e) = err e
decompose_normal draws total (ok config) =
    if not (within_enumeration_bound config)
    then err enum_cap_exceeded
    else if below_first total config.denominations_atomic
    then ok (single_plan total)
    else choose_plan draws config total (tilings config.denominations_atomic config.max_legs total)

-- `decomposePayout`, with the values that `random` returns one after the other.
unfoldable pub decompose_payout :
    (ℕ → ℕ × ℕ) → RawConfig → Bool → ℕ → Result DenominationError PayoutPlanShape
decompose_payout draws config offchain_change total =
    if offchain_change
    then err off_chain_change
    else if total == 0
    then err total_not_positive
    else decompose_normal draws total (normalize_config config)
