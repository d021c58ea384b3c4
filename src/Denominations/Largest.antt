-- ===== src/Denominations/Largest.antt =====
-- `largestTileableAtMost`: the largest amount up to a total that a few legs can pay exactly.
use px.Prelude.{
  ℕ, zero, suc, ◌+◌, ◌-◌, ◌*◌, ◌≤◌, max, Bool, true, false, not, ◌&&◌, ◌||◌, Option, none, some,
  List, [], ◌∷◌, all, ltb, leb, ◌==◌, arith, if◌then◌else◌,
}
use px.Prelude.Action.{Result, ok, err}
use px.Denominations.Config.{
  RawConfig, DenominationConfig, DenominationError, total_not_positive, enum_cap_exceeded,
  normalize_config, within_enumeration_bound,
}
use px.Denominations.Decompose.{is_nil, max_take}

-- A frame is left: the total is reached, no leg is left, or filling all legs with the frame's
-- denomination, the largest one left, cannot beat the best sum.
abbrev pub is_left : ℕ → ℕ → ℕ → ℕ → ℕ → Bool
is_left d legs_left sum total best =
    best == total || legs_left == 0 || leb (sum + d * legs_left) best

-- The best sum after a take and the frames below it.
abbrev pub after_take : (ℕ → ℕ → ℕ → ℕ) → List ℕ → ℕ → ℕ → ℕ → ℕ → ℕ
after_take below ds legs_left sum total best =
    if best == total
    then best
    else if not (is_nil ds) && ltb 0 legs_left
    then below legs_left sum best
    else best

-- The rounds of a frame, from `nextTake + 1` takes to go downwards; `best` is carried along.
unfoldable pub descend : (ℕ → ℕ → ℕ → ℕ) → ℕ → List ℕ → ℕ → ℕ → ℕ → ℕ → ℕ → ℕ
descend below d ds legs_left sum total zero best = max best sum
descend below d ds legs_left sum total (suc take) best =
    let reached = max best sum in
    let tried = max reached (sum + d * take) in
    let deeper = after_take below ds (legs_left - take) (sum + d * take) total tried in
    let rest = descend below d ds legs_left sum total take deeper in
    if is_left d legs_left sum total reached then reached else rest

-- The search from a frame on, for denominations in descending order: the frames of the source's
-- stack, each worked off before the next take of the one under it.
unfoldable pub best_from : ℕ → List ℕ → ℕ → ℕ → ℕ → ℕ
unfolding descend
best_from total [] legs_left sum best = best
best_from total (d ∷ ds) legs_left sum best =
    descend (best_from total ds) d ds legs_left sum total (suc (max_take d legs_left (total - sum)))
      best

abbrev reverse_onto : List ℕ → List ℕ → List ℕ
reverse_onto [] ys = ys
reverse_onto (x ∷ xs) ys = reverse_onto xs (x ∷ ys)

abbrev some_positive : ℕ → Option ℕ
some_positive n = if n == 0 then none else some n

abbrev below_smallest : ℕ → List ℕ → Bool
below_smallest total [] = false
below_smallest total (d ∷ _) = ltb total d

abbrev largest_normal :
    ℕ → Result DenominationError DenominationConfig → Result DenominationError (Option ℕ)
largest_normal total (err e) = err e
largest_normal total (ok config) =
    if not (within_enumeration_bound config)
    then err enum_cap_exceeded
    else if below_smallest total config.denominations_atomic
    then ok none
    else ok (
        some_positive
          (best_from total (reverse_onto config.denominations_atomic []) config.max_legs 0 0))

-- `largestTileableAtMost`
unfoldable pub largest_tileable_at_most : RawConfig → ℕ → Result DenominationError (Option ℕ)
largest_tileable_at_most config total =
    if total == 0 then err total_not_positive else largest_normal total (normalize_config config)

-- Every denomination is at most the one before it.
abbrev pub is_descending : List ℕ → Bool
is_descending [] = true
is_descending (d ∷ ds) = all (λ e. leb e d) ds && is_descending ds

pub descend-above :
    (below : ℕ → ℕ → ℕ → ℕ) (d : ℕ) (ds : List ℕ) (legs_left sum total takes best : ℕ)
    → ((l s b : ℕ) → b ≤ below l s b)
    → (best ≤ descend below d ds legs_left sum total takes best)
      × (sum ≤ descend below d ds legs_left sum total takes best)
unfolding descend
descend-above below d ds legs_left sum total zero best grows = (omega arith, omega arith)
descend-above below d ds legs_left sum total (suc take) best grows = ground (
  arith,
  grows (legs_left - take) (sum + d * take) (max (max best sum) (sum + d * take)),
  descend-above below d ds legs_left sum total take
      (after_take below ds (legs_left - take) (sum + d * take) total
        (max (max best sum) (sum + d * take)))
      grows,
)

pub best_from-above :
    (total : ℕ) (ds : List ℕ) (legs_left sum best : ℕ)
    → best ≤ best_from total ds legs_left sum best
unfolding best_from
best_from-above total [] legs_left sum best = omega arith
best_from-above total (d ∷ ds) legs_left sum best =
    (descend-above (best_from total ds) d ds legs_left sum total
      (suc (max_take d legs_left (total - sum))) best (best_from-above total ds)).0
