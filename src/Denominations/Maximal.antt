-- ===== src/Denominations/Maximal.antt =====
-- The search with its cuts misses no larger amount.
use native.Mathlib.Nat.{mul_comm, mul-le-mul_left, mul-add, le-div_iff_mul-le}
use px.Prelude.{
  ℕ, zero, suc, ◌+◌, ◌-◌, ◌*◌, ◌/◌, ◌≤◌, ◌<◌, max, ◌≡◌, refl, ap, ◌∙◌, inl, inr, true, false, not,
  List, [], ◌∷◌, ◌++◌, all, length, length-append, ltb, leb, ◌==◌, Bool-cases, arith,
}
use px.Denominations.Decompose.{is_nil, max_take, replicate, leg_amounts, sum_of}
use px.Denominations.Tilings.{sum_of-append, sum_of-replicate, length-replicate}
use px.Denominations.Largest.{
  is_left, after_take, descend, best_from, is_descending, descend-above, best_from-above,
}

-- Legs of amounts up to d are worth at most d for each leg.
worth_bound :
    (d : ℕ) (ds counts : List ℕ)
    → all (λ e. leb e d) ds ≡ true
    → sum_of (leg_amounts ds counts) ≤ d * length (leg_amounts ds counts)
unfolding leg_amounts
worth_bound d [] counts h = omega arith
worth_bound d (e ∷ ds) [] h = omega arith
worth_bound d (e ∷ ds) (n ∷ counts) h =
    let ih = worth_bound d ds counts (ground arith) in
    let le : e ≤ d = ground arith in
    let m = mul-le-mul_left n le in
    let l = length-append (replicate n e) (leg_amounts ds counts) in
    let k = length-replicate n e in
    let total : length (replicate n e ++ leg_amounts ds counts)
        ≡ n + length (leg_amounts ds counts) =
      omega arith in
    let product = ap (λ x. d * x) total ∙ mul-add d n (length (leg_amounts ds counts)) in
    omega (
      arith,
      ih,
      m,
      product,
      mul_comm d n,
      sum_of-append (replicate n e) (leg_amounts ds counts),
      sum_of-replicate n e,
    )

-- What the frames below a take must reach.
abbrev Reaches : ℕ → List ℕ → (ℕ → ℕ → ℕ → ℕ) → List ℕ → Type 0
Reaches total ds below counts =
    (l s b : ℕ)
    → s ≤ b
    → s + sum_of (leg_amounts ds counts) ≤ total
    → length (leg_amounts ds counts) ≤ l
    → s + sum_of (leg_amounts ds counts) ≤ below l s b

no_legs :
    (ds counts : List ℕ) → length (leg_amounts ds counts) ≡ 0 → sum_of (leg_amounts ds counts) ≡ 0
no_legs ds counts h = go (leg_amounts ds counts) h
  where
    go : (xs : List ℕ) → length xs ≡ 0 → sum_of xs ≡ 0
    go [] h = refl
    go (x ∷ xs) h = ground arith

no_tiers : (ds counts : List ℕ) → not (is_nil ds) ≡ false → sum_of (leg_amounts ds counts) ≡ 0
unfolding leg_amounts
no_tiers [] counts h = refl
no_tiers (d ∷ ds) counts h = cc

after_take-Reaches :
    (total : ℕ) (ds counts : List ℕ) (below : ℕ → ℕ → ℕ → ℕ) (legs_left sum best : ℕ)
    → Reaches total ds below counts
    → sum ≤ best
    → sum + sum_of (leg_amounts ds counts) ≤ total
    → length (leg_amounts ds counts) ≤ legs_left
    → sum + sum_of (leg_amounts ds counts) ≤ after_take below ds legs_left sum total best
after_take-Reaches total ds counts below legs_left sum best reaches start worth fits =
    elim (Bool-cases (best == total)) [
      | inl hit ↦ rw hit (ground arith)
      | inr miss ↦ elim (Bool-cases (not (is_nil ds))) [
        | inr nil ↦ rw (miss, nil) (omega (arith, no_tiers ds counts nil))
        | inl more ↦ elim (Bool-cases (ltb 0 legs_left)) [
          | inl left ↦ rw (miss, more, left) (reaches legs_left sum best start worth fits)
          | inr gone ↦ rw (miss, more, gone) (omega (arith, no_legs ds counts (ground arith)))
        ]
      ]
    ]

-- A frame is left only when its takes cannot beat the sum reached.
left-reached :
    (total d : ℕ) (ds counts : List ℕ) (legs_left sum n reached : ℕ)
    → all (λ e. leb e d) ds ≡ true
    → is_left d legs_left sum total reached ≡ true
    → sum ≤ reached
    → sum + (d * n + sum_of (leg_amounts ds counts)) ≤ total
    → n + length (leg_amounts ds counts) ≤ legs_left
    → sum + (d * n + sum_of (leg_amounts ds counts)) ≤ reached
left-reached total d ds counts legs_left sum n reached smaller left start worth fits =
    elim (Bool-cases (reached == total)) [
      | inl hit ↦ ground arith
      | inr miss ↦
          let bound = worth_bound d ds counts smaller in
          let filled = mul-le-mul_left d fits in
          let split = mul-add d n (length (leg_amounts ds counts)) in
          elim (Bool-cases (legs_left == 0)) [
            | inl spent ↦
                let none_left : legs_left ≡ 0 = ground arith in
                let zero_filled = ap (λ x. d * x) none_left in
                omega (arith, bound, filled, split, zero_filled)
            | inr legs ↦
                let cut : sum + d * legs_left ≤ reached = ground arith in
                omega (arith, bound, filled, split, cut)
          ]
    ]

descend-Reaches :
    (total d : ℕ) (ds counts : List ℕ) (below : ℕ → ℕ → ℕ → ℕ) (legs_left sum n takes best : ℕ)
    → Reaches total ds below counts
    → ((l s b : ℕ) → b ≤ below l s b)
    → all (λ e. leb e d) ds ≡ true
    → n < takes
    → sum + (d * n + sum_of (leg_amounts ds counts)) ≤ total
    → n + length (leg_amounts ds counts) ≤ legs_left
    → sum + (d * n + sum_of (leg_amounts ds counts))
      ≤ descend below d ds legs_left sum total takes best
unfolding descend
descend-Reaches total d ds counts below legs_left sum n zero best reaches grows smaller lt worth
      fits =
    omega arith
descend-Reaches total d ds counts below legs_left sum n (suc take) best reaches grows smaller lt
      worth fits =
    let tried = max (max best sum) (sum + d * take) in
    let deeper = after_take below ds (legs_left - take) (sum + d * take) total tried in
    elim (Bool-cases (is_left d legs_left sum total (max best sum))) [
      | inl left ↦ rw left (
          left-reached total d ds counts legs_left sum n (max best sum) smaller left (omega arith)
            worth fits)
      | inr goes_on ↦ elim (Bool-cases (ltb n take)) [
        | inl later ↦ rw goes_on (
            descend-Reaches total d ds counts below legs_left sum n take deeper reaches grows
              smaller (ground arith) worth fits)
        | inr now ↦
            let same : n ≡ take = ground arith in
            let equal = ap (λ x. d * x) same in
            let here =
              after_take-Reaches total ds counts below (legs_left - take) (sum + d * take) tried
                reaches (omega arith) (omega (arith, equal)) (omega arith) in
            rw goes_on (
              omega (
                arith,
                equal,
                here,
                (descend-above below d ds legs_left sum total take deeper grows).0,
              ))
      ]
    ]

affordable : (total sum d n rest : ℕ) → 0 < d → sum + (d * n + rest) ≤ total → n ≤ (total - sum) / d
affordable total sum d n rest positive worth =
    (le-div_iff_mul-le positive).1 (omega (arith, worth, mul_comm n d))

-- The search over descending denominations, with its cuts, ends with a sum that no choice of legs
-- beats: any legs that fit within the legs left, and are worth at most the total with the sum so
-- far, are worth at most the result.
pub best_from-is_most :
    (total : ℕ) (ds counts : List ℕ) (legs_left sum best : ℕ)
    → all (ltb 0) ds ≡ true
    → is_descending ds ≡ true
    → sum ≤ best
    → sum + sum_of (leg_amounts ds counts) ≤ total
    → length (leg_amounts ds counts) ≤ legs_left
    → sum + sum_of (leg_amounts ds counts) ≤ best_from total ds legs_left sum best
unfolding leg_amounts best_from
best_from-is_most total [] counts legs_left sum best positive descending start worth fits =
    omega arith
best_from-is_most total (d ∷ ds) [] legs_left sum best positive descending start worth fits =
    omega (arith, best_from-above total (d ∷ ds) legs_left sum best)
best_from-is_most total (d ∷ ds) (n ∷ counts) legs_left sum best positive descending start worth
      fits =
    let amounts = leg_amounts ds counts in
    let value : sum_of (replicate n d ++ amounts) ≡ d * n + sum_of amounts =
      sum_of-append (replicate n d) amounts ∙ omega (arith, sum_of-replicate n d, mul_comm d n) in
    let legs : length (replicate n d ++ amounts) ≡ n + length amounts =
      length-append (replicate n d) amounts ∙ omega (arith, length-replicate n d) in
    let enough = affordable total sum d n (sum_of amounts) (ground arith) (omega arith) in
    let reached =
      descend-Reaches total d ds counts (best_from total ds) legs_left sum n
        (suc (max_take d legs_left (total - sum))) best
        (λ l s b h w f. best_from-is_most total ds counts l s b (ground arith) (ground arith) h w f)
        (best_from-above total ds) (ground arith) (omega arith) (omega arith) (omega arith) in
    omega (arith, value, reached)
