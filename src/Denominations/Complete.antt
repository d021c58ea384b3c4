-- ===== src/Denominations/Complete.antt =====
-- The enumeration misses no exact split.
use mathlib.Core.Path.{subst}
use native.Mathlib.Nat.{le-div_iff_mul-le}
use px.Prelude.{
  ℕ, zero, suc, ◌+◌, ◌-◌, ◌*◌, ◌≤◌, ◌≡◌, refl, ◌∙◌, inl, inr, Bool, true, false, not, ◌&&◌, ◌||◌,
  List, [], ◌∷◌, ◌++◌, all, any, length, length-append, ltb, ◌==◌, Bool-cases, arith,
}
use px.Denominations.Decompose.{
  is_nil, zeros, with_count, max_take, branch, takes, tilings, replicate, leg_amounts, sum_of,
}
use px.Denominations.Tilings.{
  is_tiling, sum_of-append, sum_of-replicate, length-replicate, leg_amounts-zeros,
}

abbrev same_amounts : List ℕ → List ℕ → Bool
same_amounts [] [] = true
same_amounts [] (_ ∷ _) = false
same_amounts (_ ∷ _) [] = false
same_amounts (x ∷ xs) (y ∷ ys) = x == y && same_amounts xs ys

-- Whether a vector of counts stands for the same legs.
abbrev pub same_legs : List ℕ → List ℕ → List ℕ → Bool
same_legs ds counts found = same_amounts (leg_amounts ds counts) (leg_amounts ds found)

same_amounts_refl : (xs : List ℕ) → same_amounts xs xs ≡ true
same_amounts_refl [] = refl
same_amounts_refl (x ∷ xs) = ground (arith, same_amounts_refl xs)

same_amounts-replicate :
    (n d : ℕ) (xs ys : List ℕ)
    → same_amounts xs ys ≡ true
    → same_amounts (replicate n d ++ xs) (replicate n d ++ ys) ≡ true
same_amounts-replicate zero d xs ys h = h
same_amounts-replicate (suc n) d xs ys h = ground (arith, same_amounts-replicate n d xs ys h)

any-append : (p : List ℕ → Bool) (xs ys : List (List ℕ)) → any p (xs ++ ys) ≡ (any p xs || any p ys)
any-append p [] ys = refl
any-append p (x ∷ xs) ys = ground (arith, any-append p xs ys)

-- A take between the first and the last is taken.
takes-any :
    (p : List ℕ → Bool) (below : ℕ → ℕ → List (List ℕ)) (d : ℕ) (ds : List ℕ)
    (legs_left rest more take n : ℕ)
    → take ≤ n
    → n ≤ take + more
    → any p (branch below d ds legs_left rest n) ≡ true
    → any p (takes below d ds legs_left rest more take) ≡ true
unfolding takes
takes-any p below d ds legs_left rest zero take n low high h =
    subst (λ k. any p (branch below d ds legs_left rest k) ≡ true) (omega arith) h
takes-any p below d ds legs_left rest (suc more) take n low high h =
    any-append p (branch below d ds legs_left rest take) _ ∙ elim (Bool-cases (n == take)) [
      | inl here ↦
          let same : n ≡ take = ground arith in
          rw (subst (λ k. any p (branch below d ds legs_left rest k) ≡ true) same h)
      | inr later ↦
          rw
            (takes-any p below d ds legs_left rest more (take + 1) n (ground arith) (omega arith) h)
            (ground arith)
    ]

-- Legs of positive amounts that are worth nothing are no legs.
leg_amounts-none :
    (ds counts : List ℕ)
    → all (ltb 0) ds ≡ true
    → sum_of (leg_amounts ds counts) ≡ 0
    → leg_amounts ds counts ≡ []
unfolding leg_amounts
leg_amounts-none [] counts h e = refl
leg_amounts-none (d ∷ ds) [] h e = refl
leg_amounts-none (d ∷ ds) (zero ∷ counts) h e = leg_amounts-none ds counts (ground arith) e
leg_amounts-none (d ∷ ds) (suc n ∷ counts) h e = ground arith

length_pos : (xs : List ℕ) → 1 ≤ sum_of xs → 1 ≤ length xs
length_pos [] h = h
length_pos (x ∷ xs) h = omega arith

not_nil_of_sum : (ds counts : List ℕ) → 1 ≤ sum_of (leg_amounts ds counts) → not (is_nil ds) ≡ true
unfolding leg_amounts
not_nil_of_sum [] counts h = ground arith
not_nil_of_sum (d ∷ ds) counts h = refl

any-with_count :
    (d : ℕ) (ds : List ℕ) (n : ℕ) (counts : List ℕ) (found : List (List ℕ))
    → any (same_legs ds counts) found ≡ true
    → any (same_legs (d ∷ ds) (n ∷ counts)) (with_count n found) ≡ true
unfolding leg_amounts
any-with_count d ds n counts [] h = cc
any-with_count d ds n counts (c ∷ found) h = ground (
  arith,
  same_amounts-replicate n d (leg_amounts ds counts) (leg_amounts ds c),
  any-with_count d ds n counts found,
)

-- The branch of the right take has the split.
branch-any :
    (d : ℕ) (ds : List ℕ) (legs_left rest n : ℕ) (counts : List ℕ)
    → all (ltb 0) ds ≡ true
    → is_tiling (d ∷ ds) legs_left rest (n ∷ counts) ≡ true
    → (n * d + sum_of (leg_amounts ds counts) ≡ rest)
    → (n + length (leg_amounts ds counts) ≤ legs_left)
    → (1 ≤ sum_of (leg_amounts ds counts)
        → any (same_legs ds counts) (tilings ds (legs_left - n) (rest - n * d)) ≡ true)
    → any (same_legs (d ∷ ds) (n ∷ counts)) (branch (tilings ds) d ds legs_left rest n) ≡ true
unfolding leg_amounts
branch-any d ds legs_left rest n counts positive h worth fits deeper =
    elim (Bool-cases (n * d == rest)) [
      | inl hit ↦ rw hit (rw (exact hit))
      | inr miss ↦
          let more : 1 ≤ sum_of (leg_amounts ds counts) = ground arith in
          let legs = length_pos (leg_amounts ds counts) more in
          let leg_left : ltb n legs_left ≡ true = ground arith in
          rw (miss, not_nil_of_sum ds counts more, leg_left)
            (any-with_count d ds n counts (tilings ds (legs_left - n) (rest - n * d)) (deeper more))
    ]
  where
    exact :
        n * d == rest ≡ true
        → same_amounts
            (replicate n d ++ leg_amounts ds counts)
            (replicate n d ++ leg_amounts ds (zeros ds))
          ≡ true
    exact hit =
        rw (leg_amounts-none ds counts positive (ground arith), leg_amounts-zeros ds)
          (same_amounts_refl (replicate n d ++ []))

-- Every way to pay an amount with at most so many legs of the denominations is found, up to the
-- order of the legs.
pub tilings-miss_none :
    (ds : List ℕ) (legs_left rest : ℕ) (counts : List ℕ)
    → all (ltb 0) ds ≡ true
    → 1 ≤ rest
    → is_tiling ds legs_left rest counts ≡ true
    → any (same_legs ds counts) (tilings ds legs_left rest) ≡ true
unfolding tilings leg_amounts
tilings-miss_none [] legs_left rest counts positive some_left h = ground arith
tilings-miss_none (d ∷ ds) legs_left rest [] positive some_left h = ground arith
tilings-miss_none (d ∷ ds) legs_left rest (n ∷ counts) positive some_left h =
    let worth : n * d + sum_of (leg_amounts ds counts) ≡ rest =
      ground (arith, sum_of-append (replicate n d) (leg_amounts ds counts), sum_of-replicate n d) in
    let fits : n + length (leg_amounts ds counts) ≤ legs_left =
      ground (arith, length-append (replicate n d) (leg_amounts ds counts), length-replicate n d) in
    let d_pos : 1 ≤ d = ground arith in
    let affordable = (le-div_iff_mul-le {k = d} {x = n} {y = rest} d_pos).1 (omega arith) in
    takes-any (same_legs (d ∷ ds) (n ∷ counts)) (tilings ds) d ds legs_left rest
      (max_take d legs_left rest) 0 n (omega arith) (omega arith)
      (branch-any d ds legs_left rest n counts (ground arith) h worth fits (λ more.
        tilings-miss_none ds (legs_left - n) (rest - n * d) counts (ground arith) (omega arith)
          (ground arith)))
