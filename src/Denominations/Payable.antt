-- ===== src/Denominations/Payable.antt =====
-- The search for the largest payable amount ends with an amount that its legs pay.
use native.Mathlib.Nat.{mul_comm, le-div_iff_mul-le}
use px.Prelude.{
  ℕ, zero, suc, ◌+◌, ◌-◌, ◌*◌, ◌≤◌, ◌<◌, max, ◌≡◌, refl, sym, ◌∙◌, ◌⊎◌, inl, inr, true, not, ◌&&◌,
  List, [], ◌∷◌, ◌++◌, all, length, length-append, ltb, ◌==◌, Bool-cases, arith,
}
use px.Denominations.Decompose.{is_nil, max_take, replicate, leg_amounts, sum_of}
use px.Denominations.Tilings.{sum_of-append, sum_of-replicate, length-replicate}
use px.Denominations.Largest.{is_left, after_take, descend, best_from}

-- Some legs within the limit bring the sum to a value that the total allows.
abbrev pub Paid : ℕ → List ℕ → ℕ → ℕ → ℕ → Type 0
Paid total ds legs_left sum v =
    (counts : List ℕ) × (length (leg_amounts ds counts) ≤ legs_left)
    × (sum + sum_of (leg_amounts ds counts) ≡ v)
    × (v ≤ total)

-- The best sum is kept, or legs pay the new one.
abbrev Bettered : ℕ → List ℕ → ℕ → ℕ → ℕ → ℕ → Type 0
Bettered total ds legs_left sum best v = (v ≡ best) ⊎ Paid total ds legs_left sum v

no_counts : (ds : List ℕ) → leg_amounts ds [] ≡ []
unfolding leg_amounts
no_counts [] = refl
no_counts (d ∷ ds) = refl

nothing-Paid :
    (total : ℕ) (ds : List ℕ) (legs_left sum : ℕ) → sum ≤ total → Paid total ds legs_left sum sum
nothing-Paid total ds legs_left sum h =
    ([], rw (no_counts ds) (omega arith), rw (no_counts ds) (omega arith), h)

take-Paid :
    (total d : ℕ) (ds : List ℕ) (legs_left sum take v : ℕ)
    → take ≤ legs_left
    → Paid total ds (legs_left - take) (sum + d * take) v
    → Paid total (d ∷ ds) legs_left sum v
unfolding leg_amounts
take-Paid total d ds legs_left sum take v h (counts, fits, worth, bound) =
    let amounts = leg_amounts ds counts in
    let value : sum_of (replicate take d ++ amounts) ≡ d * take + sum_of amounts =
      sum_of-append (replicate take d) amounts
      ∙ omega (arith, sum_of-replicate take d, mul_comm d take) in
    let legs : length (replicate take d ++ amounts) ≡ take + length amounts =
      length-append (replicate take d) amounts ∙ omega (arith, length-replicate take d) in
    (take ∷ counts, omega (arith, legs), omega (arith, value), bound)

Bettered-trans :
    (total : ℕ) (ds : List ℕ) (legs_left sum a b c : ℕ)
    → Bettered total ds legs_left sum a b
    → Bettered total ds legs_left sum b c
    → Bettered total ds legs_left sum a c
Bettered-trans total ds legs_left sum a b c (inl e) (inl f) = inl (f ∙ e)
Bettered-trans total ds legs_left sum a b c (inr (counts, fits, worth, bound)) (inl f) =
    inr (counts, fits, worth ∙ sym f, omega (arith, bound, f))
Bettered-trans total ds legs_left sum a b c h (inr p) = inr p

max-Bettered :
    (total : ℕ) (ds : List ℕ) (legs_left sum best v : ℕ)
    → Paid total ds legs_left sum v
    → Bettered total ds legs_left sum best (max best v)
max-Bettered total ds legs_left sum best v (counts, fits, worth, bound) =
    elim (Bool-cases (ltb best v)) [
      | inl more ↦
          let best_less : best < v = ground arith in
          let new : max best v ≡ v = omega arith in inr (counts, fits, worth ∙ sym new, omega arith)
      | inr less ↦ let enough : v ≤ best = ground arith in inl (omega arith)
    ]

take-Bettered :
    (total d : ℕ) (ds : List ℕ) (legs_left sum take best v : ℕ)
    → take ≤ legs_left
    → Bettered total ds (legs_left - take) (sum + d * take) best v
    → Bettered total (d ∷ ds) legs_left sum best v
take-Bettered total d ds legs_left sum take best v h (inl e) = inl e
take-Bettered total d ds legs_left sum take best v h (inr p) =
    inr (take-Paid total d ds legs_left sum take v h p)

abbrev Betters : ℕ → List ℕ → (ℕ → ℕ → ℕ → ℕ) → Type 0
Betters total ds below = (l s b : ℕ) → s ≤ total → Bettered total ds l s b (below l s b)

after_take-Bettered :
    (total : ℕ) (ds : List ℕ) (below : ℕ → ℕ → ℕ → ℕ) (legs_left sum best : ℕ)
    → Betters total ds below
    → sum ≤ total
    → Bettered total ds legs_left sum best (after_take below ds legs_left sum total best)
after_take-Bettered total ds below legs_left sum best betters bound =
    elim (Bool-cases (best == total)) [
      | inl hit ↦ rw hit (inl refl)
      | inr miss ↦ elim (Bool-cases (not (is_nil ds) && ltb 0 legs_left)) [
        | inl more ↦ rw (miss, more) (betters legs_left sum best bound)
        | inr none_left ↦ rw (miss, none_left) (inl refl)
      ]
    ]

descend-Bettered :
    (total d : ℕ) (ds : List ℕ) (below : ℕ → ℕ → ℕ → ℕ) (legs_left sum takes best : ℕ)
    → Betters total ds below
    → ((t : ℕ) → t < takes → (t ≤ legs_left) × (sum + d * t ≤ total))
    → sum ≤ total
    → Bettered total (d ∷ ds) legs_left sum best (descend below d ds legs_left sum total takes best)
unfolding descend
descend-Bettered total d ds below legs_left sum zero best betters allowed bound =
    max-Bettered total (d ∷ ds) legs_left sum best sum
      (nothing-Paid total (d ∷ ds) legs_left sum bound)
descend-Bettered total d ds below legs_left sum (suc take) best betters allowed bound =
    let whole = d ∷ ds in
    let reached = max best sum in
    let value = sum + d * take in
    let tried = max reached value in
    let deeper = after_take below ds (legs_left - take) value total tried in
    let (legs, worth) = allowed take (omega arith) in
    let first =
      max-Bettered total whole legs_left sum best sum
        (nothing-Paid total whole legs_left sum bound) in
    let second = max-Bettered total whole legs_left sum reached value (
      take-Paid total d ds legs_left sum take value legs
        (nothing-Paid total ds (legs_left - take) value worth)) in
    let third =
      take-Bettered total d ds legs_left sum take tried deeper legs
        (after_take-Bettered total ds below (legs_left - take) value tried betters worth) in
    let rest = descend below d ds legs_left sum total take deeper in
    let fourth =
      descend-Bettered total d ds below legs_left sum take deeper betters
        (λ t h. allowed t (omega arith)) bound in
    elim (Bool-cases (is_left d legs_left sum total reached)) [
      | inl left ↦ rw left first
      | inr goes_on ↦ rw goes_on (
          Bettered-trans total whole legs_left sum best reached rest first (
            Bettered-trans total whole legs_left sum reached tried rest second
              (Bettered-trans total whole legs_left sum tried deeper rest third fourth)))
    ]

affordable_take :
    (total sum d legs_left t : ℕ)
    → 0 < d
    → sum ≤ total
    → t < suc (max_take d legs_left (total - sum))
    → (t ≤ legs_left) × (sum + d * t ≤ total)
affordable_take total sum d legs_left t positive bound h =
    let product = (le-div_iff_mul-le {k = d} {x = t} {y = total - sum} positive).0 (omega arith) in
    (omega arith, omega (arith, product, mul_comm t d))

best_from-Bettered :
    (total : ℕ) (ds : List ℕ) (legs_left sum best : ℕ)
    → all (ltb 0) ds ≡ true
    → sum ≤ total
    → Bettered total ds legs_left sum best (best_from total ds legs_left sum best)
unfolding best_from
best_from-Bettered total [] legs_left sum best positive bound = inl refl
best_from-Bettered total (d ∷ ds) legs_left sum best positive bound =
    descend-Bettered total d ds (best_from total ds) legs_left sum
      (suc (max_take d legs_left (total - sum))) best
      (λ l s b h. best_from-Bettered total ds l s b (ground arith) h)
      (λ t h. affordable_take total sum d legs_left t (ground arith) bound h) bound

-- The search ends with an amount that some legs of its denominations pay, no more of them than
-- allowed, and that is at most the total.
pub best_from-Paid :
    (total : ℕ) (ds : List ℕ) (legs_left : ℕ)
    → all (ltb 0) ds ≡ true
    → Paid total ds legs_left 0 (best_from total ds legs_left 0 0)
best_from-Paid total ds legs_left positive =
    elim (best_from-Bettered total ds legs_left 0 0 positive (omega arith)) [
      | inl kept ↦ rw kept (nothing-Paid total ds legs_left 0 (omega arith))
      | inr paid ↦ paid
    ]
