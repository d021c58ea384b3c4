-- ===== src/Denominations/Tilings.antt =====
-- The exact splits that the enumeration finds are splits, and none is missed.
use native.Mathlib.Nat.{div-mul-le_self, mul-le-mul_right}
use px.Prelude.{
  ℕ, zero, suc, ◌+◌, ◌-◌, ◌*◌, ◌/◌, ◌≤◌, ◌≡◌, refl, ap, inl, inr, Bool, true, not, ◌&&◌, List, [],
  ◌∷◌, ◌++◌, all, all-append, length, length-append, ltb, leb, ◌==◌, Bool-cases, arith,
}
use px.Denominations.Decompose.{
  is_nil, zeros, with_count, max_take, branch, takes, tilings, replicate, leg_amounts, sum_of,
}

pub sum_of-append : (xs ys : List ℕ) → sum_of (xs ++ ys) ≡ sum_of xs + sum_of ys
sum_of-append [] ys = omega arith
sum_of-append (x ∷ xs) ys = omega (arith, sum_of-append xs ys)

pub sum_of-replicate : (n d : ℕ) → sum_of (replicate n d) ≡ n * d
sum_of-replicate zero d = omega arith
sum_of-replicate (suc n) d = omega (arith, sum_of-replicate n d)

pub length-replicate : (n d : ℕ) → length (replicate n d) ≡ n
length-replicate zero d = refl
length-replicate (suc n) d = ap suc (length-replicate n d)

pub leg_amounts-zeros : (ds : List ℕ) → leg_amounts ds (zeros ds) ≡ []
unfolding leg_amounts
leg_amounts-zeros [] = refl
leg_amounts-zeros (d ∷ ds) = leg_amounts-zeros ds

-- A vector of counts whose legs are worth the rest and are no more than allowed.
abbrev pub is_tiling : List ℕ → ℕ → ℕ → List ℕ → Bool
is_tiling ds legs_left rest counts =
    sum_of (leg_amounts ds counts) == rest && leb (length (leg_amounts ds counts)) legs_left

is_tiling-cons :
    (d : ℕ) (ds : List ℕ) (legs_left rest take : ℕ) (counts : List ℕ)
    → take ≤ legs_left
    → take * d ≤ rest
    → is_tiling ds (legs_left - take) (rest - take * d) counts ≡ true
    → is_tiling (d ∷ ds) legs_left rest (take ∷ counts) ≡ true
unfolding leg_amounts
is_tiling-cons d ds legs_left rest take counts fits worth h = ground (
  arith,
  sum_of-append (replicate take d) (leg_amounts ds counts),
  sum_of-replicate take d,
  length-append (replicate take d) (leg_amounts ds counts),
  length-replicate take d,
)

all-with_count :
    (d : ℕ) (ds : List ℕ) (legs_left rest take : ℕ) (found : List (List ℕ))
    → take ≤ legs_left
    → take * d ≤ rest
    → all (is_tiling ds (legs_left - take) (rest - take * d)) found ≡ true
    → all (is_tiling (d ∷ ds) legs_left rest) (with_count take found) ≡ true
all-with_count d ds legs_left rest take [] fits worth h = refl
all-with_count d ds legs_left rest take (counts ∷ found) fits worth h = rw (
  is_tiling-cons d ds legs_left rest take counts fits worth (ground arith),
  all-with_count d ds legs_left rest take found fits worth (ground arith),
)

is_tiling-hit :
    (d : ℕ) (ds : List ℕ) (legs_left rest take : ℕ)
    → take ≤ legs_left
    → take * d == rest ≡ true
    → is_tiling (d ∷ ds) legs_left rest (take ∷ zeros ds) ≡ true
is_tiling-hit d ds legs_left rest take fits hit =
    is_tiling-cons d ds legs_left rest take (zeros ds) fits (ground arith)
      (rw (leg_amounts-zeros ds) (ground arith))

worth : (d rest take : ℕ) → take ≤ rest / d → take * d ≤ rest
worth d rest take h = le_trans (mul-le-mul_right d h) (div-mul-le_self rest d)
  where
    le_trans : {a b c : ℕ} → a ≤ b → b ≤ c → a ≤ c
    le_trans h k = omega arith

branch-is_tiling :
    (d : ℕ) (ds : List ℕ) (legs_left rest take : ℕ)
    → take ≤ legs_left
    → take * d ≤ rest
    → ((l r : ℕ) → all (is_tiling ds l r) (tilings ds l r) ≡ true)
    → all (is_tiling (d ∷ ds) legs_left rest) (branch (tilings ds) d ds legs_left rest take) ≡ true
branch-is_tiling d ds legs_left rest take fits worth below = elim (Bool-cases (take * d == rest)) [
  | inl hit ↦ rw hit (rw (is_tiling-hit d ds legs_left rest take fits hit))
  | inr miss ↦ elim (Bool-cases (not (is_nil ds) && ltb take legs_left)) [
    | inl deeper ↦
        rw (miss, deeper)
          (all-with_count d ds legs_left rest take _ fits worth
            (below (legs_left - take) (rest - take * d)))
    | inr leaf ↦ rw (miss, leaf)
  ]
]

takes-is_tiling :
    (d : ℕ) (ds : List ℕ) (legs_left rest more take : ℕ)
    → take + more ≤ max_take d legs_left rest
    → ((l r : ℕ) → all (is_tiling ds l r) (tilings ds l r) ≡ true)
    → all (is_tiling (d ∷ ds) legs_left rest) (takes (tilings ds) d ds legs_left rest more take)
      ≡ true
unfolding takes
takes-is_tiling d ds legs_left rest zero take bound below =
    branch-is_tiling d ds legs_left rest take (omega arith) (worth d rest take (omega arith)) below
takes-is_tiling d ds legs_left rest (suc more) take bound below =
    all-append _ (branch (tilings ds) d ds legs_left rest take) _
      (branch-is_tiling d ds legs_left rest take (omega arith) (worth d rest take (omega arith))
        below)
      (takes-is_tiling d ds legs_left rest more (take + 1) (omega arith) below)

-- Every split that the enumeration finds is worth the total and has no more legs than allowed.
pub tilings-are_exact :
    (ds : List ℕ) (legs_left rest : ℕ)
    → all (is_tiling ds legs_left rest) (tilings ds legs_left rest) ≡ true
unfolding tilings
tilings-are_exact [] legs_left rest = refl
tilings-are_exact (d ∷ ds) legs_left rest =
    takes-is_tiling d ds legs_left rest (max_take d legs_left rest) 0 (omega arith)
      (tilings-are_exact ds)
