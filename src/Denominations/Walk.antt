-- ===== src/Denominations/Walk.antt =====
-- How the loop over the stack goes from state to state, and the frame that a take pushes.
use mathlib.Core.Path.{subst}
use mathlib.Core.List.{append_assoc}
use native.Mathlib.Nat.{mul_comm}
use px.Prelude.{
  ℕ, zero, suc, ◌+◌, ◌-◌, ◌*◌, ◌≤◌, ◌≡◌, refl, ap, ◌∙◌, List, [], ◌∷◌, ◌++◌, map, length, arith,
}
use px.Denominations.Decompose.{zeros, with_count, tilings, set_nth}
use px.Denominations.Search.{Frame, Search, frame_for, round, rounds}

rounds_add :
    (max_legs total a b : ℕ) (s : Search)
    → rounds max_legs total (a + b) s ≡ rounds max_legs total b (rounds max_legs total a s)
unfolding rounds
rounds_add max_legs total zero b s =
    let same : b ≡ zero + b = omega arith in
    subst (λ n. rounds max_legs total n s ≡ rounds max_legs total b s) same refl
rounds_add max_legs total (suc a) b s =
    let same : suc (a + b) ≡ suc a + b = omega arith in
    subst
      (λ n.
        rounds max_legs total n s
        ≡ rounds max_legs total b (rounds max_legs total a (round max_legs total s)))
      same (rounds_add max_legs total a b (round max_legs total s))

pub set_nth-middle :
    (pre : List ℕ) (c v : ℕ) (rest : List ℕ)
    → set_nth (pre ++ c ∷ rest) (length pre) v ≡ pre ++ v ∷ rest
set_nth-middle [] c v rest = refl
set_nth-middle (p ∷ pre) c v rest = ap (◌∷◌ p) (set_nth-middle pre c v rest)

-- From one state the loop comes to another.
abbrev pub Leads : ℕ → ℕ → Search → Search → Type 0
Leads max_legs total s s' = (n : ℕ) × (rounds max_legs total n s ≡ s')

pub Leads-trans :
    (max_legs total : ℕ) (s s' s'' : Search)
    → Leads max_legs total s s'
    → Leads max_legs total s' s''
    → Leads max_legs total s s''
Leads-trans max_legs total s s' s'' (a, e) (b, f) =
    (a + b, rounds_add max_legs total a b s ∙ ap (rounds max_legs total b) e ∙ f)

pub one_round :
    (max_legs total : ℕ) (s s' : Search) → round max_legs total s ≡ s' → Leads max_legs total s s'
unfolding rounds
one_round max_legs total s s' e = (1, e)

abbrev pub behind : List ℕ → List (List ℕ) → List (List ℕ)
behind pre found = map (λ counts. pre ++ counts) found

abbrev pub at_frame : ℕ → List ℕ → ℕ → ℕ → ℕ → ℕ → Frame
at_frame index tiers coins sum take last = record {
  index = index;
  tiers = tiers;
  coins = coins;
  sum = sum;
  next_take = take;
  last_take = last;
}

-- A frame that has just been pushed is worked off, and has left its splits.
abbrev pub WorksOff : ℕ → ℕ → List ℕ → Type 0
WorksOff max_legs total ds =
    (pre : List ℕ) (stack : List Frame) (found : List (List ℕ)) (coins sum : ℕ)
    → sum ≤ total
    → coins ≤ max_legs
    → Leads max_legs total
        (record {
          stack = frame_for max_legs total (length pre) ds coins sum ∷ stack;
          counts = pre ++ zeros ds;
          found = found;
        })
        (record {
          stack = stack;
          counts = pre ++ zeros ds;
          found = found ++ behind pre (tilings ds (max_legs - coins) (total - sum));
        })

pub behind-append :
    (pre : List ℕ) (xs ys : List (List ℕ)) → behind pre (xs ++ ys) ≡ behind pre xs ++ behind pre ys
behind-append pre [] ys = refl
behind-append pre (x ∷ xs) ys = ap (◌∷◌ (pre ++ x)) (behind-append pre xs ys)

behind-with_count :
    (pre : List ℕ) (take : ℕ) (xs : List (List ℕ))
    → behind (pre ++ take ∷ []) xs ≡ behind pre (with_count take xs)
behind-with_count pre take [] = refl
behind-with_count pre take (x ∷ xs) =
    rw (append_assoc pre (take ∷ []) x, behind-with_count pre take xs)

length-snoc : (pre : List ℕ) (take : ℕ) → length (pre ++ take ∷ []) ≡ length pre + 1
length-snoc [] take = omega arith
length-snoc (p ∷ pre) take = omega (arith, length-snoc pre take)

-- The frame of the next denomination is worked off behind the take.
pub child-Leads :
    (max_legs total d : ℕ) (ds : List ℕ)
    → WorksOff max_legs total ds
    → (pre : List ℕ) (stack : List Frame) (found : List (List ℕ)) (coins sum take : ℕ)
    → sum + take * d ≤ total
    → coins + take ≤ max_legs
    → Leads max_legs total
        (record {
          stack =
              frame_for max_legs total (length pre + 1) ds (coins + take) (sum + d * take) ∷ stack;
          counts = pre ++ take ∷ zeros ds;
          found = found;
        })
        (record {
          stack = stack;
          counts = pre ++ take ∷ zeros ds;
          found =
              found
              ++ behind pre
                  (with_count take (tilings ds (max_legs - coins - take) (total - sum - take * d)));
        })
child-Leads max_legs total d ds below pre stack found coins sum take worth fits =
    let product = mul_comm d take in
    let child =
      below (pre ++ take ∷ []) stack found (coins + take) (sum + d * take) (omega (arith, product))
        fits in
    let legs : max_legs - (coins + take) ≡ max_legs - coins - take = omega arith in
    let rest : total - (sum + d * take) ≡ total - sum - take * d = omega (arith, product) in
    let splits : behind (pre ++ take ∷ [])
          (tilings ds (max_legs - (coins + take)) (total - (sum + d * take)))
        ≡ behind pre
            (with_count take (tilings ds (max_legs - coins - take) (total - sum - take * d))) =
      behind-with_count pre take (tilings ds (max_legs - (coins + take)) (total - (sum + d * take)))
      ∙ ap (λ l. behind pre (with_count take (tilings ds l (total - (sum + d * take))))) legs
      ∙ ap (λ r. behind pre (with_count take (tilings ds (max_legs - coins - take) r))) rest in
    subst
      (λ i.
        Leads max_legs total
          (record {
            stack = frame_for max_legs total i ds (coins + take) (sum + d * take) ∷ stack;
            counts = pre ++ take ∷ zeros ds;
            found = found;
          })
          (record {
            stack = stack;
            counts = pre ++ take ∷ zeros ds;
            found =
                found
                ++ behind pre (
                    with_count take
                      (tilings ds (max_legs - coins - take) (total - sum - take * d)));
          }))
      (length-snoc pre take)
      (subst
        (λ x.
          Leads max_legs total
            (record {
              stack =
                  frame_for max_legs total (length (pre ++ take ∷ [])) ds (coins + take)
                    (sum + d * take)
                  ∷ stack;
              counts = pre ++ take ∷ zeros ds;
              found = found;
            })
            (record { stack = stack; counts = pre ++ take ∷ zeros ds; found = found ++ x }))
        splits
        (subst
          (λ c.
            Leads max_legs total
              (record {
                stack =
                    frame_for max_legs total (length (pre ++ take ∷ [])) ds (coins + take)
                      (sum + d * take)
                    ∷ stack;
                counts = c;
                found = found;
              })
              (record {
                stack = stack;
                counts = c;
                found =
                    found
                    ++ behind (pre ++ take ∷ [])
                        (tilings ds (max_legs - (coins + take)) (total - (sum + d * take)));
              }))
          (append_assoc pre (take ∷ []) (zeros ds)) child))
