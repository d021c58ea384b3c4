-- ===== src/Denominations/Loop.antt =====
-- The loop over the stack ends, and has found the exact splits in the order of the recursion.
use mathlib.Core.Path.{subst}
use mathlib.Core.List.{append-nil, append_assoc}
use native.Mathlib.Nat.{mul_comm, mul-le-mul_right, min-le_right, div-mul-le_self}
use px.Prelude.{
  ℕ, zero, suc, ◌+◌, ◌-◌, ◌*◌, ◌/◌, ◌≤◌, ◌≡◌, refl, sym, ap, ◌∙◌, inl, inr, true, false, not, ◌&&◌,
  List, [], ◌∷◌, ◌++◌, length, ltb, ◌==◌, Bool-cases, arith,
}
use px.Denominations.Decompose.{is_nil, zeros, max_take, branch, takes, tilings}
use px.Denominations.Walk.{
  Leads, Leads-trans, set_nth-middle, one_round, behind, at_frame, WorksOff, behind-append,
  child-Leads,
}
use px.Denominations.Search.{Frame, frame_for, rounds, initial_search}

-- What a take changes: the frame goes on, its count is written, and the splits of the take follow.
abbrev TakeLeads : ℕ → ℕ → ℕ → List ℕ → Type 0
TakeLeads max_legs total d ds =
    (pre : List ℕ) (stack : List Frame) (found : List (List ℕ)) (coins sum take last c : ℕ)
    → take ≤ last
    → sum + take * d ≤ total
    → coins + take ≤ max_legs
    → Leads max_legs total
        (record {
          stack = at_frame (length pre) (d ∷ ds) coins sum take last ∷ stack;
          counts = pre ++ c ∷ zeros ds;
          found = found;
        })
        (record {
          stack = at_frame (length pre) (d ∷ ds) coins sum (take + 1) last ∷ stack;
          counts = pre ++ take ∷ zeros ds;
          found =
              found ++ behind pre (branch (tilings ds) d ds (max_legs - coins) (total - sum) take);
        })

take-Leads :
    (max_legs total d : ℕ) (ds : List ℕ)
    → (not (is_nil ds) ≡ true → WorksOff max_legs total ds)
    → TakeLeads max_legs total d ds
take-Leads max_legs total d ds below pre stack found coins sum take last c runs worth fits =
    let going : ltb last take ≡ false = ground arith in
    let product = mul_comm d take in
    elim (Bool-cases (take * d == total - sum)) [
      | inl hit ↦
          let met : (sum + d * take == total) ≡ true = ground (arith, product) in
          rw hit
            (one_round max_legs total _ _ (rw (going, met, set_nth-middle pre c take (zeros ds))))
      | inr miss ↦
          let unmet : (sum + d * take == total) ≡ false = ground (arith, product) in
          elim (Bool-cases (not (is_nil ds) && ltb take (max_legs - coins))) [
            | inr leaf ↦
                let stays : (not (is_nil ds) && ltb (coins + take) max_legs) ≡ false =
                  ground arith in
                rw (miss, leaf, append-nil found)
                  (one_round max_legs total _ _
                    (rw (going, unmet, stays, set_nth-middle pre c take (zeros ds))))
            | inl deeper ↦
                let goes : (not (is_nil ds) && ltb (coins + take) max_legs) ≡ true = ground arith in
                let after = at_frame (length pre) (d ∷ ds) coins sum (take + 1) last ∷ stack in
                rw (miss, deeper)
                  (Leads-trans max_legs total _ _ _
                    (one_round max_legs total _
                      (record {
                        stack =
                            frame_for max_legs total (length pre + 1) ds (coins + take)
                              (sum + d * take)
                            ∷ after;
                        counts = pre ++ take ∷ zeros ds;
                        found = found;
                      })
                      (rw (going, unmet, goes, set_nth-middle pre c take (zeros ds))))
                    (child-Leads max_legs total d ds (below (ground arith)) pre after found coins
                      sum take worth fits))
          ]
    ]

-- The round that finds no take left puts the count back to zero and pops the frame.
pop-Leads :
    (max_legs total d : ℕ) (ds pre : List ℕ) (stack : List Frame) (found : List (List ℕ))
    (coins sum take last c : ℕ)
    → ltb last take ≡ true
    → Leads max_legs total
        (record {
          stack = at_frame (length pre) (d ∷ ds) coins sum take last ∷ stack;
          counts = pre ++ c ∷ zeros ds;
          found = found;
        })
        (record { stack = stack; counts = pre ++ 0 ∷ zeros ds; found = found })
pop-Leads max_legs total d ds pre stack found coins sum take last c over =
    one_round max_legs total _ _ (rw (over, set_nth-middle pre c 0 (zeros ds)))

within : (d take last bound : ℕ) → take ≤ last → last * d ≤ bound → take * d ≤ bound
within d take last bound h k = let m = mul-le-mul_right d h in omega arith

takes-lead :
    (max_legs total d : ℕ) (ds : List ℕ)
    → (not (is_nil ds) ≡ true → WorksOff max_legs total ds)
    → (pre : List ℕ) (stack : List Frame) (found : List (List ℕ)) (coins sum more take last c : ℕ)
    → take + more ≡ last
    → sum ≤ total
    → coins ≤ max_legs
    → last ≤ max_legs - coins
    → last * d ≤ total - sum
    → Leads max_legs total
        (record {
          stack = at_frame (length pre) (d ∷ ds) coins sum take last ∷ stack;
          counts = pre ++ c ∷ zeros ds;
          found = found;
        })
        (record {
          stack = stack;
          counts = pre ++ 0 ∷ zeros ds;
          found =
              found
              ++ behind pre (takes (tilings ds) d ds (max_legs - coins) (total - sum) more take);
        })
unfolding takes
takes-lead max_legs total d ds below pre stack found coins sum zero take last c reach low fits legs
      worth =
    let step_worth = within d take last (total - sum) (omega arith) worth in
    Leads-trans max_legs total _ _ _
      (take-Leads max_legs total d ds below pre stack found coins sum take last c (omega arith)
        (omega arith) (omega arith))
      (pop-Leads max_legs total d ds pre stack _ coins sum (take + 1) last take (ground arith))
takes-lead max_legs total d ds below pre stack found coins sum (suc more) take last c reach low fits
      legs worth =
    let step_worth = within d take last (total - sum) (omega arith) worth in
    let here = branch (tilings ds) d ds (max_legs - coins) (total - sum) take in
    let later = takes (tilings ds) d ds (max_legs - coins) (total - sum) more (take + 1) in
    let joined : (found ++ behind pre here) ++ behind pre later
        ≡ found ++ behind pre (here ++ later) =
      append_assoc found (behind pre here) (behind pre later)
      ∙ ap (λ x. found ++ x) (sym (behind-append pre here later)) in
    subst
      (λ x.
        Leads max_legs total
          (record {
            stack = at_frame (length pre) (d ∷ ds) coins sum take last ∷ stack;
            counts = pre ++ c ∷ zeros ds;
            found = found;
          })
          (record { stack = stack; counts = pre ++ 0 ∷ zeros ds; found = x }))
      joined
      (Leads-trans max_legs total _ _ _
        (take-Leads max_legs total d ds below pre stack found coins sum take last c (omega arith)
          (omega arith) (omega arith))
        (takes-lead max_legs total d ds below pre stack (found ++ behind pre here) coins sum more
          (take + 1) last take (omega arith) low fits legs worth))

last_take-within : (d legs rest : ℕ) → max_take d legs rest * d ≤ rest
last_take-within d legs rest =
    let m = mul-le-mul_right d (min-le_right legs (rest / d)) in
    let q = div-mul-le_self rest d in omega arith

-- Every pushed frame is worked off, whatever lies under it.
works_off : (max_legs total d : ℕ) (ds : List ℕ) → WorksOff max_legs total (d ∷ ds)
unfolding tilings
works_off max_legs total d [] pre stack found coins sum low fits =
    takes-lead max_legs total d [] (λ h. cc) pre stack found coins sum
      (max_take d (max_legs - coins) (total - sum)) 0 (max_take d (max_legs - coins) (total - sum))
      0 (omega arith) low fits (omega arith) (last_take-within d (max_legs - coins) (total - sum))
works_off max_legs total d (e ∷ ds) pre stack found coins sum low fits =
    takes-lead max_legs total d (e ∷ ds) (λ h. works_off max_legs total e ds) pre stack found coins
      sum (max_take d (max_legs - coins) (total - sum)) 0
      (max_take d (max_legs - coins) (total - sum)) 0 (omega arith) low fits (omega arith)
      (last_take-within d (max_legs - coins) (total - sum))

-- The loop over the explicit stack ends after finitely many rounds, with an empty stack, and has then
-- found the splits of the total in the order in which the recursion lists them.
pub search-finds_tilings :
    (max_legs total d : ℕ) (ds : List ℕ)
    → (n : ℕ) × (rounds max_legs total n (initial_search max_legs total (d ∷ ds))
        ≡ record { stack = []; counts = zeros (d ∷ ds); found = tilings (d ∷ ds) max_legs total })
search-finds_tilings max_legs total d ds =
    let (n, e) = works_off max_legs total d ds [] [] [] 0 0 (omega arith) (omega arith) in
    let legs : max_legs - 0 ≡ max_legs = omega arith in
    let rest : total - 0 ≡ total = omega arith in
    (
      n,
      e
          ∙ ap (λ x. record { stack = []; counts = zeros (d ∷ ds); found = x })
              (plain (tilings (d ∷ ds) (max_legs - 0) (total - 0))
                ∙ ap (λ l. tilings (d ∷ ds) l (total - 0)) legs
                ∙ ap (tilings (d ∷ ds) max_legs) rest),
    )
  where
    plain : (xs : List (List ℕ)) → behind [] xs ≡ xs
    plain [] = refl
    plain (x ∷ xs) = ap (◌∷◌ x) (plain xs)
