-- ===== src/Denominations/Search.antt =====
-- The explicit stack of `decomposePayout`: one step is one round of its `while` loop.
use px.Prelude.{
  ℕ, zero, suc, ◌+◌, ◌-◌, ◌*◌, not, ◌&&◌, List, [], ◌∷◌, ◌++◌, ltb, ◌==◌, if◌then◌else◌,
}
use px.Denominations.Decompose.{is_nil, zeros, max_take, set_nth}

-- `tiers` is the denominations from `index` on.
pub record Frame : Type 0 where
  pub index : ℕ
  pub tiers : List ℕ
  pub coins : ℕ
  pub sum : ℕ
  pub next_take : ℕ
  pub last_take : ℕ

pub record Search : Type 0 where
  pub stack : List Frame
  pub counts : List ℕ
  pub found : List (List ℕ)

abbrev first_tier : List ℕ → ℕ
first_tier [] = 0
first_tier (d ∷ _) = d

-- `frameFor`
abbrev pub frame_for : ℕ → ℕ → ℕ → List ℕ → ℕ → ℕ → Frame
frame_for max_legs total index tiers coins sum = record {
  index = index;
  tiers = tiers;
  coins = coins;
  sum = sum;
  next_take = 0;
  last_take = max_take (first_tier tiers) (max_legs - coins) (total - sum);
}

abbrev rest_tiers : List ℕ → List ℕ
rest_tiers [] = []
rest_tiers (_ ∷ ds) = ds

-- The round of a frame that has a take left.
abbrev take_next : ℕ → ℕ → Frame → List Frame → List ℕ → List (List ℕ) → Search
take_next max_legs total f stack counts found =
    let take = f.next_take in
    let after = record f { next_take = take + 1 } in
    let counted = set_nth counts f.index take in
    let coins = f.coins + take in
    let sum = f.sum + first_tier f.tiers * take in
    if sum == total
    then record { stack = after ∷ stack; counts = counted; found = found ++ counted ∷ [] }
    else if not (is_nil (rest_tiers f.tiers)) && ltb coins max_legs
    then record {
      stack = frame_for max_legs total (f.index + 1) (rest_tiers f.tiers) coins sum ∷ after ∷ stack;
      counts = counted;
      found = found;
    }
    else record { stack = after ∷ stack; counts = counted; found = found }

abbrev round_of : ℕ → ℕ → List Frame → List ℕ → List (List ℕ) → Search
round_of max_legs total [] counts found = record { stack = []; counts = counts; found = found }
round_of max_legs total (f ∷ stack) counts found =
    if ltb f.last_take f.next_take
    then record { stack = stack; counts = set_nth counts f.index 0; found = found }
    else take_next max_legs total f stack counts found

-- One round of the loop, which has ended when the stack is empty.
abbrev pub round : ℕ → ℕ → Search → Search
round max_legs total s = round_of max_legs total s.stack s.counts s.found

unfoldable pub rounds : ℕ → ℕ → ℕ → Search → Search
rounds max_legs total zero s = s
rounds max_legs total (suc n) s = rounds max_legs total n (round max_legs total s)

-- The state before the loop.
abbrev pub initial_search : ℕ → ℕ → List ℕ → Search
initial_search max_legs total ds = record {
  stack = frame_for max_legs total 0 ds 0 0 ∷ [];
  counts = zeros ds;
  found = [];
}
