-- ===== src/Queue/Shuffle.antt =====
-- `shuffle` of PoolPayoutQueue.ts, and that it keeps every element. A random number is a fraction
-- below 1, given by its number in the call.
use px.Prelude.{
  some_injective, ℕ, zero, suc, ◌+◌, ◌-◌, ◌*◌, ◌/◌, ◌≡◌, refl, ap, ◌∙◌, Bool, Option, none, some,
  List, [], ◌∷◌, length, arith, if◌then◌else◌,
}

-- `Math.floor(random() * (index + 1))`
abbrev pub selected : ℕ → ℕ × ℕ → ℕ
selected index (num, den) = num * (index + 1) / den

module _ {A : Type 0} where
  abbrev pub item : List A → ℕ → Option A
  item [] i = none
  item (x ∷ xs) zero = some x
  item (x ∷ xs) (suc i) = item xs i

  abbrev pub put_item : List A → ℕ → Option A → List A
  put_item xs i none = xs
  put_item [] i (some v) = []
  put_item (x ∷ xs) zero (some v) = v ∷ xs
  put_item (x ∷ xs) (suc i) (some v) = x ∷ put_item xs i (some v)

  -- `[values[i], values[j]] = [values[j], values[i]]`
  abbrev pub swap_items : List A → ℕ → ℕ → List A
  swap_items xs i j = put_item (put_item xs i (item xs j)) j (item xs i)

  -- The loop from `index` down to 1, where draw `n` of the call is the next one.
  unfoldable pub shuffle_from : (ℕ → ℕ × ℕ) → ℕ → ℕ → List A → List A
  shuffle_from draws n zero xs = xs
  shuffle_from draws n (suc index) xs =
      shuffle_from draws (n + 1) index (swap_items xs (suc index) (selected (suc index) (draws n)))

  abbrev pub shuffle_items : (ℕ → ℕ × ℕ) → List A → List A
  shuffle_items draws xs = shuffle_from draws 0 (length xs - 1) xs

  -- How many elements pass a test.
  abbrev pub count : (A → Bool) → List A → ℕ
  count p [] = 0
  count p (x ∷ xs) = (if p x then 1 else 0) + count p xs

  count-put_item :
      (p : A → Bool) (xs : List A) (i : ℕ) (a v : A)
      → item xs i ≡ some a
      → count p (put_item xs i (some v)) + (if p a then 1 else 0)
        ≡ count p xs + (if p v then 1 else 0)
  count-put_item p [] i a v e = cc
  count-put_item p (x ∷ xs) zero a v e = rw (some_injective e) (omega arith)
  count-put_item p (x ∷ xs) (suc i) a v e = ground (arith, count-put_item p xs i a v e)

  item-put_item :
      (xs : List A) (i j : ℕ) (b v : A)
      → item xs j ≡ some b
      → v ≡ b
      → item (put_item xs i (some v)) j ≡ some b
  item-put_item [] i j b v e f = cc
  item-put_item (x ∷ xs) zero zero b v e f = ap some f
  item-put_item (x ∷ xs) zero (suc j) b v e f = e
  item-put_item (x ∷ xs) (suc i) zero b v e f = e
  item-put_item (x ∷ xs) (suc i) (suc j) b v e f = item-put_item xs i j b v e f

  put_item-none : (xs : List A) (i : ℕ) (v : A) → item xs i ≡ none → put_item xs i (some v) ≡ xs
  put_item-none [] i v e = refl
  put_item-none (x ∷ xs) zero v e = cc
  put_item-none (x ∷ xs) (suc i) v e = ap (λ ys. x ∷ ys) (put_item-none xs i v e)

  count-swap_items :
      (p : A → Bool) (xs : List A) (i j : ℕ) → count p (swap_items xs i j) ≡ count p xs
  count-swap_items p xs i j = go (item xs i) refl (item xs j) refl
    where
      go :
          (a : Option A)
          → item xs i ≡ a
          → (b : Option A) → item xs j ≡ b
          → count p (put_item (put_item xs i b) j a) ≡ count p xs
      go none e none f = refl
      go none e (some b) f = ap (count p) (put_item-none xs i b e)
      go (some a) e none f = ap (count p) (put_item-none xs j a f)
      go (some a) e (some b) f =
          let first = count-put_item p xs i a b e in
          let second =
            count-put_item p (put_item xs i (some b)) j b a (item-put_item xs i j b b f refl) in
          omega (arith, first, second)

  -- A shuffle keeps how often a test is passed, whichever numbers are drawn.
  pub count-shuffle_from :
      (p : A → Bool) (draws : ℕ → ℕ × ℕ) (n index : ℕ) (xs : List A)
      → count p (shuffle_from draws n index xs) ≡ count p xs
  unfolding shuffle_from
  count-shuffle_from p draws n zero xs = refl
  count-shuffle_from p draws n (suc index) xs =
      count-shuffle_from p draws (n + 1) index
        (swap_items xs (suc index) (selected (suc index) (draws n)))
      ∙ count-swap_items p xs (suc index) (selected (suc index) (draws n))
