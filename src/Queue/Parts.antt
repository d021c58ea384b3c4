-- ===== src/Queue/Parts.antt =====
-- What holds of every element of a list holds of its parts and of its shuffles.
use px.Prelude.{
  ℕ, zero, suc, ◌+◌, Bool, Option, none, some, List, [], ◌∷◌, ◌++◌, keep, Bool-cases, inl, inr,
}
use px.Queue.Shuffle.{item, put_item, swap_items, selected, shuffle_from}

module _ {A : Type 0} (P : A → Type 0) where
  abbrev pub Every : List A → Type 0
  Every [] = Unit
  Every (x ∷ xs) = P x × Every xs

  pub Every-append : (xs ys : List A) → Every xs → Every ys → Every (xs ++ ys)
  Every-append [] ys h k = k
  Every-append (x ∷ xs) ys (h, hs) k = (h, Every-append xs ys hs k)

  pub Every-keep : (q : A → Bool) (xs : List A) → Every xs → Every (keep q xs)
  Every-keep q [] h = tt
  Every-keep q (x ∷ xs) (h, hs) = elim (Bool-cases (q x)) [
    | inl e ↦ rw e (h, Every-keep q xs hs)
    | inr e ↦ rw e (Every-keep q xs hs)
  ]

  -- The element at a place, if there is one.
  abbrev Held : Option A → Type 0
  Held none = Unit
  Held (some a) = P a

  Every-item : (xs : List A) (i : ℕ) → Every xs → Held (item xs i)
  Every-item [] i h = tt
  Every-item (x ∷ xs) zero (h, hs) = h
  Every-item (x ∷ xs) (suc i) (h, hs) = Every-item xs i hs

  Every-put_item :
      (xs : List A) (i : ℕ) (v : Option A) → Every xs → Held v → Every (put_item xs i v)
  Every-put_item xs i none h k = h
  Every-put_item [] i (some v) h k = tt
  Every-put_item (x ∷ xs) zero (some v) (h, hs) k = (k, hs)
  Every-put_item (x ∷ xs) (suc i) (some v) (h, hs) k = (h, Every-put_item xs i (some v) hs k)

  pub Every-shuffle_from :
      (draws : ℕ → ℕ × ℕ) (n index : ℕ) (xs : List A)
      → Every xs
      → Every (shuffle_from draws n index xs)
  unfolding shuffle_from
  Every-shuffle_from draws n zero xs h = h
  Every-shuffle_from draws n (suc index) xs h =
      let j = selected (suc index) (draws n) in
      Every-shuffle_from draws (n + 1) index (swap_items xs (suc index) j) (
        Every-put_item (put_item xs (suc index) (item xs j)) j (item xs (suc index))
          (Every-put_item xs (suc index) (item xs j) h (Every-item xs j h))
          (Every-item xs (suc index) h))
