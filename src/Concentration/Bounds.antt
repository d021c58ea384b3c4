-- ===== src/Concentration/Bounds.antt =====
-- The range of the adaptive target, and the evidence behind it.
use mathlib.Core.Path.{subst}
use native.Mathlib.Numerals.{unary_clauses}
use native.Mathlib.Nat.{suc-mul, div-lt_iff_lt-mul, mul-le-mul_right, min-le_right, mul_comm}
use px.Prelude.{
  some_injective, ℕ, zero, suc, ◌-◌, ◌*◌, ◌≤◌, ◌<◌, min, max, ◌≡◌, refl, sym, ap, ◌∙◌, inl, inr,
  Bool, true, ◌&&◌, ◌||◌, some, List, [], ◌∷◌, keep, map, any, length, ltb, leb, Bool-cases,
  Option-cases, arith, is_some, ◌⊎◌,
}
use px.Concentration.Target.{
  KEffSample, AdaptiveTargetInput, insert_ascending, ascending, nth, is_evidence, observed,
  quantile_index, clamp_target, adaptive_k_eff_target,
}

length-insert_ascending : (x : ℕ) (xs : List ℕ) → length (insert_ascending x xs) ≡ suc (length xs)
unfolding insert_ascending
length-insert_ascending x [] = refl
length-insert_ascending x (y ∷ ys) = ground (arith, length-insert_ascending x ys)

any-insert_ascending :
    (p : ℕ → Bool) (x : ℕ) (xs : List ℕ) → any p (insert_ascending x xs) ≡ (p x || any p xs)
unfolding insert_ascending
any-insert_ascending p x [] = refl
any-insert_ascending p x (y ∷ ys) = ground (arith, any-insert_ascending p x ys)

any-ascending : (p : ℕ → Bool) (xs : List ℕ) → any p (ascending xs) ≡ any p xs
unfolding ascending
any-ascending p [] = refl
any-ascending p (x ∷ xs) =
    any-insert_ascending p x (ascending xs) ∙ ap (◌||◌ (p x)) (any-ascending p xs)

any-nth :
    (p : ℕ → Bool) (k : ℕ) (xs : List ℕ) (i : ℕ) → nth xs i ≡ some k → p k ≡ true → any p xs ≡ true
any-nth p k [] i e h = cc
any-nth p k (x ∷ xs) zero e h = cc
any-nth p k (x ∷ xs) (suc i) e h = ground (arith, any-nth p k xs i e h)

nth-some : (xs : List ℕ) (i : ℕ) → i < length xs → is_some (nth xs i) ≡ true
nth-some [] i h = ground arith
nth-some (x ∷ xs) zero h = refl
nth-some (x ∷ xs) (suc i) h = nth-some xs i (omega arith)

-- Whether a sample of the window shows a k_eff of at least t.
abbrev pub shows : ℕ → ℕ → ℕ → KEffSample → Bool
shows now_ms window_ms t s = is_evidence now_ms window_ms s && leb t s.k_eff

any-map-keep :
    (now_ms window_ms t : ℕ) (samples : List KEffSample)
    → any (leb t) (map (λ s. s.k_eff) (keep (is_evidence now_ms window_ms) samples))
      ≡ any (shows now_ms window_ms t) samples
any-map-keep now_ms window_ms t [] = refl
any-map-keep now_ms window_ms t (s ∷ samples) = elim (Bool-cases (is_evidence now_ms window_ms s)) [
  | inl e ↦ rw e (ap (◌||◌ (leb t s.k_eff)) (any-map-keep now_ms window_ms t samples))
  | inr e ↦ rw e (any-map-keep now_ms window_ms t samples)
]

le_trans_lt : (a b c : ℕ) → a ≤ b → b < c → a < c
le_trans_lt a b c h k = omega arith

mul_lt : (n d : ℕ) → 1 ≤ d → n * d < suc n * d
mul_lt n d h = omega (arith, suc-mul n d)

pred_lt : (d count : ℕ) → 1 ≤ d → 1 ≤ count → d * (count - 1) < count * d
pred_lt d zero h c = omega arith
pred_lt d (suc n) h c =
    simp unary_clauses (subst (λ x. x < suc n * d) (mul_comm n d) (mul_lt n d h))

-- A quantile of 0 to 1 stays inside the observations.
quantile_index-inside :
    (input : AdaptiveTargetInput) (count : ℕ)
    → 1 ≤ input.quantile_den
    → 1 ≤ count
    → quantile_index input count < count
quantile_index-inside input count d c =
    (div-lt_iff_lt-mul {x = min input.quantile_num input.quantile_den * (count - 1)} d).1 (
      le_trans_lt _ _ _
        (mul-le-mul_right (count - 1) (min-le_right input.quantile_num input.quantile_den))
        (pred_lt input.quantile_den count d c))

length-ascending : (xs : List ℕ) → length (ascending xs) ≡ length xs
unfolding ascending
length-ascending [] = refl
length-ascending (x ∷ xs) = length-insert_ascending x (ascending xs) ∙ ap suc (length-ascending xs)

-- The adaptive target is a number for every quantile when at least one sample is asked for.
pub adaptive_k_eff_target-some :
    (input : AdaptiveTargetInput)
    → 1 ≤ input.quantile_den
    → 1 ≤ input.min_samples
    → is_some (adaptive_k_eff_target input) ≡ true
unfolding adaptive_k_eff_target
adaptive_k_eff_target-some input d m =
    let seen = observed input in
    elim (Bool-cases (ltb (length seen) input.min_samples)) [
      | inl e ↦ rw e
      | inr e ↦ rw e (elim (Option-cases (nth seen (quantile_index input (length seen)))) [
        | inl gone ↦ ground (
          arith,
          nth-some seen (quantile_index input (length seen)),
          quantile_index-inside input (length seen),
        )
        | inr (k, some_k) ↦ rw some_k
      ])
    ]

observed-shows :
    (input : AdaptiveTargetInput) (t : ℕ)
    → any (leb t) (observed input) ≡ any (shows input.now_ms input.window_ms t) input.samples
unfolding observed
observed-shows input t =
    any-ascending (leb t)
      (map (λ s. s.k_eff) (keep (is_evidence input.now_ms input.window_ms) input.samples))
    ∙ any-map-keep input.now_ms input.window_ms t input.samples

clamp_target-bounds :
    (input : AdaptiveTargetInput) (t i : ℕ)
    → clamp_target input.ceiling (nth (observed input) i) ≡ some t
    → (1 ≤ t)
      × (t ≤ max 1 input.ceiling)
      × ((t ≤ 1) ⊎ (any (shows input.now_ms input.window_ms t) input.samples ≡ true))
clamp_target-bounds input t i h = elim (Option-cases (nth (observed input) i)) [
  | inl gone ↦ ground (arith, rw gone at h)
  | inr (k, at_i) ↦
      let same : max 1 (min input.ceiling k) ≡ t = some_injective (rw at_i at h) in
      (
        omega arith,
        omega arith,
        elim (Bool-cases (leb t 1)) [
          | inl low ↦ inl (ground arith)
          | inr high ↦ inr (
              sym (observed-shows input t)
              ∙ any-nth (leb t) k (observed input) i at_i (ground arith))
        ],
      )
]

-- The target is at least 1 and never above the ceiling, or above 1 if the ceiling is 0.
-- A target above 1 rests on evidence: some sample of the window has a k_eff of at least it.
pub adaptive_k_eff_target-bounds :
    (input : AdaptiveTargetInput) (t : ℕ)
    → adaptive_k_eff_target input ≡ some t
    → (1 ≤ t)
      × (t ≤ max 1 input.ceiling)
      × ((t ≤ 1) ⊎ (any (shows input.now_ms input.window_ms t) input.samples ≡ true))
unfolding adaptive_k_eff_target
adaptive_k_eff_target-bounds input t h =
    let seen = observed input in
    elim (Bool-cases (ltb (length seen) input.min_samples)) [
      | inl e ↦
          let one : 1 ≡ t = some_injective (rw e at h) in
          (omega arith, omega arith, inl (omega arith))
      | inr e ↦ clamp_target-bounds input t _ (rw e at h)
    ]
