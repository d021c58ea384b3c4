-- ===== src/Denominations/Ladders.antt =====
-- Parity with the first network is parity between all of them.
use mathlib.Core.Path.{subst}
use native.Mathlib.Nat.{mul-div_cancel, mul_right_comm, one-le-pow}
use px.Prelude.{
  ℕ, ◌*◌, ◌/◌, ◌^◌, ◌≤◌, String, ◌≡◌, refl, sym, ap, ◌∙◌, inl, inr, true, false, Option, none, some,
  List, [], ◌∷◌, some_injective, length, Bool-cases, arith,
}
use px.Prelude.Text.{str_eq, str_eq_iff}
use px.Prelude.Dict.{Dict, lookup, lookup-nil}
use px.Denominations.Config.{DenominationConfig, DenominationError}
use px.Denominations.Parity.{
  Networks, ladders_match, first_error, compare_known, compare_all, compare_network, compare_rest,
  denomination_parity_error,
}

lookup-here :
    (n a : String) (c : DenominationConfig) (rest : Networks)
    → str_eq n a ≡ true
    → lookup a ((n, c) ∷ rest) ≡ some c
unfolding lookup
lookup-here n a c rest h = rw h

lookup-there :
    (n a : String) (c : DenominationConfig) (rest : Networks)
    → str_eq n a ≡ false
    → lookup a ((n, c) ∷ rest) ≡ lookup a rest
unfolding lookup
lookup-there n a c rest h = rw h

mul_cancel : (a b k : ℕ) → 1 ≤ k → a * k ≡ b * k → a ≡ b
mul_cancel a b k h e = sym (mul-div_cancel a h) ∙ ap (λ x. x / k) e ∙ mul-div_cancel b h

-- x and y are both t, each on its own scale.
same_value : (x y t s1 s2 s0 : ℕ) → 1 ≤ s0 → x * s0 ≡ t * s1 → y * s0 ≡ t * s2 → x * s2 ≡ y * s1
same_value x y t s1 s2 s0 h e f = mul_cancel (x * s2) (y * s1) s0 h (
    mul_right_comm x s2 s0
    ∙ ap (λ v. v * s2) e
    ∙ mul_right_comm t s1 s2
    ∙ ap (λ v. v * s1) (sym f)
    ∙ mul_right_comm y s0 s1)

ladders_match-compose :
    (s1 s2 s0 : ℕ) (xs ys ts : List ℕ)
    → 1 ≤ s0
    → length xs ≡ length ts
    → length ys ≡ length ts
    → ladders_match s1 s0 xs ts ≡ true
    → ladders_match s2 s0 ys ts ≡ true
    → ladders_match s1 s2 xs ys ≡ true
unfolding ladders_match
ladders_match-compose s1 s2 s0 [] ys ts pos_scale l k h g = refl
ladders_match-compose s1 s2 s0 (x ∷ xs) [] ts pos_scale l k h g = refl
ladders_match-compose s1 s2 s0 (x ∷ xs) (y ∷ ys) [] pos_scale l k h g = ground arith
ladders_match-compose s1 s2 s0 (x ∷ xs) (y ∷ ys) (t ∷ ts) pos_scale l k h g =
    let same = same_value x y t s1 s2 s0 pos_scale (ground arith) (ground arith) in
    let rest =
      ladders_match-compose s1 s2 s0 xs ys ts pos_scale (omega arith) (omega arith) (ground arith)
        (ground arith) in
    rw (same, rest) (ground arith)

ladders_match_refl : (s : ℕ) (xs : List ℕ) → ladders_match s s xs xs ≡ true
unfolding ladders_match
ladders_match_refl s [] = refl
ladders_match_refl s (x ∷ xs) = ground (arith, ladders_match_refl s xs)

-- A network's configuration agrees with a reference, whose scale is given.
abbrev Agrees : DenominationConfig → ℕ → DenominationConfig → ℕ → Type 0
Agrees reference s0 config s =
    (config.max_legs ≡ reference.max_legs)
    × (length config.denominations_atomic ≡ length reference.denominations_atomic)
    × (ladders_match s s0 config.denominations_atomic reference.denominations_atomic ≡ true)

compare_network-Agrees :
    (reference : DenominationConfig) (s0 : ℕ) (config : DenominationConfig) (s : ℕ)
    → compare_network reference s0 config s ≡ none
    → Agrees reference s0 config s
unfolding compare_network
compare_network-Agrees reference s0 config s h = (ground arith, ground arith, ground arith)

first_error-none :
    (x y : Option DenominationError) → first_error x y ≡ none → (x ≡ none) × (y ≡ none)
first_error-none none y h = (refl, h)
first_error-none (some e) y h = cc

compare_known-Agrees :
    (reference : DenominationConfig) (s0 : ℕ) (config : DenominationConfig) (o : Option ℕ) (d : ℕ)
    → compare_known reference s0 config o ≡ none
    → o ≡ some d
    → Agrees reference s0 config (10 ^ d)
compare_known-Agrees reference s0 config none d h e = cc
compare_known-Agrees reference s0 config (some d') d h e =
    subst (λ k. Agrees reference s0 config (10 ^ k)) (some_injective e)
      (compare_network-Agrees reference s0 config (10 ^ d') h)

compare_rest-Agrees :
    (decimals : Dict ℕ) (reference : DenominationConfig) (s0 : ℕ) (rest : Networks) (a : String)
    (ca : DenominationConfig) (da : ℕ)
    → compare_rest decimals reference s0 rest ≡ none
    → lookup a rest ≡ some ca
    → lookup a decimals ≡ some da
    → Agrees reference s0 ca (10 ^ da)
unfolding compare_rest
compare_rest-Agrees decimals reference s0 [] a ca da h found known =
    absurd (not_found (sym (lookup-nil a) ∙ found))
  where
    not_found : none ≡ some ca → ⊥
    not_found e = cc
compare_rest-Agrees decimals reference s0 ((n, c) ∷ rest) a ca da h found known =
    let (here, later) =
      first_error-none (compare_known reference s0 c (lookup n decimals))
        (compare_rest decimals reference s0 rest) h in
    elim (Bool-cases (str_eq n a)) [
      | inl same ↦
          let config : c ≡ ca = some_injective (sym (lookup-here n a c rest same) ∙ found) in
          subst (λ x. Agrees reference s0 x (10 ^ da)) config
            (compare_known-Agrees reference s0 c (lookup n decimals) da here
              (ap (λ k. lookup k decimals) ((str_eq_iff n a).0 same) ∙ known))
      | inr other ↦
          compare_rest-Agrees decimals reference s0 rest a ca da later
            (sym (lookup-there n a c rest other) ∙ found) known
    ]

-- Two networks offer the same number of legs and, tier by tier, the same values in human units.
abbrev pub SameLadder : DenominationConfig → ℕ → DenominationConfig → ℕ → Type 0
SameLadder ca da cb db =
    (ca.max_legs ≡ cb.max_legs)
    × (length ca.denominations_atomic ≡ length cb.denominations_atomic)
    × (ladders_match (10 ^ da) (10 ^ db) ca.denominations_atomic cb.denominations_atomic ≡ true)

Agrees-SameLadder :
    (c0 : DenominationConfig) (d0 : ℕ) (ca : DenominationConfig) (da : ℕ) (cb : DenominationConfig)
    (db : ℕ)
    → Agrees c0 (10 ^ d0) ca (10 ^ da)
    → Agrees c0 (10 ^ d0) cb (10 ^ db)
    → SameLadder ca da cb db
Agrees-SameLadder c0 d0 ca da cb db (legs, tiers, values) (legs', tiers', values') = (
  legs ∙ sym legs',
  tiers ∙ sym tiers',
  ladders_match-compose (10 ^ da) (10 ^ db) (10 ^ d0) ca.denominations_atomic
      cb.denominations_atomic c0.denominations_atomic (one-le-pow d0 10 (omega arith)) tiers tiers'
      values values',
)

-- The first network agrees with itself, and every other one with it.
all-Agree :
    (decimals : Dict ℕ) (n0 : String) (c0 : DenominationConfig) (d0 : ℕ) (rest : Networks)
    (a : String) (ca : DenominationConfig) (da : ℕ)
    → lookup n0 decimals ≡ some d0
    → compare_rest decimals c0 (10 ^ d0) rest ≡ none
    → lookup a ((n0, c0) ∷ rest) ≡ some ca
    → lookup a decimals ≡ some da
    → Agrees c0 (10 ^ d0) ca (10 ^ da)
all-Agree decimals n0 c0 d0 rest a ca da known0 h found known = elim (Bool-cases (str_eq n0 a)) [
  | inl same ↦
      let config : c0 ≡ ca = some_injective (sym (lookup-here n0 a c0 rest same) ∙ found) in
      let scale : d0 ≡ da =
        some_injective
          (sym known0 ∙ ap (λ k. lookup k decimals) ((str_eq_iff n0 a).0 same) ∙ known) in
      subst (λ x. Agrees c0 (10 ^ d0) x (10 ^ da)) config
        (subst (λ k. Agrees c0 (10 ^ d0) c0 (10 ^ k)) scale
          (refl, refl, ladders_match_refl (10 ^ d0) c0.denominations_atomic))
  | inr other ↦
      compare_rest-Agrees decimals c0 (10 ^ d0) rest a ca da h
        (sym (lookup-there n0 a c0 rest other) ∙ found) known
]

compare_all-rest :
    (decimals : Dict ℕ) (c0 : DenominationConfig) (o : Option ℕ) (rest : Networks)
    → compare_all decimals c0 o rest ≡ none
    → (d0 : ℕ) × (o ≡ some d0) × (compare_rest decimals c0 (10 ^ d0) rest ≡ none)
compare_all-rest decimals c0 none rest h = cc
compare_all-rest decimals c0 (some d0) rest h = (d0, refl, h)

-- If the check passes for at least two networks, any two of them offer the same number of legs
-- and the same ladder in human units, not only each with the first.
pub denomination_parity-pairwise :
    (decimals : Dict ℕ) (first second : String × DenominationConfig) (rest : Networks)
    (a b : String) (ca cb : DenominationConfig) (da db : ℕ)
    → denomination_parity_error decimals (first ∷ second ∷ rest) ≡ none
    → lookup a (first ∷ second ∷ rest) ≡ some ca
    → lookup b (first ∷ second ∷ rest) ≡ some cb
    → lookup a decimals ≡ some da
    → lookup b decimals ≡ some db
    → SameLadder ca da cb db
unfolding denomination_parity_error
denomination_parity-pairwise decimals (n0, c0) second rest a b ca cb da db h found_a found_b known_a
      known_b =
    let (d0, known0, agree) = compare_all-rest decimals c0 (lookup n0 decimals) (second ∷ rest) h in
    Agrees-SameLadder c0 d0 ca da cb db
      (all-Agree decimals n0 c0 d0 (second ∷ rest) a ca da known0 agree found_a known_a)
      (all-Agree decimals n0 c0 d0 (second ∷ rest) b cb db known0 agree found_b known_b)
