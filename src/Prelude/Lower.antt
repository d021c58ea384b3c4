-- ===== src/Prelude/Lower.antt =====
-- `toLowerCase` twice is `toLowerCase` once.
use mathlib.Core.Path.{◌≡◌, refl, ap, ap₂}
use mathlib.Core.Logic.{◌⊎◌, inl, inr}
use mathlib.Core.Bool.{Bool, true, not, ◌&&◌, ◌||◌}
use mathlib.Core.List.{List, [], ◌∷◌}
use Prim.Native.Nat.{ℕ}
use Prim.Native.Char.{Char, code}
use Prim.Native.String.{String}
use native.Mathlib.Omega.{arith}
use text.Mathlib.TextEquality
use px.Prelude.Tests.{◌==◌, Bool-cases}
use px.Prelude.Lists.{all}
use px.Prelude.Text.{lower_pairs, lower_by, lower_char, to_lower, has_colon}

abbrev is_fixed : ℕ × Char → Bool
is_fixed p = code (lower_char p.1) == code p.1

lower_pairs_fixed : all is_fixed lower_pairs ≡ true
unfolding lower_char
lower_pairs_fixed = refl

lower_by_cases :
    (ps : List (ℕ × Char)) (c : Char)
    → all is_fixed ps ≡ true
    → (lower_char (lower_by ps c) ≡ lower_by ps c) ⊎ (lower_by ps c ≡ c)
unfolding lower_by
lower_by_cases [] c h = inr refl
lower_by_cases ((n, d) ∷ ps) c h = elim (Bool-cases (code c == n)) [
  | inl e ↦ inl (rw e (TextEquality.Char-path (lower_char d) d (ground arith)))
  | inr e ↦ rw e (lower_by_cases ps c (ground arith))
]

lower_char_idem : (c : Char) → lower_char (lower_char c) ≡ lower_char c
lower_char_idem c = elim (lower_by_cases lower_pairs c lower_pairs_fixed) [
  | inl e ↦ unfold lower_char in e
  | inr e ↦ ap lower_char (unfold lower_char in e)
]

pub to_lower_idem : (s : String) → to_lower (to_lower s) ≡ to_lower s
unfolding to_lower
to_lower_idem String.[] = refl
to_lower_idem (String.◌∷◌ c s) = ap₂ String.◌∷◌ (lower_char_idem c) (to_lower_idem s)

abbrev has_no_colon : ℕ × Char → Bool
has_no_colon p = not (p.0 == b':') && not (code p.1 == b':')

lower_pairs_no_colon : all has_no_colon lower_pairs ≡ true
lower_pairs_no_colon = refl

lower_by-colon :
    (ps : List (ℕ × Char)) (c : Char)
    → all has_no_colon ps ≡ true
    → (code (lower_by ps c) == b':') ≡ (code c == b':')
unfolding lower_by
lower_by-colon [] c h = refl
lower_by-colon ((n, d) ∷ ps) c h = ground (arith, lower_by-colon ps c)

-- Lower case neither makes nor removes a colon.
pub has_colon-to_lower : (s : String) → has_colon (to_lower s) ≡ has_colon s
unfolding to_lower has_colon
has_colon-to_lower String.[] = refl
has_colon-to_lower (String.◌∷◌ c s) =
    ap₂ ◌||◌ (unfold lower_char in lower_by-colon lower_pairs c lower_pairs_no_colon)
      (has_colon-to_lower s)
