-- ===== src/Prelude/Text.antt =====
-- Texts: equality tests, concatenation, `toLowerCase` on the ASCII letters, and the two patterns
-- that the ledger's checks use.
use Prim.Native.Nat.{ℕ, zero, suc, ◌/◌, ◌%◌}
use Prim.Native.Char.{Char, code}
use Prim.Native.String.{String}
use Prim.Native.String
use mathlib.Core.Path.{◌≡◌, refl}
use mathlib.Core.Logic.{◌↔◌, inl, inr}
use mathlib.Core.Bool.{Bool, true, false, ◌&&◌, ◌||◌}
use mathlib.Core.List.{List, [], ◌∷◌}
use text.Mathlib.Text
use text.Mathlib.TextEquality
use text.Mathlib.TextPositions
use text.Mathlib.TextLemmas
use px.Prelude.Tests.{ltb, leb, ◌==◌, if◌then◌else◌, Bool-cases}
use px.Prelude.Int.{ℤ, pos, negsuc}

-- `s === t`
abbrev pub str_eq : String → String → Bool
str_eq s t = Text.◌==◌ s t

pub str_eq_iff : (s t : String) → (str_eq s t ≡ true) ↔ (s ≡ t)
str_eq_iff = TextEquality.eq_iff

pub str_eq_refl : (s : String) → str_eq s s ≡ true
str_eq_refl = TextPositions.eq_refl

pub str_eq→eq : (s t : String) → str_eq s t ≡ true → s ≡ t
str_eq→eq s t = (str_eq_iff s t).0

-- A template literal's pieces, joined.
infixr 65 ◌<>◌
abbrev pub ◌<>◌ : String → String → String
s <> t = String.◌++◌ s t

pub <>_cancel_left : (s t u : String) → s <> t ≡ s <> u → t ≡ u
<>_cancel_left = TextLemmas.append_cancel_left

-- The 26 pairs of `toLowerCase` in ASCII; asset keys and hashes hold no other letters.
abbrev pub lower_pairs : List (ℕ × Char)
lower_pairs =
    (b'A', "a")
    ∷ (b'B', "b")
    ∷ (b'C', "c")
    ∷ (b'D', "d")
    ∷ (b'E', "e")
    ∷ (b'F', "f")
    ∷ (b'G', "g")
    ∷ (b'H', "h")
    ∷ (b'I', "i")
    ∷ (b'J', "j")
    ∷ (b'K', "k")
    ∷ (b'L', "l")
    ∷ (b'M', "m")
    ∷ (b'N', "n")
    ∷ (b'O', "o")
    ∷ (b'P', "p")
    ∷ (b'Q', "q")
    ∷ (b'R', "r")
    ∷ (b'S', "s")
    ∷ (b'T', "t")
    ∷ (b'U', "u")
    ∷ (b'V', "v")
    ∷ (b'W', "w")
    ∷ (b'X', "x")
    ∷ (b'Y', "y")
    ∷ (b'Z', "z")
    ∷ []

unfoldable pub lower_by : List (ℕ × Char) → Char → Char
lower_by [] c = c
lower_by ((n, d) ∷ rest) c = if code c == n then d else lower_by rest c

unfoldable pub lower_char : Char → Char
unfolding lower_by
lower_char c = lower_by lower_pairs c

-- `s.toLowerCase()`
unfoldable pub to_lower : String → String
unfolding lower_char
to_lower String.[] = ""
to_lower (String.◌∷◌ c s) = String.◌∷◌ (lower_char c) (to_lower s)

-- `s.includes(":")`
unfoldable pub has_colon : String → Bool
has_colon String.[] = false
has_colon (String.◌∷◌ c s) = code c == b':' || has_colon s

is_hex_code : ℕ → Bool
is_hex_code n =
    (leb b'0' n && leb n b'9') || (leb b'a' n && leb n b'f') || (leb b'A' n && leb n b'F')

-- Every character is a hexadecimal digit.
unfoldable pub all_hex : String → Bool
unfolding is_hex_code
all_hex String.[] = true
all_hex (String.◌∷◌ c s) = is_hex_code (code c) && all_hex s

-- `[0-9a-fA-F]+`
abbrev pub hex_digits : String → Bool
hex_digits String.[] = false
hex_digits (String.◌∷◌ c s) = all_hex (String.◌∷◌ c s)

after_x : String → Bool
after_x String.[] = false
after_x (String.◌∷◌ c s) = code c == b'x' && hex_digits s

-- `/^0x[0-9a-fA-F]+$/.test(s)`
unfoldable pub is_hex_ref : String → Bool
unfolding after_x
is_hex_ref String.[] = false
is_hex_ref (String.◌∷◌ c s) = code c == b'0' && after_x s

-- `s.startsWith(t)`
abbrev pub starts_with : String → String → Bool
starts_with s t = Text.starts_with s t

pub starts_with-<> : (s t : String) → starts_with (s <> t) s ≡ true
starts_with-<> = TextPositions.starts_with-append

-- The part of `s` before its first `:`, as `s.slice(0, s.indexOf(":"))`. Without a colon the index
-- is -1, and `slice(0, -1)` drops the last character.
abbrev drop_last : String → String
drop_last String.[] = ""
drop_last (String.◌∷◌ c String.[]) = ""
drop_last (String.◌∷◌ c (String.◌∷◌ d s)) = String.◌∷◌ c (drop_last (String.◌∷◌ d s))

until_colon : String → String
until_colon String.[] = ""
until_colon (String.◌∷◌ c s) = if code c == b':' then "" else String.◌∷◌ c (until_colon s)

unfoldable pub network_part : String → String
unfolding until_colon has_colon
network_part s = if has_colon s then until_colon s else drop_last s

abbrev digit_texts : List String
digit_texts = "0" ∷ "1" ∷ "2" ∷ "3" ∷ "4" ∷ "5" ∷ "6" ∷ "7" ∷ "8" ∷ "9" ∷ []

abbrev nth_text : List String → ℕ → String
nth_text [] n = ""
nth_text (s ∷ rest) zero = s
nth_text (s ∷ rest) (suc n) = nth_text rest n

decimal_from : ℕ → ℕ → String
decimal_from zero n = ""
decimal_from (suc fuel) n =
    let front = decimal_from fuel (n / 10) <> nth_text digit_texts (n % 10) in
    if ltb n 10 then nth_text digit_texts n else front

-- `String(n)` for a non-negative integer: each round drops a digit, so `n` rounds and one suffice.
unfoldable pub decimal : ℕ → String
unfolding decimal_from
decimal n = decimal_from (suc n) n

-- `value.toString()` for a `bigint`.
unfoldable pub decimal_ℤ : ℤ → String
unfolding decimal
decimal_ℤ (pos n) = decimal n
decimal_ℤ (negsuc n) = "-" <> decimal (suc n)

-- `[...].join(":")`
unfoldable pub join_colon : List String → String
join_colon [] = ""
join_colon (s ∷ []) = s
join_colon (s ∷ t ∷ rest) = s <> ":" <> join_colon (t ∷ rest)

decimal_sample : decimal_ℤ (negsuc 20405) ≡ "-20406"
unfolding decimal_ℤ
decimal_sample = refl

network_part_base : network_part "base:0xabc" ≡ "base"
unfolding network_part
network_part_base = refl

to_lower_key : to_lower "Base:0xABz9" ≡ "base:0xabz9"
unfolding to_lower
to_lower_key = refl

is_hex_ref_sample : is_hex_ref "0x1aF" && (is_hex_ref "0x" || is_hex_ref "x1") ≡ false
unfolding is_hex_ref all_hex
is_hex_ref_sample = refl

-- A text after the prefix `0x` is tested for its digits alone.
pub is_hex_ref-0x : (t : String) → is_hex_ref ("0x" <> t) ≡ hex_digits t
unfolding is_hex_ref
is_hex_ref-0x t =
    rw (TextLemmas.cons-append "0" "x" t, TextLemmas.cons-append "x" "" t, TextLemmas.nil-append t)

pub batch_prefix_not_empty : (t : String) → str_eq ("batch-" <> t) "" ≡ false
batch_prefix_not_empty t = elim (Bool-cases (str_eq ("batch-" <> t) "")) [
  | inl e ↦ absurd (
      TextLemmas.cons≢nil
        (rw (TextLemmas.cons-append "b" "atch-" t) at (str_eq→eq ("batch-" <> t) "" e)))
  | inr e ↦ e
]

pub account_prefix_not_empty : (t : String) → str_eq ("acct_" <> t) "" ≡ false
account_prefix_not_empty t = elim (Bool-cases (str_eq ("acct_" <> t) "")) [
  | inl e ↦ absurd (
      TextLemmas.cons≢nil
        (rw (TextLemmas.cons-append "a" "cct_" t) at (str_eq→eq ("acct_" <> t) "" e)))
  | inr e ↦ e
]
