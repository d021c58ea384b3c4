-- ===== src/Prelude/Dict.antt =====
-- A JavaScript object or `Map` keyed by texts, in insertion order.
use mathlib.Core.Path.{◌≡◌, refl}
use mathlib.Core.Bool.{Bool, true}
use mathlib.Core.Option.{Option, none, some}
use mathlib.Core.List.{List, [], ◌∷◌}
use Prim.Native.String.{String}
use native.Mathlib.Omega.{arith}
use px.Prelude.Tests.{if◌then◌else◌}
use px.Prelude.Lists.{all}
use px.Prelude.Text.{str_eq, str_eq_iff, str_eq_refl}

abbrev pub Dict {ℓ} : Type ℓ → Type ℓ
Dict V = List (String × V)

module _ {ℓ} {V : Type ℓ} where
  -- `d[k]`
  unfoldable pub lookup : String → Dict V → Option V
  lookup k [] = none
  lookup k ((j, v) ∷ d) = if str_eq j k then some v else lookup k d

  -- `d[k] = v`
  unfoldable pub insert : String → V → Dict V → Dict V
  insert k v [] = (k, v) ∷ []
  insert k v ((j, w) ∷ d) = if str_eq j k then (j, v) ∷ d else (j, w) ∷ insert k v d

  -- `delete d[k]`
  unfoldable pub erase : String → Dict V → Dict V
  erase k [] = []
  erase k ((j, w) ∷ d) = if str_eq j k then erase k d else (j, w) ∷ erase k d

  pub lookup-nil : (k : String) → lookup k [] ≡ none
  unfolding lookup
  lookup-nil k = refl

  pub lookup-insert :
      (k j : String) (v : V) (d : Dict V)
      → lookup j (insert k v d) ≡ (if str_eq k j then some v else lookup j d)
  unfolding lookup insert
  lookup-insert k j v [] = refl
  lookup-insert k j v ((i, w) ∷ d) =
      ground (arith, str_eq_iff k j, str_eq_iff i k, str_eq_iff i j, lookup-insert k j v d)

  pub lookup-insert_self : (k : String) (v : V) (d : Dict V) → lookup k (insert k v d) ≡ some v
  lookup-insert_self k v d = simp (lookup-insert, str_eq_refl)

  pub lookup-erase :
      (k j : String) (d : Dict V) → lookup j (erase k d) ≡ (if str_eq k j then none else lookup j d)
  unfolding lookup erase
  lookup-erase k j [] = ground arith
  lookup-erase k j ((i, w) ∷ d) =
      ground (arith, str_eq_iff k j, str_eq_iff i k, str_eq_iff i j, lookup-erase k j d)

  -- A check of every entry survives a write that passes it. A write keeps the key that is there.
  pub all-insert :
      (p : String × V → Bool) (k : String) (v : V) (d : Dict V)
      → all p d ≡ true
      → p (k, v) ≡ true
      → all p (insert k v d) ≡ true
  unfolding insert
  all-insert p k v [] h e = ground arith
  all-insert p k v ((j, w) ∷ d) h e = ground (arith, str_eq_iff j k, all-insert p k v d)

  pub all-erase :
      (p : String × V → Bool) (k : String) (d : Dict V) → all p d ≡ true → all p (erase k d) ≡ true
  unfolding erase
  all-erase p k [] h = refl
  all-erase p k ((j, w) ∷ d) h = ground (arith, all-erase p k d)

  pub all-lookup :
      (p : String × V → Bool) (k : String) (v : V) (d : Dict V)
      → all p d ≡ true
      → lookup k d ≡ some v
      → p (k, v) ≡ true
  unfolding lookup
  all-lookup p k v [] h e = cc
  all-lookup p k v ((j, w) ∷ d) h e = ground (arith, str_eq_iff j k, all-lookup p k v d)
