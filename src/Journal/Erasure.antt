-- ===== src/Journal/Erasure.antt =====
-- What a burn erases and what it spares.
use mathlib.Core.Path.{subst}
use px.Prelude.{
  ℕ, ◌+◌, String, ◌≡◌, refl, sym, ◌∙◌, inl, inr, Bool, true, false, if◌then◌else◌, none, List, [],
  ◌∷◌, any, Bool-cases, arith,
}
use px.Prelude.Text.{str_eq, str_eq_iff, str_eq_refl, starts_with}
use px.Prelude.Dict.{Dict, lookup, erase, lookup-erase}
use px.Prelude.Action.{ok, err}
use px.Journal.State.{Cipher, Removal, Journal, JournalError, key_missing}
use px.Journal.Methods.{
  burn, burn_loop, burn_epoch, is_removed, unique, unique_from, is_epoch_id, read,
}

-- The keys and the file of an epoch are as they were.
abbrev pub SameEpoch : String → Journal → Journal → Type 0
SameEpoch id j j' =
    (lookup id j'.keys ≡ lookup id j.keys)
    × (lookup id j'.key_files ≡ lookup id j.key_files)
    × (lookup id j'.data_files ≡ lookup id j.data_files)

-- Neither a key nor a record of the epoch is left.
abbrev pub IsErased : String → Journal → Type 0
IsErased id j =
    (lookup id j.keys ≡ none) × (lookup id j.key_files ≡ none) × (lookup id j.data_files ≡ none)

lookup-removed :
    {V : Type 0} (b : Bool) (id other : String) (d : Dict V)
    → str_eq other id ≡ false
    → lookup id (if b then erase other d else d) ≡ lookup id d
lookup-removed true id other d apart = rw (lookup-erase other id d, apart)
lookup-removed false id other d apart = refl

removed-none :
    {V : Type 0} (b : Bool) (id other : String) (d : Dict V)
    → lookup id d ≡ none
    → lookup id (if b then erase other d else d) ≡ none
removed-none true id other d gone = ground (arith, lookup-erase other id d)
removed-none false id other d gone = gone

burn_epoch-SameEpoch :
    (r : Removal) (id other : String) (j : Journal)
    → str_eq id other ≡ false
    → SameEpoch id j (burn_epoch r other j)
unfolding burn_epoch
burn_epoch-SameEpoch r id other j apart =
    let flip : str_eq other id ≡ false = ground (arith, str_eq_iff id other, str_eq_iff other id) in
    (
      rw (lookup-erase other id j.keys, flip),
      lookup-removed r.key_removed id other j.key_files flip,
      lookup-removed r.data_removed id other j.data_files flip,
    )

erased-none : {V : Type 0} (id : String) (d : Dict V) → lookup id (erase id d) ≡ none
erased-none id d = rw (lookup-erase id id d, str_eq_refl id)

burn_epoch-IsErased :
    (r : Removal) (id : String) (j : Journal)
    → is_removed r ≡ true
    → IsErased id (burn_epoch r id j)
unfolding burn_epoch
burn_epoch-IsErased r id j removed =
    let key : r.key_removed ≡ true = ground arith in
    let data_file : r.data_removed ≡ true = ground arith in
    rw (key, data_file)
      (erased-none id j.keys, erased-none id j.key_files, erased-none id j.data_files)

-- What is erased stays erased.
burn_epoch-still :
    (r : Removal) (id other : String) (j : Journal)
    → IsErased id j
    → IsErased id (burn_epoch r other j)
unfolding burn_epoch
burn_epoch-still r id other j (k, f, d) = (
  removed-none true id other j.keys k,
  removed-none r.key_removed id other j.key_files f,
  removed-none r.data_removed id other j.data_files d,
)

SameEpoch-trans :
    (id : String) (i j k : Journal) → SameEpoch id i j → SameEpoch id j k → SameEpoch id i k
SameEpoch-trans id i j k (a, b, c) (a', b', c') = (a' ∙ a, b' ∙ b, c' ∙ c)

-- The loop leaves an epoch alone that it does not name.
burn_loop-SameEpoch :
    (removal : String → Removal) (id : String) (ids : List String) (n : ℕ) (j : Journal)
    → any (str_eq id) ids ≡ false
    → SameEpoch id j (burn_loop removal ids n j).1
unfolding burn_loop
burn_loop-SameEpoch removal id [] n j h = (refl, refl, refl)
burn_loop-SameEpoch removal id (x ∷ ids) n j h =
    let next = burn_epoch (removal x) x j in
    let later : any (str_eq id) ids ≡ false = ground arith in
    let first = burn_epoch-SameEpoch (removal x) id x j (ground arith) in
    elim (Bool-cases (starts_with x "legacy-")) [
      | inl legacy ↦ rw legacy (burn_loop-SameEpoch removal id ids n j later)
      | inr fresh ↦ elim (Bool-cases (is_epoch_id x)) [
        | inl good ↦ elim (Bool-cases (is_removed (removal x))) [
          | inl gone ↦
              rw (fresh, good, gone)
                (SameEpoch-trans id j next (burn_loop removal ids (n + 1) next).1 first
                  (burn_loop-SameEpoch removal id ids (n + 1) next later))
          | inr left ↦ rw (fresh, good, left) first
        ]
        | inr bad ↦ rw (fresh, bad) (refl, refl, refl)
      ]
    ]

unique_from-misses :
    (id : String) (seen ids : List String)
    → any (str_eq id) ids ≡ false
    → any (str_eq id) (unique_from seen ids) ≡ false
unique_from-misses id seen [] h = refl
unique_from-misses id seen (x ∷ ids) h =
    ground (arith, unique_from-misses id seen ids, unique_from-misses id (x ∷ seen) ids)

-- A burn leaves every epoch alone that it is not given, also when it fails halfway.
pub burn-spares :
    (removal : String → Removal) (id : String) (ids : List String) (j : Journal)
    → any (str_eq id) ids ≡ false
    → SameEpoch id j (burn removal ids j).1
unfolding burn unique
burn-spares removal id ids j h =
    burn_loop-SameEpoch removal id (unique_from [] ids) 0 j (unique_from-misses id [] ids h)

burn_loop-still :
    (removal : String → Removal) (id : String) (ids : List String) (n : ℕ) (j : Journal)
    → IsErased id j
    → IsErased id (burn_loop removal ids n j).1
unfolding burn_loop
burn_loop-still removal id [] n j h = h
burn_loop-still removal id (x ∷ ids) n j h =
    let next = burn_epoch-still (removal x) id x j h in
    elim (Bool-cases (starts_with x "legacy-")) [
      | inl legacy ↦ rw legacy (burn_loop-still removal id ids n j h)
      | inr fresh ↦ elim (Bool-cases (is_epoch_id x)) [
        | inl good ↦ elim (Bool-cases (is_removed (removal x))) [
          | inl gone ↦
              rw (fresh, good, gone)
                (burn_loop-still removal id ids (n + 1) (burn_epoch (removal x) x j) next)
          | inr left ↦ rw (fresh, good, left) next
        ]
        | inr bad ↦ rw (fresh, bad) h
      ]
    ]

burn_loop-erases :
    (removal : String → Removal) (id : String) (ids : List String) (n m : ℕ) (j : Journal)
    → starts_with id "legacy-" ≡ false
    → any (str_eq id) ids ≡ true
    → (burn_loop removal ids n j).0 ≡ ok m
    → IsErased id (burn_loop removal ids n j).1
unfolding burn_loop
burn_loop-erases removal id [] n m j current h done = cc
burn_loop-erases removal id (x ∷ ids) n m j current h done =
    let next = burn_epoch (removal x) x j in
    elim (Bool-cases (starts_with x "legacy-")) [
      | inl legacy ↦
          rw legacy
            (burn_loop-erases removal id ids n m j current (later legacy) (rw legacy at done))
      | inr fresh ↦ elim (Bool-cases (is_epoch_id x)) [
        | inl good ↦ elim (Bool-cases (is_removed (removal x))) [
          | inl gone ↦
              rw (fresh, good, gone)
                (elim (Bool-cases (str_eq id x)) [
                  | inl same ↦ burn_loop-still removal id ids (n + 1) next (
                      subst (λ y. IsErased y next) (sym ((str_eq_iff id x).0 same))
                        (burn_epoch-IsErased (removal x) x j gone))
                  | inr apart ↦
                      burn_loop-erases removal id ids (n + 1) m next current (rw apart at h)
                        (rw (fresh, good, gone) at done)
                ])
          | inr left ↦ absurd (not_done (rw (fresh, good, left) at done))
        ]
        | inr bad ↦ absurd (not_done (rw (fresh, bad) at done))
      ]
    ]
  where
    clash : starts_with id "legacy-" ≡ true → ⊥
    clash e = cc

    later : starts_with x "legacy-" ≡ true → any (str_eq id) ids ≡ true
    later legacy = elim (Bool-cases (str_eq id x)) [
      | inl same ↦ absurd (clash (rw (sym ((str_eq_iff id x).0 same)) at legacy))
      | inr apart ↦ rw apart at h
    ]

    not_done : {e : JournalError} → err e ≡ ok m → ⊥
    not_done e = cc

pub unique_from-finds :
    (id : String) (seen ids : List String)
    → any (str_eq id) seen ≡ false
    → any (str_eq id) ids ≡ true
    → any (str_eq id) (unique_from seen ids) ≡ true
unique_from-finds id seen [] h k = cc
unique_from-finds id seen (x ∷ ids) h k = elim (Bool-cases (str_eq id x)) [
  | inl same ↦
      let first : any (str_eq x) seen ≡ false = rw ((str_eq_iff id x).0 same) at h in
      rw (first, same)
  | inr apart ↦ ground (arith, unique_from-finds id seen ids, unique_from-finds id (x ∷ seen) ids)
]

-- After a burn that succeeds, an epoch that it was given, other than a legacy one, has no key and no
-- file left, and reading it fails for want of a key.
pub burn-erases :
    (cipher : Cipher) (removal : String → Removal) (id : String) (ids : List String) (m : ℕ)
    (j : Journal)
    → starts_with id "legacy-" ≡ false
    → is_epoch_id id ≡ true
    → any (str_eq id) ids ≡ true
    → (burn removal ids j).0 ≡ ok m
    → IsErased id (burn removal ids j).1 × (read cipher id (burn removal ids j).1 ≡ err key_missing)
unfolding burn unique read
burn-erases cipher removal id ids m j current named h done =
    let erased =
      burn_loop-erases removal id (unique_from [] ids) 0 m j current
        (unique_from-finds id [] ids refl h) done in
    (erased, rw (named, erased.0, erased.1))
