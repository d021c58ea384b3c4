-- ===== src/Cohorts/Views.antt =====
-- The map of a list of records, and how the changes of the list change it.
use px.Prelude.{
  ◌-◌, String, ◌≡◌, refl, ap, Bool, true, false, not, ◌&&◌, Option, none, some, List, [], ◌∷◌, ◌++◌,
  any, find, keep, update_first, length, length-keep, Bool-cases, arith, inl, inr, if◌then◌else◌,
}
use px.Prelude.Text.{str_eq, str_eq_iff}
use px.Cohorts.Book.{CohortRecord, has_id}
use px.Cohorts.Spec.{CohortMap}

-- The map that a list of records stands for.
abbrev pub view : List CohortRecord → CohortMap
view cs j = find (has_id j) cs

abbrev pub distinct_ids : List CohortRecord → Bool
distinct_ids [] = true
distinct_ids (c ∷ cs) = not (any (has_id c.cohort_id) cs) && distinct_ids cs

abbrev pub or_this : CohortRecord → String → Option CohortRecord → Option CohortRecord
or_this c j (some old) = some old
or_this c j none = if str_eq c.cohort_id j then some c else none

pub view-append :
    (c : CohortRecord) (j : String) (cs : List CohortRecord)
    → view (cs ++ c ∷ []) j ≡ or_this c j (view cs j)
view-append c j [] = refl
view-append c j (x ∷ cs) = elim (Bool-cases (str_eq x.cohort_id j)) [
  | inl e ↦ rw e refl
  | inr e ↦ rw e (view-append c j cs)
]

pub view_absent :
    (j : String) (cs : List CohortRecord) → any (has_id j) cs ≡ false → view cs j ≡ none
view_absent j [] h = refl
view_absent j (c ∷ cs) h = ground (arith, view_absent j cs)

pub view_present :
    (j : String) (cs : List CohortRecord)
    → any (has_id j) cs ≡ true
    → (c : CohortRecord) × (view cs j ≡ some c)
view_present j [] h = cc
view_present j (c ∷ cs) h = elim (Bool-cases (str_eq c.cohort_id j)) [
  | inl e ↦ (c, rw e refl)
  | inr e ↦ let (d, f) = view_present j cs (ground arith) in (d, rw e f)
]

abbrev pub changed : (CohortRecord → CohortRecord) → Option CohortRecord → Option CohortRecord
changed f none = none
changed f (some c) = some (f c)

pub view-update_first :
    (i j : String) (f : CohortRecord → CohortRecord) (cs : List CohortRecord)
    → ((c : CohortRecord) → (f c).cohort_id ≡ c.cohort_id)
    → view (update_first (has_id i) f cs) j
      ≡ (if str_eq i j then changed f (view cs j) else view cs j)
view-update_first i j f [] h = ground arith
view-update_first i j f (c ∷ cs) h = ground (
  arith,
  h c,
  str_eq_iff i j,
  str_eq_iff c.cohort_id i,
  str_eq_iff c.cohort_id j,
  view-update_first i j f cs h,
)

abbrev pub unless : (CohortRecord → Bool) → Option CohortRecord → Option CohortRecord
unless p none = none
unless p (some c) = if p c then some c else none

any-keep :
    (j : String) (p : CohortRecord → Bool) (cs : List CohortRecord)
    → any (has_id j) cs ≡ false
    → any (has_id j) (keep p cs) ≡ false
any-keep j p [] h = refl
any-keep j p (c ∷ cs) h = ground (arith, any-keep j p cs)

pub view-keep :
    (j : String) (p : CohortRecord → Bool) (cs : List CohortRecord)
    → distinct_ids cs ≡ true
    → view (keep p cs) j ≡ unless p (view cs j)
view-keep j p [] h = refl
view-keep j p (c ∷ cs) h = elim (Bool-cases (str_eq c.cohort_id j)) [
  | inl here ↦
      let same = (str_eq_iff c.cohort_id j).0 here in
      let once : any (has_id j) cs ≡ false = rw (← same) (ground arith) in
      let gone = view_absent j (keep p cs) (any-keep j p cs once) in
      elim (Bool-cases (p c)) [
        | inl kept ↦ rw (here, kept, here) refl
        | inr dropped ↦ rw (here, dropped, gone) refl
      ]
  | inr later ↦
      let ih = view-keep j p cs (ground arith) in
      elim (Bool-cases (p c)) [
        | inl kept ↦ rw (later, kept, later) ih
        | inr dropped ↦ rw (later, dropped) ih
      ]
]

pub keep_all :
    (p : CohortRecord → Bool) (cs : List CohortRecord)
    → length cs - length (keep p cs) ≡ 0
    → keep p cs ≡ cs
keep_all p [] h = refl
keep_all p (c ∷ cs) h = elim (Bool-cases (p c)) [
  | inl e ↦
      let g = rw e at h in
      let shorter : length cs - length (keep p cs) ≡ 0 = omega (arith, g) in
      rw e (ap (λ x. c ∷ x) (keep_all p cs shorter))
  | inr e ↦ let g = rw e at h in absurd (omega (arith, length-keep p cs, g))
]

pub distinct_ids-append :
    (c : CohortRecord) (cs : List CohortRecord)
    → distinct_ids cs ≡ true
    → any (has_id c.cohort_id) cs ≡ false
    → distinct_ids (cs ++ c ∷ []) ≡ true
distinct_ids-append c cs h k = go cs h k
  where
    apart :
        (x : CohortRecord) (cs : List CohortRecord)
        → any (has_id x.cohort_id) cs ≡ false
        → str_eq c.cohort_id x.cohort_id ≡ false
        → any (has_id x.cohort_id) (cs ++ c ∷ []) ≡ false
    apart x [] h k = ground arith
    apart x (y ∷ cs) h k = ground (arith, apart x cs)

    go :
        (cs : List CohortRecord)
        → distinct_ids cs ≡ true
        → any (has_id c.cohort_id) cs ≡ false
        → distinct_ids (cs ++ c ∷ []) ≡ true
    go [] h k = refl
    go (x ∷ cs) h k = ground (
      arith,
      str_eq_iff c.cohort_id x.cohort_id,
      str_eq_iff x.cohort_id c.cohort_id,
      apart x cs,
      go cs,
    )

pub distinct_ids-keep :
    (p : CohortRecord → Bool) (cs : List CohortRecord)
    → distinct_ids cs ≡ true
    → distinct_ids (keep p cs) ≡ true
distinct_ids-keep p [] h = refl
distinct_ids-keep p (c ∷ cs) h = ground (arith, any-keep c.cohort_id p cs, distinct_ids-keep p cs)

any-update_first :
    (i j : String) (f : CohortRecord → CohortRecord) (cs : List CohortRecord)
    → ((c : CohortRecord) → (f c).cohort_id ≡ c.cohort_id)
    → any (has_id j) (update_first (has_id i) f cs) ≡ any (has_id j) cs
any-update_first i j f [] h = refl
any-update_first i j f (c ∷ cs) h = elim (Bool-cases (str_eq c.cohort_id i)) [
  | inl e ↦ rw (e, h c) refl
  | inr e ↦ rw (e, any-update_first i j f cs h) refl
]

pub distinct_ids-update_first :
    (i : String) (f : CohortRecord → CohortRecord) (cs : List CohortRecord)
    → ((c : CohortRecord) → (f c).cohort_id ≡ c.cohort_id)
    → distinct_ids cs ≡ true
    → distinct_ids (update_first (has_id i) f cs) ≡ true
distinct_ids-update_first i f [] h k = refl
distinct_ids-update_first i f (c ∷ cs) h k = elim (Bool-cases (str_eq c.cohort_id i)) [
  | inl e ↦ rw (e, h c) k
  | inr e ↦
      rw (e, any-update_first i c.cohort_id f cs h)
        (ground (arith, distinct_ids-update_first i f cs h))
]
