-- ===== src/Pending/Valid.antt =====
-- What the check of the state means: the references of all legs are distinct. Parts of a state
-- that passes pass.
use px.Prelude.{
  String, ◌≡◌, refl, Bool, true, false, not, ◌&&◌, ◌||◌, List, [], ◌∷◌, ◌++◌, map, all, all-append,
  any, keep, update_first, Bool-cases, arith, inl, inr,
}
use px.Prelude.Int.{pos, leb_ℤ}
use px.Prelude.Text.{str_eq, str_eq_iff}
use px.Prelude.Action.{Result, ok, err}
use px.Pending.State.{
  PendingPayoutLeg, PendingPayoutGroup, PendingError, check_legs, check_groups, bad_group,
  is_no_legs,
}
use px.Pending.Methods.{payout_refs_of, known_refs}

-- No text stands twice.
abbrev pub distinct_refs : List String → Bool
distinct_refs [] = true
distinct_refs (r ∷ rs) = not (any (str_eq r) rs) && distinct_refs rs

abbrev pub fresh : List String → List String → Bool
fresh rs ys = all (λ y. not (any (str_eq y) rs)) ys

abbrev within : List String → List String → Bool
within ys rs = all (λ y. any (str_eq y) rs) ys

abbrev pub Sub : List String → List String → Type 0
Sub xs ys = (r : String) → any (str_eq r) xs ≡ true → any (str_eq r) ys ≡ true

fresh-cons_absent :
    (x : String) (rs ys : List String) → fresh (x ∷ rs) ys ≡ true → any (str_eq x) ys ≡ false
fresh-cons_absent x rs [] h = refl
fresh-cons_absent x rs (y ∷ ys) h =
    ground (arith, str_eq_iff x y, str_eq_iff y x, fresh-cons_absent x rs ys)

fresh-cons_rest : (x : String) (rs ys : List String) → fresh (x ∷ rs) ys ≡ true → fresh rs ys ≡ true
fresh-cons_rest x rs [] h = refl
fresh-cons_rest x rs (y ∷ ys) h = ground (arith, fresh-cons_rest x rs ys)

fresh-Sub : (rs out ys : List String) → Sub rs out → fresh out ys ≡ true → fresh rs ys ≡ true
fresh-Sub rs out [] sub h = refl
fresh-Sub rs out (y ∷ ys) sub h = ground (arith, sub y, fresh-Sub rs out ys sub)

within-Sub : (ys rs out : List String) → Sub rs out → within ys rs ≡ true → within ys out ≡ true
within-Sub [] rs out sub h = refl
within-Sub (y ∷ ys) rs out sub h = ground (arith, sub y, within-Sub ys rs out sub)

-- What the loop over the legs of one group has found when it ends without an error.
record LegsFound (rs : List String) (legs : List PendingPayoutLeg) (out : List String)
    : Type 0 where
  grown : Sub rs out
  new : fresh rs (payout_refs_of legs) ≡ true
  apart : distinct_refs (payout_refs_of legs) ≡ true
  noted : within (payout_refs_of legs) out ≡ true

Sub-drop : (x : String) (rs out : List String) → Sub (x ∷ rs) out → Sub rs out
Sub-drop x rs out sub r h = sub r (ground arith)

check_legs_found :
    (rs : List String) (legs : List PendingPayoutLeg) (out : List String)
    → check_legs rs legs ≡ ok out
    → LegsFound rs legs out
unfolding check_legs
check_legs_found rs [] out h = record {
  grown = λ r m. ground arith;
  new = refl;
  apart = refl;
  noted = refl;
}
check_legs_found rs (leg ∷ legs) out h =
    let r = leg.payout_ref in
    let rest : check_legs (r ∷ rs) legs ≡ ok out = ground arith in
    let ih = check_legs_found (r ∷ rs) legs out rest in
    let absent : any (str_eq r) rs ≡ false = ground arith in
    let later = fresh-cons_absent r rs (payout_refs_of legs) ih.new in
    let others = fresh-cons_rest r rs (payout_refs_of legs) ih.new in
    let here = ih.grown r (ground (arith, str_eq_iff r r)) in
    record {
      grown = Sub-drop r rs out ih.grown;
      new = rw (absent, others);
      apart = rw (later, ih.apart);
      noted = rw (here, ih.noted);
    }

within→Sub : (ys out : List String) → within ys out ≡ true → Sub ys out
within→Sub (y ∷ ys) out h r m = elim (Bool-cases (str_eq r y)) [
  | inl same ↦ rw ((str_eq_iff r y).0 same) (ground arith)
  | inr other ↦ within→Sub ys out (ground arith) r (ground arith)
]
within→Sub [] out h r m = cc

any-append :
    (r : String) (xs ys : List String)
    → any (str_eq r) (xs ++ ys) ≡ (any (str_eq r) xs || any (str_eq r) ys)
any-append r [] ys = refl
any-append r (x ∷ xs) ys = ground (arith, any-append r xs ys)

distinct_refs-append :
    (xs ys : List String)
    → distinct_refs xs ≡ true
    → distinct_refs ys ≡ true
    → fresh xs ys ≡ true
    → distinct_refs (xs ++ ys) ≡ true
distinct_refs-append [] ys h k f = k
distinct_refs-append (x ∷ xs) ys h k f = ground (
  arith,
  any-append x xs ys,
  fresh-cons_absent x xs ys f,
  fresh-cons_rest x xs ys f,
  distinct_refs-append xs ys,
)

-- The same for the loop over the groups.
pub record GroupsFound (rs : List String) (gs : List PendingPayoutGroup) : Type 0 where
  pub new : fresh rs (known_refs gs) ≡ true
  pub apart : distinct_refs (known_refs gs) ≡ true

-- A passed group: it is well formed, its legs pass, and so do the groups after it.
record Passed (rs : List String) (g : PendingPayoutGroup) (gs : List PendingPayoutGroup)
    (out : List String) : Type 0 where
  formed : bad_group g ≡ false
  legged : is_no_legs g.legs ≡ false
  between : List String
  legs_pass : check_legs rs g.legs ≡ ok between
  rest_pass : check_groups between gs ≡ ok out

check_groups-Passed :
    (rs : List String) (g : PendingPayoutGroup) (gs : List PendingPayoutGroup) (out : List String)
    → check_groups rs (g ∷ gs) ≡ ok out
    → Passed rs g gs out
unfolding check_groups
check_groups-Passed rs g gs out h = go (check_legs rs g.legs) refl
  where
    go : (r : Result PendingError (List String)) → check_legs rs g.legs ≡ r → Passed rs g gs out
    go (ok between) e = record {
      formed = ground (arith, e);
      legged = ground (arith, e);
      between = between;
      legs_pass = e;
      rest_pass = ground (arith, e);
    }
    go (err e') e = ground (arith, e)

pub check_groups_found :
    (rs : List String) (gs : List PendingPayoutGroup) (out : List String)
    → check_groups rs gs ≡ ok out
    → GroupsFound rs gs
check_groups_found rs [] out h = record { new = refl; apart = refl }
check_groups_found rs (g ∷ gs) out h =
    let p = check_groups-Passed rs g gs out h in
    let legs = check_legs_found rs g.legs p.between p.legs_pass in
    let rest = check_groups_found p.between gs out p.rest_pass in
    let mine = payout_refs_of g.legs in
    record {
      new =
          all-append (λ y. not (any (str_eq y) rs)) mine (known_refs gs) legs.new
            (fresh-Sub rs p.between (known_refs gs) legs.grown rest.new);
      apart = distinct_refs-append mine (known_refs gs) legs.apart rest.apart (
          fresh-Sub mine p.between (known_refs gs) (within→Sub mine p.between legs.noted) rest.new);
    }

Sub-cons : (x : String) (xs ys : List String) → Sub xs ys → Sub (x ∷ xs) (x ∷ ys)
Sub-cons x xs ys sub r h = ground (arith, sub r)

absent-Sub :
    (r : String) (xs ys : List String)
    → Sub xs ys
    → any (str_eq r) ys ≡ false
    → any (str_eq r) xs ≡ false
absent-Sub r xs ys sub h = ground (arith, sub r)

check_legs-Sub :
    (rs rs' : List String) (legs : List PendingPayoutLeg) (out : List String)
    → Sub rs' rs
    → check_legs rs legs ≡ ok out
    → (out' : List String) × (check_legs rs' legs ≡ ok out') × Sub out' out
unfolding check_legs
check_legs-Sub rs rs' [] out sub h =
    let e : rs ≡ out = ground arith in (rs', refl, λ r m. rw (← e) (sub r m))
check_legs-Sub rs rs' (leg ∷ legs) out sub h =
    let r = leg.payout_ref in
    let absent : any (str_eq r) rs ≡ false = ground arith in
    let absent' = absent-Sub r rs' rs sub absent in
    let named : str_eq leg.logical_id "" ≡ false = ground arith in
    let paid : leb_ℤ leg.amount_atomic (pos 0) ≡ false = ground arith in
    let rest : check_legs (r ∷ rs) legs ≡ ok out = ground arith in
    let (out', e, below) =
      check_legs-Sub (r ∷ rs) (r ∷ rs') legs out (Sub-cons r rs' rs sub) rest in
    (out', rw (absent', named, paid, e), below)

pub check_groups-keep :
    (p : PendingPayoutGroup → Bool) (rs rs' : List String) (gs : List PendingPayoutGroup)
    (out : List String)
    → Sub rs' rs
    → check_groups rs gs ≡ ok out
    → (out' : List String) × (check_groups rs' (keep p gs) ≡ ok out')
unfolding check_groups
check_groups-keep p rs rs' [] out sub h = (rs', refl)
check_groups-keep p rs rs' (g ∷ gs) out sub h =
    let q = check_groups-Passed rs g gs out h in
    elim (Bool-cases (p g)) [
      | inl kept ↦
          let (out', e, below) = check_legs-Sub rs rs' g.legs q.between sub q.legs_pass in
          let (end, f) = check_groups-keep p q.between out' gs out below q.rest_pass in
          (end, rw (kept, q.formed, q.legged, e, f))
      | inr dropped ↦
          let grown = (check_legs_found rs g.legs q.between q.legs_pass).grown in
          let (end, f) =
            check_groups-keep p q.between rs' gs out (λ r m. grown r (sub r m)) q.rest_pass in
          (end, rw (dropped, f))
    ]

-- A change of a group that its check does not look at.
abbrev pub Unseen : (PendingPayoutGroup → PendingPayoutGroup) → Type 0
Unseen f = (g : PendingPayoutGroup) → (bad_group (f g) ≡ bad_group g) × ((f g).legs ≡ g.legs)

check_groups_cong :
    (rs : List String) (g g' : PendingPayoutGroup) (gs gs' : List PendingPayoutGroup)
    (out : List String)
    → bad_group g' ≡ bad_group g
    → g'.legs ≡ g.legs
    → ((refs o : List String) → check_groups refs gs ≡ ok o → check_groups refs gs' ≡ ok o)
    → check_groups rs (g ∷ gs) ≡ ok out
    → check_groups rs (g' ∷ gs') ≡ ok out
unfolding check_groups
check_groups_cong rs g g' gs gs' out formed same later h =
    let q = check_groups-Passed rs g gs out h in
    let rest = later q.between out q.rest_pass in
    rw (formed, same, q.formed, q.legged, q.legs_pass, rest)

pub check_groups-update_first :
    (p : PendingPayoutGroup → Bool) (f : PendingPayoutGroup → PendingPayoutGroup) (rs : List String)
    (gs : List PendingPayoutGroup) (out : List String)
    → Unseen f
    → check_groups rs gs ≡ ok out
    → check_groups rs (update_first p f gs) ≡ ok out
check_groups-update_first p f rs [] out same h = h
check_groups-update_first p f rs (g ∷ gs) out same h = elim (Bool-cases (p g)) [
  | inl here ↦
      rw here (check_groups_cong rs g (f g) gs gs out (same g).0 (same g).1 (λ refs o k. k) h)
  | inr later ↦ rw later (
      check_groups_cong rs g g gs (update_first p f gs) out refl refl
        (λ refs o k. check_groups-update_first p f refs gs o same k) h)
]

pub check_groups-map :
    (f : PendingPayoutGroup → PendingPayoutGroup) (rs : List String) (gs : List PendingPayoutGroup)
    (out : List String)
    → Unseen f
    → check_groups rs gs ≡ ok out
    → check_groups rs (map f gs) ≡ ok out
check_groups-map f rs [] out same h = h
check_groups-map f rs (g ∷ gs) out same h =
    check_groups_cong rs g (f g) gs (map f gs) out (same g).0 (same g).1
      (λ refs o k. check_groups-map f refs gs o same k) h
