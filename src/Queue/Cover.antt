-- ===== src/Queue/Cover.antt =====
-- What the owner of a group is told about its cover, and when nothing is told.
use px.Prelude.{
  ℕ, String, ◌≡◌, refl, ◌∙◌, inl, inr, Bool, true, false, not, ◌&&◌, ◌||◌, ◌==◌, Option, none, some,
  List, [], ◌∷◌, any, all, find, is_some, leb, Option-cases, arith,
}
use px.Cohorts.Book.{CohortMember, CohortRecord}
use px.Queue.Claims.{
  Concentration, is_member, lower, weaker, told, told_at, unless_silent, weakest, concentration_for,
}

any-find : {A : Type 0} → (p : A → Bool) (xs : List A) → any p xs ≡ is_some (find p xs)
any-find p [] = refl
any-find p (x ∷ xs) = ground (arith, any-find p xs)

-- Whether a group has a leg in a cohort, and whether the cohort's realized k_eff passes a test.
abbrev pub has_leg_in : String → CohortRecord → Bool
has_leg_in group_ref c = any (is_member group_ref) c.members

abbrev passes : (ℕ → Bool) → Option ℕ → Bool
passes p none = false
passes p (some n) = p n

abbrev pub realized_to : (ℕ → Bool) → CohortRecord → Bool
realized_to p c = passes p c.realized_k_eff

abbrev pub holds_for : String → (CohortRecord → Bool) → CohortRecord → Bool
holds_for group_ref p c = not (has_leg_in group_ref c) || p c

abbrev pub holds_of : String → (CohortRecord → Bool) → CohortRecord → Bool
holds_of group_ref p c = has_leg_in group_ref c && p c

abbrev below : Option Concentration → ℕ → Bool
below none k = true
below (some s) k = leb k s.realized_k_eff

abbrev hits : Option Concentration → ℕ → Bool
hits none k = false
hits (some s) k = k == s.realized_k_eff

abbrev IsWeakest : String → Option Concentration → List CohortRecord → ℕ → Type 0
IsWeakest group_ref r cs k =
    (below r k ≡ true)
    × (all (holds_for group_ref (realized_to (leb k))) cs ≡ true)
    × ((hits r k || any (holds_of group_ref (realized_to (λ n. k == n))) cs) ≡ true)

IsWeakest-none :
    (group_ref : String) (r : Option Concentration) (s : Concentration)
    → r ≡ some s
    → IsWeakest group_ref r [] s.realized_k_eff
IsWeakest-none group_ref r s e = rw e (ground arith, refl, ground arith)

passed_by :
    (group_ref : String) (r : Option Concentration) (c : CohortRecord) (cs : List CohortRecord)
    (k : ℕ)
    → has_leg_in group_ref c ≡ false
    → IsWeakest group_ref r cs k
    → IsWeakest group_ref r (c ∷ cs) k
passed_by group_ref r c cs k e (b, l, h) = (b, ground arith, ground arith)

pub and_true : (a b : Bool) → a ≡ true → b ≡ true → (a && b) ≡ true
and_true a b h k = ground arith

lower_below : (k a n : ℕ) → leb k (lower a n) ≡ true → (leb k a ≡ true) × (leb k n ≡ true)
lower_below k a n h = (ground arith, ground arith)

lower_hits :
    (k a n : ℕ) (b : Bool) → ((k == lower a n) || b) ≡ true → ((k == a) || ((k == n) || b)) ≡ true
lower_hits k a n b h = ground arith

counted_in :
    (group_ref : String) (r : Option Concentration) (m : CohortMember) (c : CohortRecord)
    (cs : List CohortRecord) (n k : ℕ)
    → has_leg_in group_ref c ≡ true
    → c.realized_k_eff ≡ some n
    → IsWeakest group_ref (some (weaker r n m c)) cs k
    → IsWeakest group_ref r (c ∷ cs) k
counted_in group_ref none m c cs n k e f (b, l, h) =
    (refl, rw (e, f) (and_true (leb k n) _ b l), rw (e, f) h)
counted_in group_ref (some s) m c cs n k e f (b, l, h) =
    let (low, low') = lower_below k s.realized_k_eff n b in
    (low, rw (e, f) (and_true (leb k n) _ low' l), rw (e, f) (lower_hits k s.realized_k_eff n _ h))

weakest_lem :
    (group_ref : String) (r : Option Concentration) (cs : List CohortRecord) (s : Concentration)
    → weakest group_ref r cs ≡ some s
    → IsWeakest group_ref r cs s.realized_k_eff
unfolding weakest
weakest_lem group_ref r [] s e = IsWeakest-none group_ref r s e
weakest_lem group_ref r (c ∷ cs) s e = elim (Option-cases (find (is_member group_ref) c.members)) [
  | inl f ↦
      passed_by group_ref r c cs s.realized_k_eff (any-find (is_member group_ref) c.members ∙ rw f)
        (weakest_lem group_ref r cs s (rw f at e))
  | inr (m, f) ↦
      counted m (any-find (is_member group_ref) c.members ∙ rw f)
        (λ q. weakest_lem group_ref q cs s) c.realized_k_eff refl (rw f at e)
]
  where
    counted :
        (m : CohortMember)
        → has_leg_in group_ref c ≡ true
        → ((q : Option Concentration)
            → weakest group_ref q cs ≡ some s
            → IsWeakest group_ref q cs s.realized_k_eff)
        → (realized : Option ℕ) → c.realized_k_eff ≡ realized
        → unless_silent (told_at r m c realized) (λ r'. weakest group_ref r' cs) ≡ some s
        → IsWeakest group_ref r (c ∷ cs) s.realized_k_eff
    counted m f rest none g e = cc
    counted m f rest (some n) g e =
        counted_in group_ref r m c cs n s.realized_k_eff f g (rest (some (weaker r n m c)) e)

-- The cover that the owner of a group is told is the weakest: no cohort that a leg of the group was
-- in has realized less, each of them is resolved, and one of them has realized just that.
pub concentration_for-weakest :
    (group_ref : String) (cs : List CohortRecord) (s : Concentration)
    → concentration_for group_ref cs ≡ some s
    → (all (holds_for group_ref (realized_to (leb s.realized_k_eff))) cs ≡ true)
      × (any (holds_of group_ref (realized_to (λ n. s.realized_k_eff == n))) cs ≡ true)
concentration_for-weakest group_ref cs s e =
    let (b, l, h) = weakest_lem group_ref none cs s e in (l, h)

abbrev pub is_resolved : CohortRecord → Bool
is_resolved c = is_some c.realized_k_eff

abbrev can_tell : String → Option Concentration → List CohortRecord → Bool
can_tell group_ref r cs =
    (is_some r || any (has_leg_in group_ref) cs) && all (holds_for group_ref is_resolved) cs

Tells : String → List CohortRecord → Type 0
Tells group_ref cs =
    (q : Option Concentration) → is_some (weakest group_ref q cs) ≡ can_tell group_ref q cs

counts_on : (r a b : Bool) → b ≡ ((r || (true || a)) && b)
counts_on r a b = ground arith

told_by :
    (group_ref : String) (r : Option Concentration) (c : CohortRecord) (cs : List CohortRecord)
    (m : CohortMember)
    → has_leg_in group_ref c ≡ true
    → Tells group_ref cs
    → (realized : Option ℕ) → c.realized_k_eff ≡ realized
    → is_some (unless_silent (told_at r m c realized) (λ r'. weakest group_ref r' cs))
      ≡ can_tell group_ref r (c ∷ cs)
unfolding Tells
told_by group_ref r c cs m f rest none g = rw (f, g) (ground arith)
told_by group_ref r c cs m f rest (some n) g =
    rest (some (weaker r n m c))
    ∙ rw (f, g)
        (counts_on (is_some r) (any (has_leg_in group_ref) cs)
          (all (holds_for group_ref is_resolved) cs))

told_after :
    (group_ref : String) (r : Option Concentration) (c : CohortRecord) (cs : List CohortRecord)
    → Tells group_ref cs
    → (found : Option CohortMember) → has_leg_in group_ref c ≡ is_some found
    → is_some (unless_silent (told r c found) (λ r'. weakest group_ref r' cs))
      ≡ can_tell group_ref r (c ∷ cs)
unfolding Tells
told_after group_ref r c cs rest none f = rw (f, rest r)
told_after group_ref r c cs rest (some m) f =
    told_by group_ref r c cs m f rest c.realized_k_eff refl

weakest_told : (group_ref : String) (cs : List CohortRecord) → Tells group_ref cs
unfolding weakest Tells
weakest_told group_ref [] r = ground arith
weakest_told group_ref (c ∷ cs) r =
    told_after group_ref r c cs (weakest_told group_ref cs) (find (is_member group_ref) c.members)
      (any-find (is_member group_ref) c.members)

-- The owner of a group is told a cover exactly when a leg of the group was in a cohort and every
-- such cohort is resolved.
pub concentration_for-told :
    (group_ref : String) (cs : List CohortRecord)
    → is_some (concentration_for group_ref cs)
      ≡ (any (has_leg_in group_ref) cs && all (holds_for group_ref is_resolved) cs)
concentration_for-told group_ref cs = unfold Tells in weakest_told group_ref cs none
