-- ===== src/Queue/Due.antt =====
-- A group that has waited its cap is among those that the gate's decision releases.
use px.Prelude.{
  ℕ, ◌+◌, String, ◌≡◌, refl, sym, ap, ◌∙◌, Bool, true, not, ◌&&◌, ◌||◌, ◌==◌, ==_iff, List, [], ◌∷◌,
  ◌++◌, any, all, map, or_else, leb, leb→le, arith, Bool-cases, Option-cases, inl, inr,
}
use px.Prelude.Text.{str_eq, str_eq_iff, str_eq_refl}
use px.Prelude.Dict.{Dict, lookup, insert, all-insert, all-lookup}
use px.Concentration.Gate.{ConcentrationGroup, GateParams, plan_window_release}
use px.Concentration.Release.{plan-releases_overdue}
use px.Queue.Cover.{and_true}
use px.Queue.Dispatch.{Candidate}
use px.Queue.Gate.{hold_of, view_of, view_leg, with_leg, views}

-- When a candidate's group has waited its cap.
abbrev pub deadline : ℕ → Candidate → ℕ
deadline ceiling c = c.0.created_at + hold_of ceiling c.0.max_hold_ms

abbrev pub is_due : ℕ → ℕ → Candidate → Bool
is_due ceiling now c = leb (deadline ceiling c) now

-- Candidates of one group have one deadline, as they have in a list of the journal.
abbrev pub is_alike : ℕ → Candidate → Candidate → Bool
is_alike ceiling c d =
    not (str_eq d.0.group_ref c.0.group_ref) || deadline ceiling d == deadline ceiling c

abbrev view_deadline : ConcentrationGroup → ℕ
view_deadline v = v.created_at + v.max_hold_ms

-- An entry of the views names its group, and has the deadline of the candidate if it is of its group.
abbrev is_right : ℕ → Candidate → String × ConcentrationGroup → Bool
is_right ceiling c e =
    str_eq e.1.group_ref e.0
    && (not (str_eq e.0 c.0.group_ref) || view_deadline e.1 == deadline ceiling c)

entered :
    (ceiling : ℕ) (c d : Candidate) (groups : Dict ConcentrationGroup)
    → is_alike ceiling c d ≡ true
    → all (is_right ceiling c) groups ≡ true
    → is_right ceiling c (
      d.0.group_ref,
      with_leg (view_leg d.0 d.1) (or_else (lookup d.0.group_ref groups) (view_of ceiling d.0)),
    )
      ≡ true
entered ceiling c d groups h k = elim (Option-cases (lookup d.0.group_ref groups)) [
  | inl e ↦ rw (e, str_eq_refl d.0.group_ref) h
  | inr (v, e) ↦ rw e (all-lookup (is_right ceiling c) d.0.group_ref v groups k e)
]

views-right :
    (ceiling : ℕ) (c : Candidate) (ds : List Candidate) (groups : Dict ConcentrationGroup)
    → all (is_alike ceiling c) ds ≡ true
    → all (is_right ceiling c) groups ≡ true
    → all (is_right ceiling c) (views ceiling ds groups) ≡ true
unfolding views
views-right ceiling c [] groups h k = k
views-right ceiling c (d ∷ ds) groups h k = views-right ceiling c ds _ (ground arith) (
    all-insert (is_right ceiling c) d.0.group_ref _ groups k
      (entered ceiling c d groups (ground arith) k))

abbrev names : String → String × ConcentrationGroup → Bool
names ref e = str_eq e.0 ref

any-insert :
    (ref k : String) (v : ConcentrationGroup) (groups : Dict ConcentrationGroup)
    → any (names ref) (insert k v groups) ≡ (any (names ref) groups || str_eq k ref)
unfolding insert
any-insert ref k v [] = ground arith
any-insert ref k v ((j, u) ∷ groups) =
    ground (arith, any-insert ref k v groups, str_eq_iff j k, str_eq_iff j ref, str_eq_iff k ref)

views-named :
    (ceiling : ℕ) (ref : String) (ds : List Candidate) (groups : Dict ConcentrationGroup)
    → (any (names ref) groups || any (λ d. str_eq d.0.group_ref ref) ds) ≡ true
    → any (names ref) (views ceiling ds groups) ≡ true
unfolding views
views-named ceiling ref [] groups h = ground arith
views-named ceiling ref (d ∷ ds) groups h =
    views-named ceiling ref ds _ (rw (any-insert ref d.0.group_ref _ groups) (ground arith))

-- The views as the decision takes them.
abbrev pub view_list : Dict ConcentrationGroup → List ConcentrationGroup
view_list groups = map (λ e. e.1) groups

-- An entry that names the group, by what stands before and after it.
Splits : ℕ → Candidate → List ConcentrationGroup → Type 0
Splits ceiling c vs =
    (xs : List ConcentrationGroup) × (v : ConcentrationGroup) × (ys : List ConcentrationGroup) × (vs
      ≡ xs ++ v ∷ ys)
    × (v.group_ref ≡ c.0.group_ref)
    × (view_deadline v ≡ deadline ceiling c)

named_view :
    (ceiling : ℕ) (c : Candidate) (groups : Dict ConcentrationGroup)
    → all (is_right ceiling c) groups ≡ true
    → any (names c.0.group_ref) groups ≡ true
    → Splits ceiling c (view_list groups)
unfolding Splits
named_view ceiling c [] h k = cc
named_view ceiling c ((j, v) ∷ groups) h k = elim (Bool-cases (str_eq j c.0.group_ref)) [
  | inl e ↦
      let same = (str_eq_iff j c.0.group_ref).0 e in
      let right : is_right ceiling c (j, v) ≡ true = ground (arith, h) in
      let ref : str_eq v.group_ref j ≡ true = ground (arith, right) in
      let at : (view_deadline v == deadline ceiling c) ≡ true = ground (arith, right, e) in
      (
        [],
        v,
        view_list groups,
        refl,
        (str_eq_iff v.group_ref j).0 ref ∙ same,
        (==_iff (view_deadline v) (deadline ceiling c)).0 at,
      )
  | inr e ↦
      let (xs, w, ys, split, ref, at) =
        named_view ceiling c groups (ground (arith, h)) (ground (arith, k, e)) in
      (v ∷ xs, w, ys, ap (λ l. v ∷ l) split, ref, at)
]

released_view :
    (ceiling : ℕ) (c : Candidate) (vs : List ConcentrationGroup) (params : GateParams)
    → Splits ceiling c vs
    → is_due ceiling params.now c ≡ true
    → any (str_eq c.0.group_ref) (plan_window_release vs params).release_group_refs ≡ true
unfolding Splits
released_view ceiling c vs params (xs, v, ys, split, ref, at) due =
    rw (split, sym ref)
      (plan-releases_overdue xs v ys params (rw at (leb→le (deadline ceiling c) params.now due)))

abbrev pub all_alike : ℕ → List Candidate → Bool
all_alike ceiling cs = all (λ c. all (is_alike ceiling c) cs) cs

abbrev pub in_time : ℕ → GateParams → List ConcentrationGroup → Candidate → Bool
in_time ceiling params vs c =
    not (is_due ceiling params.now c)
    || any (str_eq c.0.group_ref) (plan_window_release vs params).release_group_refs

candidate_in_time :
    (ceiling : ℕ) (ds : List Candidate) (params : GateParams) (c : Candidate)
    → all (is_alike ceiling c) ds ≡ true
    → any (λ d. str_eq d.0.group_ref c.0.group_ref) ds ≡ true
    → in_time ceiling params (view_list (views ceiling ds [])) c ≡ true
candidate_in_time ceiling ds params c h k = elim (Bool-cases (is_due ceiling params.now c)) [
  | inl e ↦ rw (
    e,
    released_view ceiling c (view_list (views ceiling ds [])) params
        (named_view ceiling c (views ceiling ds []) (views-right ceiling c ds [] h refl)
          (views-named ceiling c.0.group_ref ds [] k))
        e,
  )
  | inr e ↦ rw e
]

due_released :
    (ceiling : ℕ) (ds : List Candidate) (params : GateParams) (cs : List Candidate)
    → all (λ c. all (is_alike ceiling c) ds) cs ≡ true
    → all (λ c. any (λ d. str_eq d.0.group_ref c.0.group_ref) ds) cs ≡ true
    → all (in_time ceiling params (view_list (views ceiling ds []))) cs ≡ true
due_released ceiling ds params [] h k = refl
due_released ceiling ds params (c ∷ cs) h k =
    and_true _ (all (in_time ceiling params (view_list (views ceiling ds []))) cs)
      (candidate_in_time ceiling ds params c (ground (arith, h)) (ground (arith, k)))
      (due_released ceiling ds params cs (ground (arith, h)) (ground (arith, k)))

-- Each candidate's group has a candidate.
present_more :
    (d : Candidate) (ds cs : List Candidate)
    → all (λ c. any (λ e. str_eq e.0.group_ref c.0.group_ref) ds) cs ≡ true
    → all (λ c. any (λ e. str_eq e.0.group_ref c.0.group_ref) (d ∷ ds)) cs ≡ true
present_more d ds [] h = refl
present_more d ds (c ∷ cs) h = ground (arith, present_more d ds cs)

all_present :
    (ds : List Candidate) → all (λ c. any (λ e. str_eq e.0.group_ref c.0.group_ref) ds) ds ≡ true
all_present [] = refl
all_present (d ∷ ds) = rw (str_eq_refl d.0.group_ref) (present_more d ds ds (all_present ds))

-- The groups that have waited their cap are released, when the candidates of a group agree on it.
pub all_due_released :
    (ceiling : ℕ) (ds : List Candidate) (params : GateParams)
    → all_alike ceiling ds ≡ true
    → all (in_time ceiling params (view_list (views ceiling ds []))) ds ≡ true
all_due_released ceiling ds params h = due_released ceiling ds params ds h (all_present ds)
