-- ===== src/Queue/Realized.antt =====
-- The cover that a cohort has given is witnessed by accounts whose legs settled.
use px.Prelude.{
  ℕ, ◌≤◌, String, ◌≡◌, refl, sym, ◌∙◌, Bool, true, false, ◌&&◌, ◌||◌, ◌==◌, Option, none, some,
  List, [], ◌∷◌, map, any, all, length, arith,
}
use px.Prelude.Text.{str_eq, str_eq_refl}
use px.Concentration.Metric.{
  ConcentrationLeg, compute_k_eff, leg_anonymity, owners_by_lane, anonymity_by_leg,
}
use px.Concentration.Owners.{owns_in_lane, no_repeats, leg_anonymity-counts_owners}
use px.Concentration.Least.{compute_k_eff-least}
use px.Pending.State.{PendingPayoutLeg, PendingPayoutGroup}
use px.Pending.Methods.{by_ref, leg_tag}
use px.Cohorts.Book.{CohortMember}
use px.Queue.Dispatch.{leg_in}
use px.Queue.Cover.{and_true}
use px.Queue.Cohorts.{Tally, tally_leg, tally, cover_leg, realized}

-- Accounts, each once, that pass a test, at least as many as given.
HasAccounts : ℕ → (String → Bool) → Type 0
HasAccounts k p =
    (owners : List String) × (no_repeats owners ≡ true)
    × (k ≤ length owners)
    × ((o : String) → any (str_eq o) owners ≡ true → p o ≡ true)

abbrev pays_for : String → ConcentrationLeg → Bool
pays_for o leg = str_eq o leg.owner_ref

any-pays_for :
    (lane o : String) (legs : List ConcentrationLeg)
    → any (owns_in_lane lane o) legs ≡ true
    → any (pays_for o) legs ≡ true
any-pays_for lane o [] h = cc
any-pays_for lane o (leg ∷ legs) h = ground (arith, any-pays_for lane o legs)

first_anonymity :
    (leg : ConcentrationLeg) (legs : List ConcentrationLeg)
    → compute_k_eff (leg ∷ legs) ≤ leg_anonymity (owners_by_lane (leg ∷ legs) []) leg.lane_key
unfolding anonymity_by_leg
first_anonymity leg legs = let h = (compute_k_eff-least leg legs).0 in ground arith

alone :
    (leg : ConcentrationLeg) (legs : List ConcentrationLeg) (k : ℕ)
    → k ≤ 1
    → HasAccounts k (λ o. any (pays_for o) (leg ∷ legs))
unfolding HasAccounts
alone leg legs k h = (leg.owner_ref ∷ [], refl, omega (arith, h), λ o e. ground arith)

together :
    (leg : ConcentrationLeg) (legs : List ConcentrationLeg) (k : ℕ) (key : Option String)
    → leg.lane_key ≡ key
    → k ≤ leg_anonymity (owners_by_lane (leg ∷ legs) []) key
    → HasAccounts k (λ o. any (pays_for o) (leg ∷ legs))
unfolding HasAccounts leg_anonymity
together leg legs k none e h = alone leg legs k h
together leg legs k (some lane) e h =
    let (owners, size, once, members) =
      leg_anonymity-counts_owners lane (leg ∷ legs) (rw (e, str_eq_refl lane)) in
    (owners, once, rw⁻¹ size h, λ o m. any-pays_for lane o (leg ∷ legs) (sym (members o) ∙ m))

compute_k_eff-HasAccounts :
    (legs : List ConcentrationLeg) → HasAccounts (compute_k_eff legs) (λ o. any (pays_for o) legs)
unfolding HasAccounts compute_k_eff
compute_k_eff-HasAccounts [] = ([], refl, omega arith, λ o e. cc)
compute_k_eff-HasAccounts (leg ∷ legs) =
    together leg legs (compute_k_eff (leg ∷ legs)) leg.lane_key refl (first_anonymity leg legs)

abbrev pub is_settled_leg : Option PendingPayoutLeg → Bool
is_settled_leg none = false
is_settled_leg (some leg) = leg_tag leg.state == 2

-- Whether an account pays for a member whose leg the journal calls settled.
abbrev pub settled_for : List PendingPayoutGroup → String → CohortMember → Bool
settled_for gs o m =
    str_eq o m.owner_ref && is_settled_leg (leg_in (by_ref m.group_ref gs) m.leg_index)

tally_leg-pays :
    (o : String) (m : CohortMember) (leg : Option PendingPayoutLeg) (t : Tally)
    → any (pays_for o) (map cover_leg (tally_leg m leg t).settled)
      ≡ ((str_eq o m.owner_ref && is_settled_leg leg) || any (pays_for o) (map cover_leg t.settled))
tally_leg-pays o m none t = ground arith
tally_leg-pays o m (some leg) t = ground arith

tally-pays :
    (gs : List PendingPayoutGroup) (o : String) (ms : List CohortMember)
    → any (pays_for o) (map cover_leg (tally gs ms).settled) ≡ any (settled_for gs o) ms
unfolding tally
tally-pays gs o [] = refl
tally-pays gs o (m ∷ ms) =
    tally_leg-pays o m (leg_in (by_ref m.group_ref gs) m.leg_index) (tally gs ms)
    ∙ rw (tally-pays gs o ms)

all-members :
    (p : String → Bool) (xs : List String)
    → ((o : String) → any (str_eq o) xs ≡ true → p o ≡ true)
    → all p xs ≡ true
all-members p [] h = refl
all-members p (x ∷ xs) h =
    and_true (p x) (all p xs) (h x (rw (str_eq_refl x)))
      (all-members p xs (λ o m. h o (ground (arith, m))))

-- A cohort's realized k_eff of k is witnessed by at least k distinct accounts, each of which pays for
-- a member of the cohort whose leg has settled.
pub realized-is_covered :
    (gs : List PendingPayoutGroup) (ms : List CohortMember)
    → (owners : List String) × (no_repeats owners ≡ true)
      × (realized (tally gs ms) ≤ length owners)
      × (all (λ o. any (settled_for gs o) ms) owners ≡ true)
unfolding HasAccounts
realized-is_covered gs ms =
    let (owners, once, enough, paid) =
      compute_k_eff-HasAccounts (map cover_leg (tally gs ms).settled) in
    (
      owners,
      once,
      enough,
      all-members (λ o. any (settled_for gs o) ms) owners
          (λ o m. sym (tally-pays gs o ms) ∙ paid o m),
    )
