-- ===== src/Queue/Gated.antt =====
-- The gate, the evidence and the cohorts change nothing that journal and ledger agree on.
use px.Prelude.Action.{Write, write_done, write_failed}
use px.Prelude.{
  ℕ, String, ◌≡◌, refl, Bool, true, false, List, [], ◌∷◌, map, keep, Bool-cases, arith, inl, inr,
}
use px.Prelude.Dict.{Dict}
use px.Ledger.State.{Ledger}
use px.Pending.State.{PendingPayoutGroup, PendingWorld}
use px.Pending.Marks.{mark, is_marked, stamp, mark_evidence_counted}
use px.Pending.Gens.{mark_evidence_counted-Grows}
use px.Concentration.Metric.{ConcentrationLeg}
use px.Concentration.Gate.{ReleaseDecision}
use px.Cohorts.Book.{CohortKind, CohortRecord, CohortAction}
use px.Queue.State.{QueueEnv, pure, in_the_book, in_the_journal}
use px.Queue.Dispatch.{Candidate}
use px.Queue.Agreement.{agree, group_agrees}
use px.Queue.Keeps.{
  Knowledge, Keeps, bind-Keeps, pure-Keeps, gets-Keeps, ask-Keeps, catch-Keeps, journal_step,
}
use px.Queue.Cohorts.{
  Tally, set_cohort, plan_cohort, settle_tallied, settle_open, settle_each, settle_cohorts,
  is_other, tally, cohorts_of,
}
use px.Queue.Samples.{keep_samples, record_k_eff_sample}
use px.Queue.Gate.{
  decision_of, is_nothing, count_marked, count_fresh, plan_some, sample_release, release_by,
  gate_denominated, apply_concentration_gate,
}

module _ (env : QueueEnv) (K : Knowledge) where
  pub in_the_book-Keeps :
      {A : Type 0} (m : Write → CohortAction A) → Keeps env K (in_the_book env m)
  unfolding in_the_book Keeps
  in_the_book-Keeps m w h = record { unique = h.unique; agrees = h.agrees; known = h.known }

  pub set_cohort-Keeps : (c : CohortRecord) → Keeps env K (set_cohort c)
  unfolding set_cohort Keeps
  set_cohort-Keeps c w h = record { unique = h.unique; agrees = h.agrees; known = h.known }

  plan_cohort-Keeps :
      (network : String) (kind : CohortKind) (members : List Candidate) (k e now : ℕ)
      → Keeps env K (plan_cohort env network kind members k e now)
  unfolding plan_cohort
  plan_cohort-Keeps network kind members k e now =
      bind-Keeps env K _ _ (ask-Keeps env K _)
        (λ hex. bind-Keeps env K _ _ (in_the_book-Keeps _) (λ u. set_cohort-Keeps _))

  plan_some-Keeps :
      (network : String) (kind : CohortKind) (members : List Candidate) (k e now : ℕ)
      → Keeps env K (plan_some env network kind members k e now)
  plan_some-Keeps network kind [] k e now = pure-Keeps env K tt
  plan_some-Keeps network kind (m ∷ members) k e now =
      plan_cohort-Keeps network kind (m ∷ members) k e now

  settle_tallied-Keeps :
      (c : CohortRecord) (t : Tally) (b : Bool) → Keeps env K (settle_tallied env c t b)
  settle_tallied-Keeps c t false = pure-Keeps env K tt
  settle_tallied-Keeps c t true =
      bind-Keeps env K _ _ (ask-Keeps env K _)
        (λ now. bind-Keeps env K _ _ (in_the_book-Keeps _) (λ u. set_cohort-Keeps _))

  settle_open-Keeps : (c : CohortRecord) (b : Bool) → Keeps env K (settle_open env c b)
  settle_open-Keeps c true = pure-Keeps env K tt
  settle_open-Keeps c false =
      bind-Keeps env K _ _ (gets-Keeps env K _)
        (λ gs. settle_tallied-Keeps c (tally gs c.members) _)

  settle_each-Keeps :
      (network : String) (cs : List CohortRecord) → Keeps env K (settle_each env network cs)
  unfolding settle_each
  settle_each-Keeps network [] = pure-Keeps env K tt
  settle_each-Keeps network (c ∷ cs) =
      bind-Keeps env K _ _ (settle_open-Keeps c (is_other network c))
        (λ u. settle_each-Keeps network cs)

  pub settle_cohorts-Keeps : (network : String) → Keeps env K (settle_cohorts env network)
  unfolding settle_cohorts
  settle_cohorts-Keeps network =
      bind-Keeps env K _ _ (gets-Keeps env K cohorts_of) (λ cs. settle_each-Keeps network cs)

  keep_samples-Keeps : (now : ℕ) (lanes : Dict ℕ) → Keeps env K (keep_samples env.gate now lanes)
  unfolding keep_samples Keeps
  keep_samples-Keeps now lanes w h = record {
    unique = h.unique;
    agrees = h.agrees;
    known = h.known;
  }

  sample_release-Keeps :
      (now : ℕ) (decision : ReleaseDecision) → Keeps env K (sample_release env now decision)
  unfolding record_k_eff_sample Keeps pure
  sample_release-Keeps now decision w h =
      elim (Bool-cases (is_nothing decision.release_group_refs)) [
        | inl e ↦ rw e h
        | inr e ↦ rw e (record { unique = h.unique; agrees = h.agrees; known = h.known })
      ]

  -- A mark is no concern of the legs.
  mark_agrees_alike :
      (s : Ledger) (wanted : List String) (at_ms : ℕ) (g : PendingPayoutGroup)
      → group_agrees env.config s (mark wanted at_ms g) ≡ group_agrees env.config s g
  mark_agrees_alike s wanted at_ms g = elim (Bool-cases (is_marked wanted g)) [
    | inl e ↦ rw e refl
    | inr e ↦ rw e refl
  ]

  agree-mark :
      (s : Ledger) (wanted : List String) (at_ms : ℕ) (gs : List PendingPayoutGroup)
      → agree env.config s gs ≡ true
      → agree env.config s (map (mark wanted at_ms) gs) ≡ true
  agree-mark s wanted at_ms [] h = refl
  agree-mark s wanted at_ms (g ∷ gs) h =
      ground (arith, mark_agrees_alike s wanted at_ms g, agree-mark s wanted at_ms gs)

  mark_agrees :
      (persists : Write) (wanted : List String) (at_ms : ℕ) (s : Ledger) (p : PendingWorld)
      → agree env.config s p.memory ≡ true
      → agree env.config s (mark_evidence_counted persists wanted at_ms p).1.memory ≡ true
  unfolding mark_evidence_counted
  mark_agrees persists wanted at_ms s p h = go persists (keep (is_marked wanted) p.memory)
    where
      go :
          (persists : Write) (marked : List PendingPayoutGroup)
          → agree env.config s (stamp persists wanted at_ms p.memory marked p).1.memory ≡ true
      go persists [] = h
      go write_done (g ∷ marked) = agree-mark s wanted at_ms p.memory h
      go (write_failed replaced) (g ∷ marked) = h

  mark_evidence_counted-Keeps :
      (wanted : List String) (at_ms : ℕ)
      → Keeps env K (in_the_journal env (λ persists. mark_evidence_counted persists wanted at_ms))
  unfolding Keeps
  mark_evidence_counted-Keeps wanted at_ms w h =
      journal_step env K (λ p. mark_evidence_counted p wanted at_ms) w h
        (mark_evidence_counted-Grows (env.persists w.tick) wanted at_ms w.pending)
        (mark_agrees (env.persists w.tick) wanted at_ms w.ledger.memory w.pending h.agrees)

  count_marked-Keeps :
      (now : ℕ) (legs : List ConcentrationLeg) (marked : List String)
      → Keeps env K (count_marked env now legs marked)
  count_marked-Keeps now legs [] = pure-Keeps env K tt
  count_marked-Keeps now legs (m ∷ marked) = keep_samples-Keeps now _

  count_fresh-Keeps :
      (now : ℕ) (legs : List ConcentrationLeg) (fresh : List String)
      → Keeps env K (count_fresh env now legs fresh)
  count_fresh-Keeps now legs [] = pure-Keeps env K tt
  count_fresh-Keeps now legs (f ∷ fresh) =
      bind-Keeps env K _ _
        (catch-Keeps env K _ _ (mark_evidence_counted-Keeps (f ∷ fresh) now)
          (λ e. pure-Keeps env K []))
        (λ marked. count_marked-Keeps now legs marked)

  release_by-Keeps :
      (network : String) (now k : ℕ) (exact denominated : List Candidate)
      (decision : ReleaseDecision)
      → Keeps env K (release_by env network now k exact denominated decision)
  release_by-Keeps network now k exact denominated decision =
      bind-Keeps env K _ _ (plan_some-Keeps network CohortKind.exact exact 1 1 now) (λ a.
        bind-Keeps env K _ _ (plan_some-Keeps network _ _ k decision.realized_k_eff now) (λ b.
          bind-Keeps env K _ _ (sample_release-Keeps now decision)
            (λ c. bind-Keeps env K _ _ (ask-Keeps env K _) (λ draws. pure-Keeps env K _))))

  gate_denominated-Keeps :
      (network : String) (now : ℕ) (exact denominated : List Candidate)
      → Keeps env K (gate_denominated env network now exact denominated)
  gate_denominated-Keeps network now exact [] =
      bind-Keeps env K _ _ (plan_some-Keeps network CohortKind.exact exact 1 1 now)
        (λ u. pure-Keeps env K exact)
  gate_denominated-Keeps network now exact (d ∷ denominated) =
      bind-Keeps env K _ _ (gets-Keeps env K _) (λ samples.
        bind-Keeps env K _ _ (count_fresh-Keeps now _ _) (λ u.
          release_by-Keeps network now _ exact (d ∷ denominated)
            (decision_of env now samples (d ∷ denominated))))

  pub apply_concentration_gate-Keeps :
      (network : String) (candidates : List Candidate)
      → Keeps env K (apply_concentration_gate env network candidates)
  unfolding apply_concentration_gate
  apply_concentration_gate-Keeps network candidates =
      bind-Keeps env K _ _ (ask-Keeps env K _) (λ now. gate_denominated-Keeps network now _ _)
