-- ===== src/Queue/Enters.antt =====
-- A group that enters the journal agrees with the ledger: its legs are queued.
use px.Prelude.Action.{Write, write_done, write_failed}
use px.Prelude.{
  ℕ, String, ◌≡◌, refl, inl, inr, true, not, Option, none, some, List, [], ◌∷◌, ◌++◌, all,
  all-append, Bool-cases,
}
use px.Prelude.Action.{Result, ok, err}
use px.Ledger.State.{Ledger, Config}
use px.Pending.State.{
  PendingPayoutLeg, PendingPayoutGroup, PendingWorld, PendingError, assert_pending,
}
use px.Pending.Methods.{by_ref, put_group, put_by, checked_write, same_group}
use px.Pending.Gens.{put_group-Grows}
use px.Queue.State.{
  not_configured, no_legs_given, duplicate_legs, amount_not_positive, binds, QueueEnv,
  in_the_journal,
}
use px.Queue.Enqueue.{
  PoolPayoutLegInput, EnqueueGroupInput, queued_leg, queue_legs, is_no_input, queued_group,
  queued_receipt, enqueue_found, enqueue_group, QueuedGroupReceipt,
}
use px.Queue.Agreement.{agree, leg_agrees, group_agrees}
use px.Queue.Keeps.{
  Knowledge, Keeps, bind-Keeps, pure-Keeps, throw-Keeps, throw_if-Keeps, gets-Keeps, ask-Keeps,
  tell-Keeps, journal_step,
}
use px.Queue.Waves.{Returns, bind-Returns, any-Returns, pure-Returns, bind_knowing-Keeps}

-- A leg in any world agrees, whatever the ledger says of its payout.
abbrev AllAgree : List PendingPayoutLeg → Type 0
AllAgree legs = (cfg : Config) (s : Ledger) → all (leg_agrees cfg s) legs ≡ true

put_agrees :
    (cfg : Config) (s : Ledger) (persists : Write) (group : PendingPayoutGroup) (p : PendingWorld)
    → agree cfg s p.memory ≡ true
    → group_agrees cfg s group ≡ true
    → agree cfg s (put_group persists group p).1.memory ≡ true
unfolding put_group
put_agrees cfg s persists group p h k = go (by_ref group.group_ref p.memory)
  where
    next : List PendingPayoutGroup
    next = p.memory ++ group ∷ []

    joined : agree cfg s next ≡ true
    joined = all-append (group_agrees cfg s) p.memory (group ∷ []) h (rw k refl)

    persisted :
        (persists : Write) (r : Result PendingError (List String))
        → agree cfg s (checked_write persists next r p).1.memory ≡ true
    persisted write_done (ok out) = joined
    persisted (write_failed replaced) (ok out) = h
    persisted persists (err e) = h

    go :
        (found : Option PendingPayoutGroup)
        → agree cfg s (put_by persists group found p).1.memory ≡ true
    go none = persisted persists (assert_pending next)
    go (some existing) = elim (Bool-cases (not (same_group existing group))) [
      | inl e ↦ rw e h
      | inr e ↦ rw e h
    ]

module _ (env : QueueEnv) (K : Knowledge) where
  put_group-Keeps :
      (group : PendingPayoutGroup)
      → AllAgree group.legs
      → Keeps env K (in_the_journal env (λ persists. put_group persists group))
  unfolding Keeps
  put_group-Keeps group k w h =
      journal_step env K (λ p. put_group p group) w h
        (put_group-Grows (env.persists w.tick) group w.pending)
        (put_agrees env.config w.ledger.memory (env.persists w.tick) group w.pending h.agrees
          (k env.config w.ledger.memory))

  queue_legs-Keeps :
      (logical_id : PoolPayoutLegInput → String) (indexes : List ℕ) (refs : List String)
      (legs : List PoolPayoutLegInput)
      → Keeps env K (queue_legs logical_id indexes refs legs)
  unfolding queue_legs
  queue_legs-Keeps logical_id indexes refs [] = pure-Keeps env K []
  queue_legs-Keeps logical_id indexes refs (leg ∷ legs) =
      bind-Keeps env K _ _ (throw_if-Keeps env K _ duplicate_legs) (λ a.
        bind-Keeps env K _ _ (throw_if-Keeps env K _ amount_not_positive) (λ b.
          bind-Keeps env K _ _ (tell-Keeps env K (binds (logical_id leg) leg.payout_ref)) (λ c.
            bind-Keeps env K _ _
              (queue_legs-Keeps logical_id (leg.index ∷ indexes) (leg.payout_ref ∷ refs) legs)
              (λ rest. pure-Keeps env K _))))

  queue_legs-Returns :
      (logical_id : PoolPayoutLegInput → String) (indexes : List ℕ) (refs : List String)
      (legs : List PoolPayoutLegInput)
      → Returns AllAgree (queue_legs logical_id indexes refs legs)
  unfolding queue_legs
  queue_legs-Returns logical_id indexes refs [] = pure-Returns AllAgree [] (λ cfg s. refl)
  queue_legs-Returns logical_id indexes refs (leg ∷ legs) =
      bind-Returns _ AllAgree _ _ (any-Returns _) (λ a u.
        bind-Returns _ AllAgree _ _ (any-Returns _) (λ b v.
          bind-Returns _ AllAgree _ _ (any-Returns _) (λ c x.
            bind-Returns AllAgree AllAgree _ _
              (queue_legs-Returns logical_id (leg.index ∷ indexes) (leg.payout_ref ∷ refs) legs)
              (λ rest k.
                pure-Returns AllAgree (queued_leg logical_id leg ∷ rest) (λ cfg s. k cfg s)))))

  queued_receipt-Keeps :
      (delay : ℕ) (input : EnqueueGroupInput) → Keeps env K (queued_receipt env delay input)
  queued_receipt-Keeps delay input =
      bind-Keeps env K _ _ (ask-Keeps env K env.now) (λ now. pure-Keeps env K _)

  pub enqueue_group-Keeps :
      (rail : Option (PoolPayoutLegInput → String)) (delay : ℕ) (input : EnqueueGroupInput)
      → Keeps env K (enqueue_group env rail delay input)
  unfolding enqueue_group
  enqueue_group-Keeps rail delay input =
      bind-Keeps env K _ _ (throw_if-Keeps env K (is_no_input input.legs) no_legs_given) (λ a.
        bind-Keeps env K _ _ (gets-Keeps env K (λ w. w.pending.memory))
          (λ gs. go rail (by_ref input.group_ref gs)))
    where
      go :
          (rail : Option (PoolPayoutLegInput → String)) (found : Option PendingPayoutGroup)
          → Keeps env K (enqueue_found env rail delay input found)
      go rail (some existing) = queued_receipt-Keeps delay input
      go none none = throw-Keeps env K QueuedGroupReceipt not_configured
      go (some logical_id) none =
          bind_knowing-Keeps env K AllAgree (queue_legs logical_id [] [] input.legs) _
            (queue_legs-Keeps logical_id [] [] input.legs)
            (queue_legs-Returns logical_id [] [] input.legs)
            (λ legs k. bind-Keeps env K _ _ (ask-Keeps env K env.now) (λ now.
              bind-Keeps env K _ _ (put_group-Keeps (queued_group input legs now) k)
                (λ b. queued_receipt-Keeps delay input)))
