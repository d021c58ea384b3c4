-- ===== src/Queue/Settles.antt =====
-- The two ways in which a leg becomes terminal: the ledger first, then the leg.
use px.Prelude.Action.{Write, write_done, write_failed}
use px.Prelude.{
  ℕ, suc, String, ◌≡◌, refl, ◌∙◌, ap, inl, inr, Bool, true, Option, none, some, List, Bool-cases,
  update_first, ◌&&◌, ◌==◌,
}
use px.Prelude.Action.{Result, ok, err, continue}
use px.Ledger.State.{Ledger, World, LedgerError}
use px.Ledger.Payouts.{mark_payout_settled}
use px.Ledger.Reversals.{reverse_payout}
use px.Pending.State.{LegState, GroupState, PendingPayoutGroup, LegPatch, PendingWorld}
use px.Pending.Methods.{has_ref, by_ref, update_leg, group_tag, same_option, same_nat}
use px.Pending.Marks.{set_group_state, set_found, with_state}
use px.Pending.Grows.{Named}
use px.Pending.Gens.{set_group_state-Grows}
use px.Queue.State.{
  QueueEnv, QueueWorld, ◌>>=◌, ◌>>◌, gets, raised, in_ledger, in_the_ledger, in_the_journal, ask,
}
use px.Queue.Verdicts.{derive_group_state, derive_found}
use px.Queue.Standing.{Unique, Follows, is_settled_in, is_gone_from}
use px.Queue.Moves.{mark_payout_settled-Marked, reverse_payout-Reversed}
use px.Queue.Agreement.{agree, agree-Follows, agree-with_state, patched_agrees}
use px.Queue.Keeps.{
  Knowledge, Holds, Keeps, journal_step, update_Holds, bind-Keeps, gets-Keeps, pure-Keeps,
  ask-Keeps,
}

module _ (env : QueueEnv) (K : Knowledge) where
  -- A payout is settled in the ledger, and then its leg.
  pub settle-Keeps :
      (group_ref : String) (index : ℕ) (payout_ref : String) (tx : Option String)
      (patch : ℕ → LegPatch) (gen : Option ℕ)
      → ((gs : List PendingPayoutGroup) → K.Known gs → Named group_ref index payout_ref gs)
      → ((n : ℕ) → ((patch n).state ≡ some LegState.settled) × ((patch n).payout_ref ≡ none))
      → Keeps env K (
          in_the_ledger env (λ e. mark_payout_settled env.config e payout_ref tx)
          >> (ask env.now >>= λ now.
              in_the_journal env (λ persists. update_leg persists group_ref index (patch now) gen)))
  unfolding Keeps ◌>>=◌ in_the_ledger ask
  settle-Keeps group_ref index payout_ref tx patch gen names settles w h =
      go (mark_payout_settled env.config (env.ledger w.tick) payout_ref tx w.ledger).0
        (mark_payout_settled env.config (env.ledger w.tick) payout_ref tx w.ledger).1
        (mark_payout_settled-Marked env.config (env.ledger w.tick) payout_ref tx w.ledger)
    where
      go :
          (r : Result LedgerError (Unit {0})) (l : World)
          → Follows env.config w.ledger.memory l.memory
            × (r ≡ ok tt → is_settled_in env.config payout_ref l.memory ≡ true)
          → Holds env K
              (continue
                (raised in_ledger r)
                (λ _. ask env.now >>= λ now.
                  in_the_journal env
                    (λ persists. update_leg persists group_ref index (patch now) gen))
                (record w { ledger = l; tick = suc w.tick })).1
      go (ok tt) l (follows, done) =
          let now = env.now (suc w.tick) in
          let w' : QueueWorld = record w { ledger = l; tick = suc (suc w.tick) } in
          let known = h.known in
          let (leg, e, same) = names w.pending.memory known in
          let settled' = done refl in
          update_Holds env K group_ref index (patch now) gen w'
            (record {
              unique = λ r. follows.unique_stays r (h.unique r);
              agrees =
                  agree-Follows env.config w.ledger.memory l.memory w.pending.memory follows
                    h.agrees;
              known = known;
            })
            (λ x f.
              patched_agrees env.config l.memory (patch now) x payout_ref LegState.settled
                (settles now).0 (settles now).1
                (let one : x ≡ leg = cc in ap (λ y. y.payout_ref) one ∙ same) settled')
      go (err e) l (follows, done) = record {
        unique = λ r. follows.unique_stays r (h.unique r);
        agrees =
            agree-Follows env.config w.ledger.memory l.memory w.pending.memory follows h.agrees;
        known = h.known;
      }

  -- A payout is reversed in the ledger, and then its leg has failed.
  pub reverse-Keeps :
      (group_ref : String) (index : ℕ) (payout_ref : String) (patch : ℕ → LegPatch) (gen : Option ℕ)
      → ((gs : List PendingPayoutGroup) → K.Known gs → Named group_ref index payout_ref gs)
      → ((n : ℕ) → ((patch n).state ≡ some LegState.failed) × ((patch n).payout_ref ≡ none))
      → Keeps env K (
          in_the_ledger env (λ e. reverse_payout env.config e payout_ref)
          >> (ask env.now >>= λ now.
              in_the_journal env (λ persists. update_leg persists group_ref index (patch now) gen)))
  unfolding Keeps ◌>>=◌ in_the_ledger ask
  reverse-Keeps group_ref index payout_ref patch gen names fails w h =
      go (reverse_payout env.config (env.ledger w.tick) payout_ref w.ledger).0
        (reverse_payout env.config (env.ledger w.tick) payout_ref w.ledger).1
        (reverse_payout-Reversed env.config (env.ledger w.tick) payout_ref w.ledger)
    where
      go :
          (r : Result LedgerError Bool) (l : World)
          → Follows env.config w.ledger.memory l.memory
            × ((b : Bool)
                → Unique env.config w.ledger.memory
                → r ≡ ok b
                → is_gone_from env.config payout_ref l.memory ≡ true)
          → Holds env K
              (continue
                (raised in_ledger r)
                (λ _. ask env.now >>= λ now.
                  in_the_journal env
                    (λ persists. update_leg persists group_ref index (patch now) gen))
                (record w { ledger = l; tick = suc w.tick })).1
      go (ok b) l (follows, done) =
          let now = env.now (suc w.tick) in
          let w' : QueueWorld = record w { ledger = l; tick = suc (suc w.tick) } in
          let known = h.known in
          let (leg, e, same) = names w.pending.memory known in
          let gone = done b h.unique refl in
          update_Holds env K group_ref index (patch now) gen w'
            (record {
              unique = λ r. follows.unique_stays r (h.unique r);
              agrees =
                  agree-Follows env.config w.ledger.memory l.memory w.pending.memory follows
                    h.agrees;
              known = known;
            })
            (λ x f.
              patched_agrees env.config l.memory (patch now) x payout_ref LegState.failed
                (fails now).0 (fails now).1
                (let one : x ≡ leg = cc in ap (λ y. y.payout_ref) one ∙ same) gone)
      go (err e) l (follows, done) = record {
        unique = λ r. follows.unique_stays r (h.unique r);
        agrees =
            agree-Follows env.config w.ledger.memory l.memory w.pending.memory follows h.agrees;
        known = h.known;
      }

  -- The state of a group is no concern of its legs.
  set_agrees :
      (persists : Write) (group_ref : String) (state : GroupState) (terminal_at : Option ℕ)
      (s : Ledger) (p : PendingWorld)
      → agree env.config s p.memory ≡ true
      → agree env.config s (set_group_state persists group_ref state terminal_at p).1.memory ≡ true
  unfolding set_group_state
  set_agrees persists group_ref state terminal_at s p h = go persists (by_ref group_ref p.memory)
    where
      next_agrees :
          agree env.config s
            (update_first (has_ref group_ref) (with_state state terminal_at) p.memory)
          ≡ true
      next_agrees =
          agree-with_state env.config s (has_ref group_ref) (with_state state terminal_at) p.memory
            (λ g. refl) h

      go :
          (persists : Write) (found : Option PendingPayoutGroup)
          → agree env.config s (set_found persists group_ref state terminal_at found p).1.memory
            ≡ true
      go persists none = h
      go write_done (some g) =
          elim (Bool-cases (
            group_tag g.group_state == group_tag state
            && same_option same_nat g.terminal_at terminal_at)) [
              | inl same ↦ rw same h
              | inr changed ↦ rw changed next_agrees
            ]
      go (write_failed replaced) (some g) =
          elim (Bool-cases (
            group_tag g.group_state == group_tag state
            && same_option same_nat g.terminal_at terminal_at)) [
              | inl same ↦ rw same h
              | inr changed ↦ rw changed h
            ]

  pub set_group_state-Keeps :
      (group_ref : String) (state : GroupState) (terminal_at : Option ℕ)
      → Keeps env K
          (in_the_journal env (λ persists. set_group_state persists group_ref state terminal_at))
  unfolding Keeps
  set_group_state-Keeps group_ref state terminal_at w h =
      journal_step env K (λ p. set_group_state p group_ref state terminal_at) w h
        (set_group_state-Grows (env.persists w.tick) group_ref state terminal_at w.pending)
        (set_agrees (env.persists w.tick) group_ref state terminal_at w.ledger.memory w.pending
          h.agrees)

  pub derive_group_state-Keeps :
      (group_ref : String) → Keeps env K (derive_group_state env group_ref)
  unfolding derive_group_state
  derive_group_state-Keeps group_ref =
      bind-Keeps env K (gets (λ w. w.pending.memory))
        (λ gs. derive_found env group_ref (by_ref group_ref gs))
        (gets-Keeps env K (λ w. w.pending.memory)) (λ gs. go (by_ref group_ref gs))
    where
      go : (found : Option PendingPayoutGroup) → Keeps env K (derive_found env group_ref found)
      go none = pure-Keeps env K tt
      go (some g) =
          bind-Keeps env K (ask env.now) _ (ask-Keeps env K env.now)
            (λ now. set_group_state-Keeps group_ref _ _)
