-- ===== src/Queue/Listed.antt =====
-- When journal and ledger agree, and legs that were listed are still those that they were.
use px.Prelude.{◌≡◌, true, List, [], ◌∷◌}
use px.Pending.State.{PendingPayoutGroup}
use px.Pending.Grows.{GroupsGrow, Named, Named-GroupsGrow}
use px.Queue.State.{QueueEnv, QueueWorld, QueueAction}
use px.Queue.Dispatch.{Candidate}
use px.Queue.Standing.{Unique}
use px.Queue.Agreement.{agree}
use px.Queue.Keeps.{Knowledge, Keeps}
use px.Queue.Waves.{AllPicked}

-- Every payout reference is in the ledger once at most, and every leg of the journal agrees with the
-- ledger: a settled leg's payout is settled in it, and a failed leg's payout is gone from it.
pub record InAgreement (env : QueueEnv) (w : QueueWorld) : Type 0 where
  pub unique : Unique env.config w.ledger.memory
  pub agrees : agree env.config w.ledger.memory w.pending.memory ≡ true

-- A leg as it was listed: the journal still has a leg of that group and index, and it pays out the
-- same reference.
abbrev pub IsListed : QueueWorld → Candidate → Type 0
IsListed w (group, leg) = Named group.group_ref leg.index leg.payout_ref w.pending.memory

abbrev pub AllListed : QueueWorld → List Candidate → Type 0
AllListed w [] = Unit
AllListed w (c ∷ cs) = IsListed w c × AllListed w cs

abbrev pub AllNamed : List Candidate → List PendingPayoutGroup → Type 0
AllNamed [] gs = Unit
AllNamed ((group, leg) ∷ cs) gs = Named group.group_ref leg.index leg.payout_ref gs × AllNamed cs gs

pub named_last :
    (cs : List Candidate) (gs gs' : List PendingPayoutGroup)
    → AllNamed cs gs
    → GroupsGrow gs gs'
    → AllNamed cs gs'
named_last [] gs gs' h grows = tt
named_last ((group, leg) ∷ cs) gs gs' (h, hs) grows = (
  Named-GroupsGrow group.group_ref leg.index leg.payout_ref gs gs' h grows,
  named_last cs gs gs' hs grows,
)

abbrev pub naming : List Candidate → Knowledge
naming cs = record { Known = AllNamed cs; lasts = named_last cs }

-- Knowledge of more legs names those of a part.
pub all_picked :
    (env : QueueEnv) (K : Knowledge) (cs : List Candidate)
    → ((gs : List PendingPayoutGroup) → K.Known gs → AllNamed cs gs)
    → AllPicked env K cs
all_picked env K [] h = tt
all_picked env K ((group, leg) ∷ cs) h =
    (λ gs k. (h gs k).0, all_picked env K cs (λ gs k. (h gs k).1))

pub listed_named :
    (w : QueueWorld) (cs : List Candidate) → AllListed w cs → AllNamed cs w.pending.memory
listed_named w [] h = tt
listed_named w ((group, leg) ∷ cs) (h, hs) = (h, listed_named w cs hs)

-- A block that keeps agreement from knowledge of some listed legs.
pub by_Keeps :
    {A : Type 0} (env : QueueEnv) (cs : List Candidate) (m : QueueAction A) (w : QueueWorld)
    → Keeps env (naming cs) m
    → AllListed w cs
    → InAgreement env w
    → InAgreement env (m w).1
unfolding Keeps
by_Keeps env cs m w keeps listed h =
    let k =
      keeps w (record { unique = h.unique; agrees = h.agrees; known = listed_named w cs listed }) in
    record { unique = k.unique; agrees = k.agrees }
