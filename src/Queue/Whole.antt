-- ===== src/Queue/Whole.antt =====
-- A flush, a reconcile pass and a prune of a whole network, from a world in agreement.
use px.Prelude.Action.{Write, write_done, write_failed}
use px.Prelude.{
  ℕ, String, ◌≡◌, Bool, true, Option, List, [], ◌∷◌, all-keep, keep, length, ◌-◌, zero, suc,
}
use px.Ledger.State.{Ledger, Config}
use px.Pending.State.{PendingPayoutLeg, PendingPayoutGroup, PendingWorld}
use px.Pending.Marks.{prune_groups, write_removed, is_retained}
use px.Queue.State.{Rail, QueueEnv, QueueWorld, QueueAction, ◌>>=◌, gets, in_the_journal}
use px.Queue.Dispatch.{Candidate}
use px.Queue.Reconcile.{reconcile_groups}
use px.Queue.Agreement.{agree, group_agrees}
use px.Queue.Keeps.{Knowledge}
use px.Prelude.Action.{Result, ok, err, continue}
use px.Prelude.{map, ◌++◌}
use px.Pending.Methods.{queued_legs}
use px.Queue.State.{QueueError, ask}
use px.Queue.Cohorts.{settle_cohorts, prune_queue_cohorts, forget_cohorts}
use px.Queue.State.{in_the_book}
use px.Queue.Parts.{Every}
use px.Queue.Network.{Known, AllKnown, flush_listed-Keeps, reconcile_groups-Keeps}
use px.Queue.Gated.{settle_cohorts-Keeps, in_the_book-Keeps}
use px.Queue.Keeps.{bind-Keeps}
use px.Queue.Windows.{
  groups_of, flush_listed, flush_window, prune_past, prune_journal, flush_network,
  reconcile_network,
}
use px.Queue.Listed.{InAgreement, AllListed, AllNamed, naming, by_Keeps}

prune_agrees :
    (cfg : Config) (s : Ledger) (persists : Write) (now : ℕ) (p : PendingWorld)
    → agree cfg s p.memory ≡ true
    → agree cfg s (prune_groups persists now p).1.memory ≡ true
unfolding prune_groups
prune_agrees cfg s persists now p h =
    go persists (length p.memory - length (keep (is_retained now) p.memory))
  where
    go :
        (persists : Write) (removed : ℕ)
        → agree cfg s (write_removed persists (keep (is_retained now) p.memory) removed p).1.memory
          ≡ true
    go persists zero = h
    go write_done (suc removed) = all-keep (group_agrees cfg s) (is_retained now) p.memory h
    go (write_failed replaced) (suc removed) =
        all-keep (group_agrees cfg s) (is_retained now) p.memory h

pub prune-InAgreement :
    (env : QueueEnv) (now : ℕ) (w : QueueWorld)
    → InAgreement env w
    → InAgreement env (in_the_journal env (λ persists. prune_groups persists now) w).1
unfolding in_the_journal
prune-InAgreement env now w h = record {
  unique = h.unique;
  agrees = prune_agrees env.config w.ledger.memory (env.persists w.tick) now w.pending h.agrees;
}

-- The legs of groups, as a pass lists them.
abbrev pub legs_in : List PendingPayoutGroup → List Candidate
legs_in [] = []
legs_in (g ∷ gs) = map (λ leg. (g, leg)) g.legs ++ legs_in gs

Every-Known :
    (env : QueueEnv) (K : Knowledge) (cs : List Candidate)
    → ((gs : List PendingPayoutGroup) → K.Known gs → AllNamed cs gs)
    → Every (Known env K) cs
Every-Known env K [] h = tt
Every-Known env K ((group, leg) ∷ cs) h =
    (λ gs k. (h gs k).0, Every-Known env K cs (λ gs k. (h gs k).1))

split_known :
    (P : Candidate → Type 0) (g : PendingPayoutGroup) (legs : List PendingPayoutLeg)
    (cs : List Candidate)
    → Every P (map (λ leg. (g, leg)) legs ++ cs)
    → Every (λ leg. P (g, leg)) legs × Every P cs
split_known P g [] cs h = (tt, h)
split_known P g (leg ∷ legs) cs (h, hs) =
    let (mine, rest) = split_known P g legs cs hs in ((h, mine), rest)

groups-Known :
    (env : QueueEnv) (K : Knowledge) (gs : List PendingPayoutGroup)
    → Every (Known env K) (legs_in gs)
    → AllKnown env K gs
groups-Known env K [] h = tt
groups-Known env K (g ∷ gs) h =
    let (mine, rest) = split_known (Known env K) g g.legs (legs_in gs) h in
    (mine, groups-Known env K gs rest)

-- Two parts, one after the other.
both-InAgreement :
    {A B : Type 0} (env : QueueEnv) (m : QueueAction A) (f : A → QueueAction B) (w : QueueWorld)
    → InAgreement env (m w).1
    → ((a : A) (v : QueueWorld) → InAgreement env v → InAgreement env (f a v).1)
    → InAgreement env ((m >>= f) w).1
unfolding ◌>>=◌
both-InAgreement {A} {B} env m f w first later = go (m w).0 (m w).1 first
  where
    go :
        (r : Result QueueError A) (v : QueueWorld)
        → InAgreement env v
        → InAgreement env (continue r f v).1
    go (ok a) v h = later a v h
    go (err e) v h = h

forget-InAgreement :
    (env : QueueEnv) (before : ℕ) (w : QueueWorld)
    → InAgreement env w
    → InAgreement env (forget_cohorts before w).1
unfolding forget_cohorts
forget-InAgreement env before w h = record { unique = h.unique; agrees = h.agrees }

ask-InAgreement :
    {A : Type 0} (env : QueueEnv) (f : ℕ → A) (w : QueueWorld)
    → InAgreement env w
    → InAgreement env (ask f w).1
unfolding ask
ask-InAgreement env f w h = record { unique = h.unique; agrees = h.agrees }

prune_past-InAgreement :
    (env : QueueEnv) (w : QueueWorld) → InAgreement env w → InAgreement env (prune_past env w).1
unfolding prune_queue_cohorts
prune_past-InAgreement env w h =
    both-InAgreement env (ask env.now) _ w (ask-InAgreement env env.now w h) (λ now v k.
      both-InAgreement env (prune_journal env _) _ v (prune-InAgreement env _ v k) (λ removed u l.
        both-InAgreement env (in_the_book env _) _ u
          (by_Keeps env [] (in_the_book env _) u (in_the_book-Keeps env (naming []) _) tt l)
          (λ gone t o. forget-InAgreement env _ t o)))

flush_window-InAgreement :
    (env : QueueEnv) (rail : Rail) (only : Option String) (w : QueueWorld)
    → AllListed w (queued_legs rail.network w.pending.memory)
    → InAgreement env w
    → InAgreement env (flush_window env rail only w).1
unfolding flush_window ◌>>=◌ gets
flush_window-InAgreement env rail only w listed h =
    let gs = w.pending.memory in
    let cs = queued_legs rail.network gs in
    by_Keeps env cs (flush_listed env rail only gs) w
      (flush_listed-Keeps env (naming cs) rail only gs (Every-Known env (naming cs) cs (λ gs k. k)))
      listed h

pub flush_network-InAgreement :
    (env : QueueEnv) (rail : Rail) (only : Option String) (w : QueueWorld)
    → AllListed w (queued_legs rail.network w.pending.memory)
    → InAgreement env w
    → InAgreement env (flush_network env rail only w).1
unfolding flush_network
flush_network-InAgreement env rail only w listed h =
    both-InAgreement env (flush_window env rail only) _ w
      (flush_window-InAgreement env rail only w listed h) (λ u v k. prune_past-InAgreement env v k)

pub reconcile_network-InAgreement :
    (env : QueueEnv) (rail : Rail) (recovery_write : Bool) (w : QueueWorld)
    → AllListed w (legs_in (groups_of rail.network w.pending.memory))
    → InAgreement env w
    → InAgreement env (reconcile_network env rail recovery_write w).1
unfolding reconcile_network ◌>>=◌ gets
reconcile_network-InAgreement env rail recovery_write w listed h =
    let gs = groups_of rail.network w.pending.memory in
    let cs = legs_in gs in
    let K = naming cs in
    by_Keeps env cs
      (reconcile_groups env rail gs recovery_write >>= λ u. settle_cohorts env rail.network) w
      (bind-Keeps env K _ _
        (reconcile_groups-Keeps env K rail gs recovery_write
          (groups-Known env K gs (Every-Known env K cs (λ gs k. k))))
        (λ u. settle_cohorts-Keeps env K rail.network))
      listed h
