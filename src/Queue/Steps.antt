-- ===== src/Queue/Steps.antt =====
-- The steps of the queue, in any order, and what they never break.
use px.Prelude.{
  ℕ, String, ◌≡◌, refl, Bool, ◌&&◌, ◌==◌, Option, none, some, List, [], ◌∷◌, find, find-holds,
  ==_iff,
}
use px.Prelude.Text.{str_eq_iff}
use px.Pending.State.{PendingPayoutLeg, PendingPayoutGroup}
use px.Pending.Methods.{by_ref, has_ref, has_index}
use px.Pending.Marks.{prune_groups}
use px.Pending.Grows.{Named, leg_at}
use px.Queue.State.{
  Rail, QueueEnv, QueueWorld, QueueAction, ◌>>=◌, pure, throw, gets, in_the_journal, in_the_ledger,
}
use px.Queue.Verdicts.{derive_group_state}
use px.Queue.Flush.{flush_leg}
use px.Queue.Dispatch.{Candidate, dispatch_legs, require_leg, found_leg, leg_in}
use px.Queue.Reconcile.{reconcile_leg}
use px.Queue.Resolve.{Disposition, Resolution, dispose_leg, dispose_current, is_uncertain_state}
use px.Queue.Enqueue.{PoolPayoutLegInput, EnqueueGroupInput, enqueue_group}
use px.Queue.Agreement.{agree-Follows}
use px.Queue.Enters.{enqueue_group-Keeps}
use px.Queue.Moves.{reverse_orphan_payouts-Follows}
use px.Ledger.Reversals.{reverse_orphan_payouts}
use px.Queue.Settles.{derive_group_state-Keeps}
use px.Queue.Blocks.{flush_leg-Keeps}
use px.Queue.Outcomes.{dispatch_legs-Keeps}
use px.Queue.Passes.{reconcile_leg-Keeps, dispose_current-Keeps}
use px.Pending.Methods.{queued_legs}
use px.Queue.Windows.{groups_of, flush_network, reconcile_network}
use px.Queue.Listed.{InAgreement, IsListed, AllListed, naming, all_picked, by_Keeps}
use px.Queue.Whole.{
  prune-InAgreement, legs_in, flush_network-InAgreement, reconcile_network-InAgreement,
}

renamed :
    (a b : String) (i j : ℕ) (gs : List PendingPayoutGroup) (l : PendingPayoutLeg)
    → a ≡ b
    → i ≡ j
    → leg_at b j gs ≡ some l
    → leg_at a i gs ≡ some l
renamed a b i j gs l p q h = rw (p, q) h

found_listed :
    (group_ref : String) (index : ℕ) (g : PendingPayoutGroup) (l : PendingPayoutLeg)
    (gs : List PendingPayoutGroup)
    → by_ref group_ref gs ≡ some g
    → find (has_index index) g.legs ≡ some l
    → Named g.group_ref l.index l.payout_ref gs
found_listed group_ref index g l gs e f =
    let groups = (str_eq_iff g.group_ref group_ref).0 (find-holds (has_ref group_ref) gs g e) in
    let indexes = (==_iff l.index index).0 (find-holds (has_index index) g.legs l f) in
    (l, renamed g.group_ref group_ref l.index index gs l groups indexes (rw (e, f) refl), refl)

dispose_leg-InAgreement :
    (env : QueueEnv) (group_ref : String) (index gen : ℕ) (disposition : Disposition)
    (w : QueueWorld)
    → InAgreement env w
    → InAgreement env (dispose_leg env group_ref index gen disposition w).1
unfolding dispose_leg require_leg ◌>>=◌ gets pure throw
dispose_leg-InAgreement env group_ref index gen disposition w h =
    go (by_ref group_ref w.pending.memory) refl
  where
    rest : Candidate → QueueAction Resolution
    rest c =
        dispose_current env gen disposition c.0 c.1
          ((c.1).gen == gen && is_uncertain_state (c.1).state)

    leg_there :
        (g : PendingPayoutGroup) (found : Option PendingPayoutLeg)
        → by_ref group_ref w.pending.memory ≡ some g
        → find (has_index index) g.legs ≡ found
        → InAgreement env ((found_leg (some g) found >>= rest) w).1
    leg_there g none e f = h
    leg_there g (some l) e f =
        by_Keeps env ((g, l) ∷ []) (rest (g, l)) w
          (dispose_current-Keeps env (naming ((g, l) ∷ [])) g l (λ gs k. k.0) gen disposition
            (l.gen == gen && is_uncertain_state l.state))
          (found_listed group_ref index g l w.pending.memory e f, tt) h

    go :
        (found : Option PendingPayoutGroup)
        → by_ref group_ref w.pending.memory ≡ found
        → InAgreement env ((found_leg found (leg_in found index) >>= rest) w).1
    go none e = h
    go (some g) e = leg_there g (find (has_index index) g.legs) e refl

-- What the queue does, one step at a time: as a flush, a reconcile pass and an operator do it leg by
-- leg under the lock of a network, and as groups come and go. A flush, a wave and a pass go on with
-- legs as they were listed, and the rails may answer anything.
pub data QueueStep (env : QueueEnv) : QueueWorld → QueueWorld → Type 0 where
  enqueues :
      (rail : Option (PoolPayoutLegInput → String)) (delay : ℕ) (input : EnqueueGroupInput)
      (w : QueueWorld)
      → QueueStep env w (enqueue_group env rail delay input w).1
  flushes :
      (rail : Rail) (group : PendingPayoutGroup) (leg : PendingPayoutLeg) (w : QueueWorld)
      → IsListed w (group, leg)
      → QueueStep env w (flush_leg env rail group leg w).1
  dispatches :
      (rail : Rail) (candidates : List Candidate) (w : QueueWorld)
      → AllListed w candidates
      → QueueStep env w (dispatch_legs env rail candidates w).1
  reconciles :
      (rail : Rail) (group : PendingPayoutGroup) (leg : PendingPayoutLeg) (recovery_write : Bool)
      (w : QueueWorld)
      → IsListed w (group, leg)
      → QueueStep env w (reconcile_leg env rail group leg recovery_write w).1
  disposes :
      (group_ref : String) (index gen : ℕ) (disposition : Disposition) (w : QueueWorld)
      → QueueStep env w (dispose_leg env group_ref index gen disposition w).1
  derives :
      (group_ref : String) (w : QueueWorld) → QueueStep env w (derive_group_state env group_ref w).1
  prunes :
      (now : ℕ) (w : QueueWorld)
      → QueueStep env w (in_the_journal env (λ persists. prune_groups persists now) w).1
  flushes_network :
      (rail : Rail) (only : Option String) (w : QueueWorld)
      → AllListed w (queued_legs rail.network w.pending.memory)
      → QueueStep env w (flush_network env rail only w).1
  reconciles_network :
      (rail : Rail) (recovery_write : Bool) (w : QueueWorld)
      → AllListed w (legs_in (groups_of rail.network w.pending.memory))
      → QueueStep env w (reconcile_network env rail recovery_write w).1
  reverses_orphans :
      (known : List String) (w : QueueWorld)
      → QueueStep env w (in_the_ledger env (λ e. reverse_orphan_payouts env.config e known) w).1

pub data Reaches (env : QueueEnv) (w : QueueWorld) : QueueWorld → Type 0 where
  here : Reaches env w w
  next : {v u : QueueWorld} → Reaches env w v → QueueStep env v u → Reaches env w u

orphans-InAgreement :
    (env : QueueEnv) (known : List String) (w : QueueWorld)
    → InAgreement env w
    → InAgreement env (in_the_ledger env (λ e. reverse_orphan_payouts env.config e known) w).1
unfolding in_the_ledger
orphans-InAgreement env known w h =
    let l = (reverse_orphan_payouts env.config (env.ledger w.tick) known w.ledger).1 in
    let follows = reverse_orphan_payouts-Follows env.config (env.ledger w.tick) known w.ledger in
    record {
      unique = λ r. follows.unique_stays r (h.unique r);
      agrees = agree-Follows env.config w.ledger.memory l.memory w.pending.memory follows h.agrees;
    }

pub QueueStep-InAgreement :
    (env : QueueEnv) {w v : QueueWorld} → QueueStep env w v → InAgreement env w → InAgreement env v
QueueStep-InAgreement env (enqueues rail delay input w) h =
    by_Keeps env [] (enqueue_group env rail delay input) w
      (enqueue_group-Keeps env (naming []) rail delay input) tt h
QueueStep-InAgreement env (flushes rail group leg w listed) h =
    let cs = (group, leg) ∷ [] in
    by_Keeps env cs (flush_leg env rail group leg) w
      (flush_leg-Keeps env (naming cs) group leg (λ gs k. k.0) rail) (listed, tt) h
QueueStep-InAgreement env (dispatches rail candidates w listed) h =
    by_Keeps env candidates (dispatch_legs env rail candidates) w
      (dispatch_legs-Keeps env (naming candidates) rail candidates
        (all_picked env (naming candidates) candidates (λ gs k. k)))
      listed h
QueueStep-InAgreement env (reconciles rail group leg recovery_write w listed) h =
    let cs = (group, leg) ∷ [] in
    by_Keeps env cs (reconcile_leg env rail group leg recovery_write) w
      (reconcile_leg-Keeps env (naming cs) group leg (λ gs k. k.0) rail recovery_write) (listed, tt)
      h
QueueStep-InAgreement env (disposes group_ref index gen disposition w) h =
    dispose_leg-InAgreement env group_ref index gen disposition w h
QueueStep-InAgreement env (derives group_ref w) h =
    by_Keeps env [] (derive_group_state env group_ref) w
      (derive_group_state-Keeps env (naming []) group_ref) tt h
QueueStep-InAgreement env (prunes now w) h = prune-InAgreement env now w h
QueueStep-InAgreement env (flushes_network rail only w listed) h =
    flush_network-InAgreement env rail only w listed h
QueueStep-InAgreement env (reconciles_network rail recovery_write w listed) h =
    reconcile_network-InAgreement env rail recovery_write w listed h
QueueStep-InAgreement env (reverses_orphans known w) h = orphans-InAgreement env known w h

-- Journal and ledger stay in agreement: from a world in which each payout reference stands at most
-- once in the ledger, every settled leg's payout is settled in the ledger and every failed leg's
-- payout is gone from it, any steps of the queue lead to such a world, whatever the rails answer and
-- whatever calls and writes fail. A step on legs goes on with legs that the journal has under their
-- group and index, with their payout.
pub Reaches-InAgreement :
    (env : QueueEnv) {w v : QueueWorld} → Reaches env w v → InAgreement env w → InAgreement env v
Reaches-InAgreement env here h = h
Reaches-InAgreement env (next path step) h =
    QueueStep-InAgreement env step (Reaches-InAgreement env path h)
