-- ===== src/Queue/Windows.antt =====
-- `flushNetwork` and `reconcileNetwork` as a whole. The rail is that of the network. A time before
-- `claimTtlMs` would make the horizon negative; it is 0 here.
use px.Prelude.{
  ℕ, ◌-◌, String, Bool, true, false, not, ◌&&◌, Option, none, some, List, [], ◌∷◌, keep, is_some,
  if◌then◌else◌,
}
use px.Prelude.Text.{str_eq}
use px.Pending.State.{PendingPayoutGroup}
use px.Pending.Methods.{queued_legs}
use px.Pending.Marks.{prune_groups}
use px.Queue.State.{◌>>=◌, ◌>>◌, pure, gets, ask, in_the_journal, Rail, QueueEnv, QueueAction}
use px.Queue.Verdicts.{derive_group_state}
use px.Queue.Flush.{flush_leg, is_solana}
use px.Queue.Dispatch.{Candidate, dispatch_legs}
use px.Queue.Reconcile.{reconcile_groups}
use px.Queue.Cohorts.{settle_cohorts, prune_queue_cohorts}
use px.Queue.Shuffle.{shuffle_items}
use px.Queue.Gate.{apply_concentration_gate, is_nothing}

abbrev pub is_of : Option String → Candidate → Bool
is_of none c = true
is_of (some ref) (group, leg) = str_eq group.group_ref ref

abbrev pub groups_of : String → List PendingPayoutGroup → List PendingPayoutGroup
groups_of network gs = keep (λ g. str_eq g.network network) gs

-- A flush of one group passes the gate by.
abbrev pub releasable :
    QueueEnv → String → Option String → List Candidate → QueueAction (List Candidate)
releasable env network only [] = pure []
releasable env network only (c ∷ candidates) =
    if env.gate.enabled && not (is_some only)
    then apply_concentration_gate env network (c ∷ candidates)
    else pure (c ∷ candidates)

unfoldable pub flush_each : QueueEnv → Rail → List Candidate → QueueAction (Unit {0})
flush_each env rail [] = pure tt
flush_each env rail ((group, leg) ∷ candidates) = do
  flush_leg env rail group leg
  flush_each env rail candidates

abbrev pub sends_waves : Rail → Option String → Bool
sends_waves rail only = not (is_solana rail.kind) && rail.onchain && not (is_some only)

abbrev pub send_wave_of : QueueEnv → Rail → List Candidate → QueueAction (Unit {0})
send_wave_of env rail candidates = do dispatch_legs env rail candidates; pure tt

abbrev pub send_released : QueueEnv → Rail → Option String → List Candidate → QueueAction (Unit {0})
send_released env rail only released =
    if sends_waves rail only && not (is_nothing released)
    then send_wave_of env rail released
    else flush_each env rail released

-- The part that a quarantined rail skips.
abbrev pub flush_unparked :
    QueueEnv → Rail → Option String → List Candidate → Bool → QueueAction (Unit {0})
flush_unparked env rail only candidates true = pure tt
flush_unparked env rail only candidates false = do
  released ← releasable env rail.network only candidates
  send_released env rail only released

unfoldable pub derive_all : QueueEnv → List PendingPayoutGroup → QueueAction (Unit {0})
derive_all env [] = pure tt
derive_all env (g ∷ gs) = do derive_group_state env g.group_ref; derive_all env gs

abbrev pub prune_journal : QueueEnv → ℕ → QueueAction ℕ
prune_journal env horizon = in_the_journal env (λ persists. prune_groups persists horizon)

-- The part that goes on with the legs as they were listed when the flush began.
abbrev pub flush_listed :
    QueueEnv → Rail → Option String → List PendingPayoutGroup → QueueAction (Unit {0})
flush_listed env rail only gs = do
  draws ← ask env.draws
  parked ← ask rail.quarantined
  flush_unparked env rail only
      (shuffle_items draws (keep (is_of only) (queued_legs rail.network gs))) parked
  after ← gets (λ w. w.pending.memory)
  derive_all env (groups_of rail.network after)
  settle_cohorts env rail.network

unfoldable pub flush_window : QueueEnv → Rail → Option String → QueueAction (Unit {0})
flush_window env rail only = do gs ← gets (λ w. w.pending.memory); flush_listed env rail only gs

abbrev pub prune_past : QueueEnv → QueueAction (Unit {0})
prune_past env = do
  now ← ask env.now
  prune_journal env (now - env.gate.claim_ttl_ms)
  prune_queue_cohorts env (now - env.gate.claim_ttl_ms)

-- `flushNetwork`
unfoldable pub flush_network : QueueEnv → Rail → Option String → QueueAction (Unit {0})
flush_network env rail only = do flush_window env rail only; prune_past env

-- `reconcileNetwork`
unfoldable pub reconcile_network : QueueEnv → Rail → Bool → QueueAction (Unit {0})
reconcile_network env rail recovery_write = do
  gs ← gets (λ w. w.pending.memory)
  reconcile_groups env rail (groups_of rail.network gs) recovery_write
  settle_cohorts env rail.network
