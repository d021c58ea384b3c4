-- ===== src/Queue/Network.antt =====
-- A flush and a reconcile pass of a whole network keep journal and ledger in agreement.
use px.Prelude.{String, Bool, true, false, not, ◌&&◌, Option, List, [], ◌∷◌, is_some, if◌then◌else◌}
use px.Pending.State.{PendingPayoutLeg, PendingPayoutGroup}
use px.Pending.Methods.{queued_legs}
use px.Queue.State.{Rail, QueueEnv, pure}
use px.Queue.Dispatch.{Candidate}
use px.Queue.Reconcile.{reconcile_legs, reconcile_groups}
use px.Queue.Keeps.{Knowledge, Keeps, bind-Keeps, pure-Keeps, gets-Keeps, ask-Keeps, if-Keeps}
use px.Queue.Blocks.{Picks, flush_leg-Keeps}
use px.Queue.Settles.{derive_group_state-Keeps}
use px.Queue.Waves.{AllPicked, Returns, pure-Returns, bind_knowing-Keeps}
use px.Queue.Outcomes.{dispatch_legs-Keeps}
use px.Queue.Passes.{reconcile_leg-Keeps}
use px.Queue.Parts.{Every, Every-keep, Every-shuffle_from}
use px.Queue.Gate.{apply_concentration_gate}
use px.Queue.Gated.{settle_cohorts-Keeps, apply_concentration_gate-Keeps}
use px.Queue.Leaving.{apply_concentration_gate-Returns}
use px.Queue.Windows.{
  is_of, groups_of, releasable, flush_each, send_released, flush_unparked, derive_all, flush_listed,
}

module _ (env : QueueEnv) (K : Knowledge) where
  -- The knowledge names a candidate's leg.
  abbrev pub Known : Candidate → Type 0
  Known (group, leg) = Picks K group leg

  all-Known : (cs : List Candidate) → Every Known cs → AllPicked env K cs
  all-Known [] h = tt
  all-Known ((group, leg) ∷ cs) (h, hs) = (h, all-Known cs hs)

  releasable-Keeps :
      (network : String) (only : Option String) (cs : List Candidate)
      → Keeps env K (releasable env network only cs)
  releasable-Keeps network only [] = pure-Keeps env K []
  releasable-Keeps network only (c ∷ cs) =
      if-Keeps env K _ _ _ (apply_concentration_gate-Keeps env K network (c ∷ cs))
        (pure-Keeps env K (c ∷ cs))

  releasable-Returns :
      (network : String) (only : Option String) (cs : List Candidate)
      → Every Known cs
      → Returns (Every Known) (releasable env network only cs)
  releasable-Returns network only [] h = pure-Returns (Every Known) [] tt
  releasable-Returns network only (c ∷ cs) h = go (env.gate.enabled && not (is_some only))
    where
      go :
          (b : Bool)
          → Returns
              (Every Known)
              (if b then apply_concentration_gate env network (c ∷ cs) else pure (c ∷ cs))
      go true = apply_concentration_gate-Returns Known env network (c ∷ cs) h
      go false = pure-Returns (Every Known) (c ∷ cs) h

  flush_each-Keeps :
      (rail : Rail) (cs : List Candidate) → Every Known cs → Keeps env K (flush_each env rail cs)
  unfolding flush_each
  flush_each-Keeps rail [] h = pure-Keeps env K tt
  flush_each-Keeps rail ((group, leg) ∷ cs) (h, hs) =
      bind-Keeps env K _ _ (flush_leg-Keeps env K group leg h rail)
        (λ u. flush_each-Keeps rail cs hs)

  send_released-Keeps :
      (rail : Rail) (only : Option String) (cs : List Candidate)
      → Every Known cs
      → Keeps env K (send_released env rail only cs)
  send_released-Keeps rail only cs h =
      if-Keeps env K _ _ _
        (bind-Keeps env K _ _ (dispatch_legs-Keeps env K rail cs (all-Known cs h))
          (λ u. pure-Keeps env K tt))
        (flush_each-Keeps rail cs h)

  flush_unparked-Keeps :
      (rail : Rail) (only : Option String) (cs : List Candidate) (parked : Bool)
      → Every Known cs
      → Keeps env K (flush_unparked env rail only cs parked)
  flush_unparked-Keeps rail only cs true h = pure-Keeps env K tt
  flush_unparked-Keeps rail only cs false h =
      bind_knowing-Keeps env K (Every Known) _ _ (releasable-Keeps rail.network only cs)
        (releasable-Returns rail.network only cs h)
        (λ released k. send_released-Keeps rail only released k)

  derive_all-Keeps : (gs : List PendingPayoutGroup) → Keeps env K (derive_all env gs)
  unfolding derive_all
  derive_all-Keeps [] = pure-Keeps env K tt
  derive_all-Keeps (g ∷ gs) =
      bind-Keeps env K _ _ (derive_group_state-Keeps env K g.group_ref) (λ u. derive_all-Keeps gs)

  pub flush_listed-Keeps :
      (rail : Rail) (only : Option String) (gs : List PendingPayoutGroup)
      → Every Known (queued_legs rail.network gs)
      → Keeps env K (flush_listed env rail only gs)
  flush_listed-Keeps rail only gs h = bind-Keeps env K _ _ (ask-Keeps env K _) (λ draws.
      bind-Keeps env K _ _ (ask-Keeps env K _) (λ parked.
        bind-Keeps env K _ _
          (flush_unparked-Keeps rail only _ parked (
            Every-shuffle_from Known draws 0 _ _
              (Every-keep Known (is_of only) (queued_legs rail.network gs) h)))
          (λ u. bind-Keeps env K _ _ (gets-Keeps env K _) (λ after.
            bind-Keeps env K _ _ (derive_all-Keeps (groups_of rail.network after))
              (λ v. settle_cohorts-Keeps env K rail.network)))))

  reconcile_legs-Keeps :
      (rail : Rail) (g : PendingPayoutGroup) (legs : List PendingPayoutLeg) (recovery_write : Bool)
      → Every (λ leg. Known (g, leg)) legs
      → Keeps env K (reconcile_legs env rail g legs recovery_write)
  unfolding reconcile_legs
  reconcile_legs-Keeps rail g [] recovery_write h = pure-Keeps env K tt
  reconcile_legs-Keeps rail g (leg ∷ legs) recovery_write (h, hs) =
      bind-Keeps env K _ _ (reconcile_leg-Keeps env K g leg h rail recovery_write)
        (λ u. reconcile_legs-Keeps rail g legs recovery_write hs)

  abbrev pub AllKnown : List PendingPayoutGroup → Type 0
  AllKnown gs = Every (λ g. Every (λ leg. Known (g, leg)) g.legs) gs

  pub reconcile_groups-Keeps :
      (rail : Rail) (gs : List PendingPayoutGroup) (recovery_write : Bool)
      → AllKnown gs
      → Keeps env K (reconcile_groups env rail gs recovery_write)
  unfolding reconcile_groups
  reconcile_groups-Keeps rail [] recovery_write h = pure-Keeps env K tt
  reconcile_groups-Keeps rail (g ∷ gs) recovery_write (h, hs) =
      bind-Keeps env K _ _ (reconcile_legs-Keeps rail g g.legs recovery_write h) (λ u.
        bind-Keeps env K _ _ (derive_group_state-Keeps env K g.group_ref)
          (λ v. reconcile_groups-Keeps rail gs recovery_write hs))
