-- ===== src/Pending/Tests.antt =====
-- The theorems on the pending payout journal at a sample group of one leg.
use px.Prelude.Action.{Write, write_done, write_failed}
use px.Prelude.{◌≡◌, refl, true, false, none, some, List, [], ◌∷◌}
use px.Prelude.Int.{pos}
use px.Prelude.Action.{ok}
use px.Pending.State.{
  LegState, GroupState, Strategy, PendingPayoutLeg, PendingPayoutGroup, LegPatch, no_patch,
  apply_patch, PendingWorld, check_groups, check_legs,
}
use px.Pending.Methods.{update_leg, known_refs, put_group}
use px.Pending.Marks.{prune_groups}
use px.Pending.Calls.{PendingCall, puts, updates, marks, prunes, pending_run, pending_step}
use px.Pending.Valid.{distinct_refs}
use px.Pending.Refs.{pending_run-distinct_refs}
use px.Pending.Once.{update_leg-once}

abbrev leg : PendingPayoutLeg
leg = record {
  index = 0;
  payout_ref = "ref-0";
  recipient = "r";
  amount_atomic = pos 5;
  ephemeral_pub_key = none;
  denomination_atomic = none;
  state = LegState.queued;
  attempts = 0;
  logical_id = "l";
  gen = 0;
  signed_tx = none;
  tx_id = none;
  nonce = none;
  last_valid_block_height = none;
  context_slot = none;
  chain_status = none;
  mode = none;
  transaction_hash = none;
  terminal_at = none;
  broadcast_at = none;
  landed_block = none;
}

abbrev group : PendingPayoutGroup
group = record {
  group_ref = "g";
  owner_tag = "acct_a";
  network = "base";
  asset = "0xa";
  strategy = Strategy.single;
  plan_hash = "0x1";
  legs = leg ∷ [];
  group_state = GroupState.queued;
  created_at = 0;
  terminal_at = none;
  max_hold_ms = none;
  evidence_counted_at = none;
}

abbrev other_group : PendingPayoutGroup
other_group = record group { group_ref = "h"; legs = record leg { payout_ref = "ref-1" } ∷ [] }

abbrev start : PendingWorld
start = record { memory = group ∷ []; disk = group ∷ [] }

abbrev broadcasting : LegPatch
broadcasting = record no_patch { state = some LegState.broadcasting; attempts = some 1 }

-- A second group of the same reference is refused, one of another is put, a write fails.
abbrev calls : List (Write × PendingCall)
calls =
    (write_done, puts (record group { group_ref = "h" }))
    ∷ (write_done, puts other_group)
    ∷ (write_done, updates "g" 0 broadcasting (some 0))
    ∷ (write_failed true, prunes 9)
    ∷ []

start_passes : check_groups [] (group ∷ []) ≡ ok ("ref-0" ∷ [])
unfolding check_groups check_legs
start_passes = refl

pending_run-distinct_refs_example :
    (distinct_refs (known_refs (pending_run calls start).memory) ≡ true)
    × (distinct_refs (known_refs (pending_run calls start).disk) ≡ true)
pending_run-distinct_refs_example =
    pending_run-distinct_refs calls start
      (("ref-0" ∷ [], start_passes), ("ref-0" ∷ [], start_passes))

put_refused : known_refs (pending_run calls start).memory ≡ "ref-0" ∷ "ref-1" ∷ []
unfolding pending_run pending_step put_group update_leg prune_groups check_groups check_legs
    apply_patch
put_refused = refl

first_claims : (update_leg write_done "g" 0 broadcasting (some 0) start).0 ≡ ok true
unfolding update_leg check_groups check_legs apply_patch
first_claims = refl

update_leg-once_example :
    (let later =
        pending_run
          ((write_done, marks ("g" ∷ []) 4) ∷ [])
          (update_leg write_done "g" 0 broadcasting (some 0) start).1 in
      update_leg write_done "g" 0 broadcasting (some 0) later ≡ (ok false, later))
update_leg-once_example =
    update_leg-once write_done "g" 0 broadcasting 0 start ((write_done, marks ("g" ∷ []) 4) ∷ [])
      write_done broadcasting first_claims refl
