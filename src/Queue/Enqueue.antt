-- ===== src/Queue/Enqueue.antt =====
-- `enqueueGroup`: the legs of a payout group enter the journal.
use px.Prelude.{
  ℕ, ◌+◌, String, Bool, true, false, ◌||◌, ◌==◌, Option, none, some, List, [], ◌∷◌, any,
}
use px.Prelude.Int.{ℤ, pos, leb_ℤ}
use px.Prelude.Text.{str_eq}
use px.Pending.State.{LegState, GroupState, Strategy, PendingPayoutLeg, PendingPayoutGroup}
use px.Pending.Methods.{by_ref, put_group}
use px.Queue.State.{
  binds, not_configured, no_legs_given, duplicate_legs, amount_not_positive, QueueEnv, QueueAction,
  ◌>>=◌, ◌>>◌, pure, throw, gets, throw_if, ask, tell, in_the_journal, normalize_asset,
}

pub record PoolPayoutLegInput : Type 0 where
  pub index : ℕ
  pub payout_ref : String
  pub recipient : String
  pub amount_atomic : ℤ
  pub ephemeral_pub_key : Option String
  pub denomination_atomic : Option String

-- `offchainChange` is `null` by its type, and has no field here.
pub record EnqueueGroupInput : Type 0 where
  pub group_ref : String
  pub owner_tag : String
  pub network : String
  pub asset : String
  pub strategy : Strategy
  pub plan_hash : String
  pub payer_balance_atomic : ℤ
  pub legs : List PoolPayoutLegInput
  pub max_hold_ms : Option ℕ

pub record QueuedGroupReceipt : Type 0 where
  pub group_ref : String
  pub network : String
  pub strategy : Strategy
  pub legs : List PoolPayoutLegInput
  pub payer_balance_atomic : ℤ
  pub estimated_submit_before_ms : ℕ

abbrev pub queued_leg : (PoolPayoutLegInput → String) → PoolPayoutLegInput → PendingPayoutLeg
queued_leg logical_id leg = record {
  index = leg.index;
  payout_ref = leg.payout_ref;
  recipient = leg.recipient;
  amount_atomic = leg.amount_atomic;
  ephemeral_pub_key = leg.ephemeral_pub_key;
  denomination_atomic = leg.denomination_atomic;
  state = LegState.queued;
  attempts = 0;
  logical_id = logical_id leg;
  gen = 0;
  signed_tx = none;
  tx_id = none;
  nonce = none;
  last_valid_block_height = none;
  context_slot = none;
  chain_status = none;
  mode = none;
  transaction_hash = none;
  terminal_at = none;
  broadcast_at = none;
  landed_block = none;
}

-- The loop over the legs, with the sets of indexes and references that it fills. `logical_id` is
-- `poolPayoutLogicalId` for the rail of the group.
unfoldable pub queue_legs :
    (PoolPayoutLegInput → String)
    → List ℕ
    → List String
    → List PoolPayoutLegInput
    → QueueAction (List PendingPayoutLeg)
queue_legs logical_id indexes refs [] = pure []
queue_legs logical_id indexes refs (leg ∷ legs) = do
  throw_if (any (λ i. leg.index == i) indexes || any (str_eq leg.payout_ref) refs) duplicate_legs
  throw_if (leb_ℤ leg.amount_atomic (pos 0)) amount_not_positive
  tell (binds (logical_id leg) leg.payout_ref)
  rest ← queue_legs logical_id (leg.index ∷ indexes) (leg.payout_ref ∷ refs) legs
  pure (queued_leg logical_id leg ∷ rest)

abbrev pub is_no_input : List PoolPayoutLegInput → Bool
is_no_input [] = true
is_no_input (_ ∷ _) = false

abbrev pub queued_group : EnqueueGroupInput → List PendingPayoutLeg → ℕ → PendingPayoutGroup
queued_group input legs now = record {
  group_ref = input.group_ref;
  owner_tag = input.owner_tag;
  network = input.network;
  asset = normalize_asset input.network input.asset;
  strategy = input.strategy;
  plan_hash = input.plan_hash;
  legs = legs;
  group_state = GroupState.queued;
  created_at = now;
  terminal_at = none;
  max_hold_ms = input.max_hold_ms;
  evidence_counted_at = none;
}

-- `queuedReceipt`, with the time that a flush takes at most to begin.
abbrev pub queued_receipt : QueueEnv → ℕ → EnqueueGroupInput → QueueAction QueuedGroupReceipt
queued_receipt env delay input = do
  now ← ask env.now
  pure (record {
    group_ref = input.group_ref;
    network = input.network;
    strategy = input.strategy;
    legs = input.legs;
    payer_balance_atomic = input.payer_balance_atomic;
    estimated_submit_before_ms = now + delay;
  })

abbrev pub enqueue_new :
    QueueEnv
    → (PoolPayoutLegInput → String)
    → ℕ
    → EnqueueGroupInput
    → QueueAction QueuedGroupReceipt
enqueue_new env logical_id delay input = do
  legs ← queue_legs logical_id [] [] input.legs
  now ← ask env.now
  in_the_journal env (λ persists. put_group persists (queued_group input legs now))
  queued_receipt env delay input

abbrev pub enqueue_found :
    QueueEnv
    → Option (PoolPayoutLegInput → String)
    → ℕ
    → EnqueueGroupInput
    → Option PendingPayoutGroup
    → QueueAction QueuedGroupReceipt
enqueue_found env rail delay input (some existing) = queued_receipt env delay input
enqueue_found env none delay input none = throw not_configured
enqueue_found env (some logical_id) delay input none = enqueue_new env logical_id delay input

-- `enqueueGroup`: a group that is there already is answered as if it were new. `rail` is absent when
-- no rail is configured for the network; `delay` is `flushMs + maxJitterMs`.
unfoldable pub enqueue_group :
    QueueEnv
    → Option (PoolPayoutLegInput → String)
    → ℕ
    → EnqueueGroupInput
    → QueueAction QueuedGroupReceipt
enqueue_group env rail delay input = do
  throw_if (is_no_input input.legs) no_legs_given
  gs ← gets (λ w. w.pending.memory)
  enqueue_found env rail delay input (by_ref input.group_ref gs)
