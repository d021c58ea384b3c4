-- ===== src/Queue/Tests.antt =====
-- The queue at a payout of one leg, on a rail that settles at once and on one that loses it.
mod Windows
use px.Prelude.Action.{Write, write_done, write_failed, on_disk}
use px.Prelude.{◌≡◌, refl, Bool, true, false, none, some, List, [], ◌∷◌, map, Bool-cases, inl, inr}
use px.Prelude.Int.{pos, ◌+ℤ◌, ◌-ℤ◌}
use px.Prelude.Dict.{insert, lookup}
use px.Prelude.Text.{to_lower}
use px.Prelude.Action.{ok, err}
use px.Journal.State.{payout, empty_journal}
use px.Ledger.State.{Ledger, LedgerTransfer, empty_ledger, hash, account_id}
use px.Ledger.Payouts.{payout_auth, is_payout_of, mark_payout_settled, record_settlement}
use px.Ledger.Reversals.{find_payout_transfer, reverse_payout, reversed}
use px.Ledger.Accounts.{set_balance, set_balance_by_ref, balance, balance_by_ref, total_balance}
use px.Ledger.Samples.{sample_config, sample_env}
use px.Pending.State.{
  LegState, GroupState, Strategy, PayoutMode, PendingPayoutLeg, PendingPayoutGroup, apply_patch,
  check_groups, check_legs,
}
use px.Pending.Methods.{update_leg}
use px.Pending.Grows.{leg_at}
use px.Queue.State.{
  GateOptions, evm, terminal_absent, uncertain, rail_failed, PreparedPayout, Rail, QueueEnv,
  QueueWorld, in_the_ledger, in_the_journal, ask, ask_rail, tell, catch, ◌>>=◌, pure, throw, gets,
  group_asset_key, normalize_asset,
}
use px.Queue.Verdicts.{settle_prepared, apply_verdict}
use px.Queue.Flush.{flush_leg}
use px.Queue.Reconcile.{reconcile_leg}
use px.Queue.Standing.{once}
use px.Queue.Listed.{InAgreement}
use px.Queue.Steps.{flushes, reconciles, here, next, Reaches-InAgreement}

abbrev pub leg : PendingPayoutLeg
leg = record {
  index = 0;
  payout_ref = "ref-0";
  recipient = "r";
  amount_atomic = pos 5;
  ephemeral_pub_key = none;
  denomination_atomic = none;
  state = LegState.queued;
  attempts = 0;
  logical_id = "l";
  gen = 0;
  signed_tx = none;
  tx_id = none;
  nonce = none;
  last_valid_block_height = none;
  context_slot = none;
  chain_status = none;
  mode = none;
  transaction_hash = none;
  terminal_at = none;
  broadcast_at = none;
  landed_block = none;
}

abbrev pub group : PendingPayoutGroup
group = record {
  group_ref = "g";
  owner_tag = "acct_a";
  network = "base";
  asset = "0xa";
  strategy = Strategy.single;
  plan_hash = "0x1";
  legs = leg ∷ [];
  group_state = GroupState.queued;
  created_at = 0;
  terminal_at = none;
  max_hold_ms = none;
  evidence_counted_at = none;
}

abbrev reservation : LedgerTransfer
reservation = record {
  id = "payout-1";
  source = payout;
  asset = "base:0xa";
  authorization_hash = payout_auth sample_config "ref-0";
  commitment = "0x";
  accepted_at = 0;
  epoch_id = "e";
  batch_id = none;
  transaction_hash = none;
  settled_at = none;
  reversal_account_ref = some "acct_a";
  reversal_amount_atomic = some (pos 5);
  plan_hash = some "0x1";
  reservation_binding = none;
  payout_ref = some "ref-0";
}

abbrev reserved : Ledger
reserved = record empty_ledger { transfers = reservation ∷ [] }

abbrev pub start : QueueWorld
start = record {
  ledger = record { memory = reserved; disk = reserved; journal = empty_journal };
  pending = record { memory = group ∷ []; disk = group ∷ [] };
  cohorts = record { memory = []; disk = [] };
  cohorts_by_id = [];
  samples = [];
  k_eff_samples = [];
  rail_calls = [];
  tick = 0;
}

abbrev sample_gate : GateOptions
sample_gate = record {
  enabled = true;
  k_eff_target = 2;
  max_hold_ms = 100;
  adaptive = false;
  ceiling = 4;
  window_ms = 1000;
  min_samples = 1;
  quantile_num = 1;
  quantile_den = 2;
  claim_ttl_ms = 50;
}

abbrev pub sample_queue : QueueEnv
sample_queue = record {
  config = sample_config;
  now = λ n. n;
  ledger = λ n. sample_env;
  persists = λ n. write_done;
  random_hex = λ n. "0a";
  draws = λ n i. (1, 2);
  gate = sample_gate;
  max_attempts = 3;
}

abbrev paid : PreparedPayout
paid = record {
  mode = PayoutMode.onchain;
  signed_tx = none;
  tx_id = some "0xt";
  nonce = some 1;
  last_valid_block_height = none;
  context_slot = none;
}

-- Settles what is submitted.
abbrev settling : Rail
settling = record {
  network = "base";
  kind = evm;
  onchain = true;
  quarantined = λ n. false;
  outbox_entries_by_ref = λ n r. [];
  submit_pool_payout = λ n l. ok paid;
  prepare_pool_payout = λ n l. ok paid;
  broadcast_pool_payout = λ n p. ok tt;
  pool_payout_status = λ n p. ok uncertain;
  operator_pool_payout_status = λ n p. ok uncertain;
  classify_by_logical_id = λ n h. ok terminal_absent;
  finalized_block_height = λ n. ok none;
  dispatch_pool_payouts = λ n ls. err (rail_failed false false);
  maintain_pool_payout = λ n l v. ok tt;
}

-- Loses what is submitted, and says later that it is absent for good.
abbrev losing : Rail
losing = record settling {
  submit_pool_payout = λ n l. err (rail_failed false false);
  outbox_entries_by_ref = λ n r. record { logical_id = "l"; nonce = 1 } ∷ [];
}

abbrev leg_states : QueueWorld → List (List LegState)
leg_states w = map (λ g. map (λ l. l.state) g.legs) w.pending.memory

settled_by_flush :
    leg_states (flush_leg sample_queue settling group leg start).1 ≡ (LegState.settled ∷ []) ∷ []
unfolding flush_leg find_payout_transfer group_asset_key normalize_asset hash in_the_ledger
    in_the_journal ask ask_rail tell catch ◌>>=◌ pure throw gets settle_prepared mark_payout_settled
    record_settlement update_leg check_groups check_legs apply_patch to_lower
settled_by_flush = refl

-- The leg goes out, is in doubt, and fails once the chain says so; its reservation is reversed.
abbrev lost : QueueWorld
lost = (flush_leg sample_queue losing group leg start).1

once_one : (p : LedgerTransfer → Bool) (t : LedgerTransfer) → once p (t ∷ []) ≡ true
once_one p t = elim (Bool-cases (p t)) [ inl e ↦ rw e refl | inr e ↦ rw e refl ]

start-InAgreement : InAgreement sample_queue start
start-InAgreement = record {
  unique = λ r. once_one (is_payout_of sample_config r) reservation;
  agrees = refl;
}

abbrev in_doubt : PendingPayoutLeg
in_doubt = record leg { state = LegState.uncertain; attempts = 1; gen = 2 }

doubt_listed : leg_at "g" 0 lost.pending.memory ≡ some in_doubt
unfolding flush_leg find_payout_transfer group_asset_key normalize_asset hash in_the_ledger
    in_the_journal ask ask_rail tell catch ◌>>=◌ pure throw gets settle_prepared mark_payout_settled
    record_settlement update_leg check_groups check_legs apply_patch to_lower
doubt_listed = refl

abbrev decided : QueueWorld
decided = (reconcile_leg sample_queue losing group in_doubt true lost).1

failed_by_reconcile :
    (leg_states decided ≡ (LegState.failed ∷ []) ∷ []) × (decided.ledger.memory.transfers ≡ [])
unfolding flush_leg find_payout_transfer group_asset_key normalize_asset hash in_the_ledger
    in_the_journal ask ask_rail tell catch ◌>>=◌ pure throw gets settle_prepared mark_payout_settled
    record_settlement update_leg check_groups check_legs apply_patch to_lower reconcile_leg
    apply_verdict reverse_payout reversed set_balance set_balance_by_ref balance balance_by_ref
    total_balance insert lookup account_id ◌+ℤ◌ ◌-ℤ◌
failed_by_reconcile = (refl, refl)

Reaches-InAgreement_example : InAgreement sample_queue decided
Reaches-InAgreement_example =
    Reaches-InAgreement sample_queue
      (next (next here (flushes losing group leg start (leg, refl, refl)))
        (reconciles losing group in_doubt true lost (in_doubt, doubt_listed, refl)))
      start-InAgreement
