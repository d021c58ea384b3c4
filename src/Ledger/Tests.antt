-- ===== src/Ledger/Tests.antt =====
-- The ledger's theorems at sample calls.
mod Repair
use px.Prelude.{◌≡◌, refl, inl, inr, true, false, all, any, keep, none, some, List, [], ◌∷◌, arith}
use px.Prelude.Int.{pos, ◌+ℤ◌, ◌-ℤ◌}
use px.Prelude.Text.{str_eq, to_lower, has_colon, join_colon, decimal_ℤ}
use px.Prelude.Dict.{lookup, insert, erase}
use px.Prelude.Action.{ok}
use px.Journal.Methods.{unique, seal_asset, append, ensure_epoch, new_epoch, append_record}
use px.Ledger.State.{
  World, Env, SettlementBatch, account_id, hash, private_ledger_asset_key, escrow_account,
}
use px.Ledger.Accounts.{set_balance, set_balance_by_ref, balance, balance_by_ref, total_balance}
use px.Ledger.Transfers.{
  LedgerTransferResult, transfer, transfer_fresh, transferred, post_balances, transfer_commitment,
}
use px.Ledger.Deposits.{
  LedgerDepositInput, credit_deposit, credit_fresh, credited, legacy_deposit_authorization_hash,
  deposit_commitment,
}
use px.Ledger.Payouts.{
  LedgerPayoutResult, reserve_payout, payout_fresh, paid_out, payout_commitment,
  payout_reservation_binding,
}
use px.Ledger.Batches.{
  BatchInput, create_settlement_batch, batch_pending, with_batch, new_batch, not_in_batches,
  mark_batch_committed, commit_open_batch, burn_expired, new_batch_id, expired_batch_ids, epoch_ids,
}
use px.Ledger.Merkle.{merkle_root}
use px.Ledger.Steps.{
  Call, credits, transfers, reserves, reverses, creates_batch, commits_batch, burns, step, run,
}
use px.Ledger.Steps.Sound.{AllProper, IsSound, run-IsSound}
use px.Ledger.Steps.Claims.{credit_deposit-once}
use px.Ledger.Steps.Solvent.{IsSolvent, run-IsSolvent}
use px.Ledger.Valid.Conserves.{AreApart}
use px.Ledger.Valid.Next.{IsAssetKey}
use px.Ledger.Reversals.{reverse_payout}
use px.Ledger.Steps.Restores.{IsWrittenOrKept, step-IsWrittenOrKept}
use px.Ledger.Funds.{Moved, transfer-moves}
use px.Ledger.Undone.{IsUndone, reverse_payout-undoes}
use px.Ledger.Coverage.{Covers, create_settlement_batch-Covers}
use px.Ledger.Spared.{burn_expired-spares}
use px.Journal.Erasure.{SameEpoch}
use px.Ledger.Samples.{
  sample_config, sample_config-IsHexDigest, sample_env, empty_world, empty-IsSound, sample_deposit,
  sample_transfer, sample_payout, funded_world,
}

abbrev sample_answer : LedgerTransferResult
sample_answer = record {
  commitment = "0x3123456789abcdef0123456789abcdef0123456789abcdef0123456789abcdef";
  payer_balance_atomic = pos 100;
  accepted_at = 10;
  duplicate = false;
}

abbrev paid_answer : LedgerTransferResult
paid_answer = record sample_answer { payer_balance_atomic = pos 70 }

abbrev payout_answer : LedgerPayoutResult
payout_answer = record {
  commitment = "0x3123456789abcdef0123456789abcdef0123456789abcdef0123456789abcdef";
  balance_atomic = pos 80;
  accepted_at = 10;
  duplicate = false;
}

abbrev sample_batch_input : BatchInput
sample_batch_input = record {
  asset_key = "base:0xUSDC";
  network = "base";
  token_address = "0xusdc";
}

abbrev sample_batch : SettlementBatch
sample_batch = record {
  id = "batch-id";
  asset = "base:0xusdc";
  network = "base";
  token_address = "0xusdc";
  merkle_root =
      merkle_root sample_config
        ("0x3123456789abcdef0123456789abcdef0123456789abcdef0123456789abcdef" ∷ []);
  transfer_count = 1;
  created_at = 10;
  transaction_hash = none;
  settled_at = none;
}

deposit_done :
    (credit_deposit sample_config sample_env sample_deposit empty_world).0 ≡ ok sample_answer
unfolding step run credit_deposit credit_fresh credited transfer transfer_fresh transferred
    reserve_payout payout_fresh paid_out post_balances set_balance set_balance_by_ref balance
    balance_by_ref total_balance account_id hash legacy_deposit_authorization_hash
    deposit_commitment transfer_commitment payout_commitment payout_reservation_binding append
    ensure_epoch new_epoch append_record lookup insert ◌+ℤ◌ ◌-ℤ◌ join_colon decimal_ℤ to_lower
    create_settlement_batch batch_pending with_batch new_batch private_ledger_asset_key
deposit_done = refl

transfer_done : (transfer sample_config sample_env sample_transfer funded_world).0 ≡ ok paid_answer
unfolding step run credit_deposit credit_fresh credited transfer transfer_fresh transferred
    reserve_payout payout_fresh paid_out post_balances set_balance set_balance_by_ref balance
    balance_by_ref total_balance account_id hash legacy_deposit_authorization_hash
    deposit_commitment transfer_commitment payout_commitment payout_reservation_binding append
    ensure_epoch new_epoch append_record lookup insert ◌+ℤ◌ ◌-ℤ◌ join_colon decimal_ℤ to_lower
    create_settlement_batch batch_pending with_batch new_batch private_ledger_asset_key
transfer_done = refl

payout_done :
    (reserve_payout sample_config sample_env sample_payout funded_world).0 ≡ ok payout_answer
unfolding step run credit_deposit credit_fresh credited transfer transfer_fresh transferred
    reserve_payout payout_fresh paid_out post_balances set_balance set_balance_by_ref balance
    balance_by_ref total_balance account_id hash legacy_deposit_authorization_hash
    deposit_commitment transfer_commitment payout_commitment payout_reservation_binding append
    ensure_epoch new_epoch append_record lookup insert ◌+ℤ◌ ◌-ℤ◌ join_colon decimal_ℤ to_lower
    create_settlement_batch batch_pending with_batch new_batch private_ledger_asset_key
payout_done = refl

batch_done :
    (create_settlement_batch sample_config sample_env sample_batch_input funded_world).0
    ≡ ok (some sample_batch)
unfolding step run credit_deposit credit_fresh credited transfer transfer_fresh transferred
    reserve_payout payout_fresh paid_out post_balances set_balance set_balance_by_ref balance
    balance_by_ref total_balance account_id hash legacy_deposit_authorization_hash
    deposit_commitment transfer_commitment payout_commitment payout_reservation_binding append
    ensure_epoch new_epoch append_record lookup insert ◌+ℤ◌ ◌-ℤ◌ join_colon decimal_ℤ to_lower
    create_settlement_batch batch_pending with_batch new_batch private_ledger_asset_key
batch_done = refl

alice_bob_apart : AreApart sample_config "alice" "bob"
unfolding account_id
alice_bob_apart = refl

alice_escrow_apart : AreApart sample_config "alice" (escrow_account (to_lower "base:0xUSDC"))
unfolding account_id to_lower
alice_escrow_apart = refl

usdc-IsAssetKey : IsAssetKey "base:0xUSDC"
unfolding to_lower has_colon
usdc-IsAssetKey = refl

-- A deposit, a transfer, a payout, its reversal, a batch and a burn.
abbrev later_calls : List (Env × Call)
later_calls =
    (sample_env, transfers sample_transfer)
    ∷ (sample_env, reserves sample_payout)
    ∷ (record sample_env { persists = false }, reverses "p")
    ∷ (sample_env, creates_batch sample_batch_input)
    ∷ (sample_env, burns 5000)
    ∷ []

abbrev sample_calls : List (Env × Call)
sample_calls = (sample_env, credits sample_deposit) ∷ later_calls

sample_calls-AllProper : AllProper sample_config sample_calls
sample_calls-AllProper = (
  (usdc-IsAssetKey, alice_escrow_apart),
  (
    (usdc-IsAssetKey, alice_bob_apart),
    ((usdc-IsAssetKey, alice_escrow_apart), (tt, (tt, (tt, tt)))),
  ),
)

run-IsSound_example : IsSound (run sample_config sample_calls empty_world)
run-IsSound_example =
    run-IsSound sample_config sample_calls empty_world sample_config-IsHexDigest
      sample_calls-AllProper empty-IsSound

empty-IsSolvent :
    IsSolvent sample_config empty_world.memory × IsSolvent sample_config empty_world.disk
unfolding balance_by_ref lookup
empty-IsSolvent = ((refl, λ r a e. omega arith), (refl, λ r a e. omega arith))

run-IsSolvent_example :
    IsSolvent sample_config (run sample_config sample_calls empty_world).memory
    × IsSolvent sample_config (run sample_config sample_calls empty_world).disk
run-IsSolvent_example =
    run-IsSolvent sample_config sample_calls empty_world sample_config-IsHexDigest
      sample_calls-AllProper empty-IsSound empty-IsSolvent

abbrev indexed_deposit : LedgerDepositInput
indexed_deposit = record sample_deposit { transfer_index = some 3 }

credit_deposit-once_example :
    ((credit_deposit sample_config sample_env indexed_deposit
        (run sample_config sample_calls empty_world)).1.memory
      ≡ (run sample_config sample_calls empty_world).memory)
    × ((credit_deposit sample_config sample_env indexed_deposit
          (run sample_config sample_calls empty_world)).1.disk
        ≡ (run sample_config sample_calls empty_world).disk)
credit_deposit-once_example =
    credit_deposit-once sample_config sample_env sample_env sample_deposit indexed_deposit
      later_calls empty_world sample_answer sample_config-IsHexDigest sample_calls-AllProper
      empty-IsSound deposit_done refl (inr (refl, refl))

transfer-moves_example :
    Moved sample_config sample_transfer funded_world.memory
      (transfer sample_config sample_env sample_transfer funded_world).1.memory
    × Moved sample_config sample_transfer funded_world.memory
        (transfer sample_config sample_env sample_transfer funded_world).1.disk
transfer-moves_example =
    transfer-moves sample_config sample_env sample_transfer funded_world paid_answer alice_bob_apart
      transfer_done refl

abbrev undone_world : World
undone_world =
    (reverse_payout sample_config sample_env "p"
      (reserve_payout sample_config sample_env sample_payout funded_world).1).1

reverse_payout-undoes_example :
    ((reverse_payout sample_config sample_env "p"
        (reserve_payout sample_config sample_env sample_payout funded_world).1).0
      ≡ ok true)
    × IsUndone funded_world.memory undone_world.memory
    × IsUndone funded_world.memory undone_world.disk
reverse_payout-undoes_example =
    reverse_payout-undoes sample_config sample_env sample_env sample_payout funded_world
      payout_answer alice_escrow_apart payout_done refl refl

new_batch_id_fresh :
    all (not_in_batches (new_batch_id sample_env ∷ [])) funded_world.memory.transfers ≡ true
unfolding step run credit_deposit credit_fresh credited transfer transfer_fresh transferred
    reserve_payout payout_fresh paid_out post_balances set_balance set_balance_by_ref balance
    balance_by_ref total_balance account_id hash legacy_deposit_authorization_hash
    deposit_commitment transfer_commitment payout_commitment payout_reservation_binding append
    ensure_epoch new_epoch append_record lookup insert ◌+ℤ◌ ◌-ℤ◌ join_colon decimal_ℤ to_lower
    create_settlement_batch batch_pending with_batch new_batch private_ledger_asset_key
new_batch_id_fresh = refl

create_settlement_batch-Covers_example :
    Covers sample_config
      (to_lower "base:0xUSDC")
      sample_batch
      funded_world.memory
      (create_settlement_batch sample_config sample_env sample_batch_input funded_world).1.memory
    × Covers sample_config
        (to_lower "base:0xUSDC")
        sample_batch
        funded_world.memory
        (create_settlement_batch sample_config sample_env sample_batch_input funded_world).1.disk
create_settlement_batch-Covers_example =
    create_settlement_batch-Covers sample_config sample_env sample_batch_input funded_world
      sample_batch new_batch_id_fresh batch_done

abbrev later_env : Env
later_env = record sample_env {
  journal = record sample_env.journal { random_id = "1123456789abcdef0123456789abcdef" };
}

-- The deposit stands in a settled batch, and a transfer in the epoch that followed.
abbrev settled_world : World
settled_world =
    run sample_config
      ((sample_env, creates_batch sample_batch_input)
        ∷ (sample_env, commits_batch "batch-id" (some "0xFF"))
        ∷ (later_env, transfers sample_transfer)
        ∷ [])
      funded_world

later_epoch_held :
    any (str_eq "1123456789abcdef0123456789abcdef") (
      epoch_ids (
        keep
          (not_in_batches (expired_batch_ids sample_config 5000 settled_world.memory))
          settled_world.memory.transfers))
    ≡ true
unfolding expired_batch_ids unique mark_batch_committed commit_open_batch erase seal_asset step run
    credit_deposit credit_fresh credited transfer transfer_fresh transferred reserve_payout
    payout_fresh paid_out post_balances set_balance set_balance_by_ref balance balance_by_ref
    total_balance account_id hash legacy_deposit_authorization_hash deposit_commitment
    transfer_commitment payout_commitment payout_reservation_binding append ensure_epoch new_epoch
    append_record lookup insert ◌+ℤ◌ ◌-ℤ◌ join_colon decimal_ℤ to_lower create_settlement_batch
    batch_pending with_batch new_batch private_ledger_asset_key
later_epoch_held = refl

burn_expired-spares_example :
    SameEpoch "1123456789abcdef0123456789abcdef" settled_world.journal
      (burn_expired sample_config sample_env 5000 settled_world).1.journal
burn_expired-spares_example =
    burn_expired-spares sample_config sample_env 5000 "1123456789abcdef0123456789abcdef"
      settled_world later_epoch_held

step-IsWrittenOrKept_example : IsWrittenOrKept empty_world (
    step sample_config
      (record sample_env { persists = false; replaces = true })
      (transfers sample_transfer)
      empty_world)
step-IsWrittenOrKept_example =
    step-IsWrittenOrKept sample_config (record sample_env { persists = false; replaces = true })
      (transfers sample_transfer) empty_world sample_config-IsHexDigest
      (usdc-IsAssetKey, alice_bob_apart) empty-IsSound refl
