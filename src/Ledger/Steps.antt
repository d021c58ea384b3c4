-- ===== src/Ledger/Steps.antt =====
-- The ledger's methods as calls, run one after another as `serialize` queues them.
pub mod Sound
pub mod Keeps
pub mod Claims
pub mod Overdraft
pub mod Solvent
pub mod Restores
use px.Prelude.{ℕ, String, Option, List, [], ◌∷◌}
use px.Ledger.State.{Config, Env, World}
use px.Ledger.Vouchers.{
  LedgerVoucherMeltInput, LedgerVoucherRedeemInput, melt_to_vouchers, redeem_to_account,
  reclaim_retired_keyset,
}
use px.Ledger.Transfers.{LedgerTransferInput, transfer}
use px.Ledger.Deposits.{LedgerDepositInput, credit_deposit}
use px.Ledger.Payouts.{LedgerPayoutInput, reserve_payout, mark_payout_settled}
use px.Ledger.Reversals.{reverse_payout, reverse_orphan_payouts}
use px.Ledger.Batches.{BatchInput, create_settlement_batch, mark_batch_committed, burn_expired}

pub data Call : Type 0 where
  melts : LedgerVoucherMeltInput → Call
  redeems : LedgerVoucherRedeemInput → Call
  reclaims : String → String → Call
  transfers : LedgerTransferInput → Call
  credits : LedgerDepositInput → Call
  reserves : LedgerPayoutInput → Call
  settles : String → Option String → Call
  reverses : String → Call
  reverses_orphans : List String → Call
  creates_batch : BatchInput → Call
  commits_batch : String → Option String → Call
  burns : ℕ → Call

-- The world after a call, whether it returned or threw.
unfoldable pub step : Config → Env → Call → World → World
step cfg env (melts input) w = (melt_to_vouchers cfg env input w).1
step cfg env (redeems input) w = (redeem_to_account cfg env input w).1
step cfg env (reclaims asset_key keyset_id) w =
    (reclaim_retired_keyset cfg env asset_key keyset_id w).1
step cfg env (transfers input) w = (transfer cfg env input w).1
step cfg env (credits input) w = (credit_deposit cfg env input w).1
step cfg env (reserves input) w = (reserve_payout cfg env input w).1
step cfg env (settles payout_ref transaction) w =
    (mark_payout_settled cfg env payout_ref transaction w).1
step cfg env (reverses payout_ref) w = (reverse_payout cfg env payout_ref w).1
step cfg env (reverses_orphans known) w = (reverse_orphan_payouts cfg env known w).1
step cfg env (creates_batch input) w = (create_settlement_batch cfg env input w).1
step cfg env (commits_batch batch_id transaction) w =
    (mark_batch_committed env batch_id transaction w).1
step cfg env (burns now) w = (burn_expired cfg env now w).1

-- `serialize`: each call begins when the one before it has ended.
unfoldable pub run : Config → List (Env × Call) → World → World
run cfg [] w = w
run cfg ((env, call) ∷ calls) w = run cfg calls (step cfg env call w)
