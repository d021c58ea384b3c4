-- ===== src/Ledger/Steps/Restores.antt =====
-- The calls that restore the memory when the write of the file fails.
use px.Prelude.{◌≡◌, ◌⊎◌, Bool, true, false}
use px.Ledger.State.{Config, Env, World}
use px.Ledger.Valid.Next.{IsHexDigest}
use px.Ledger.Outcome.{Outcome-atomic}
use px.Ledger.Outcome.Transfers.{transfer-Outcome, credit_deposit-Outcome}
use px.Ledger.Outcome.Payouts.{
  reserve_payout-Outcome, mark_payout_settled-Outcome, reverse_payout-Outcome,
}
use px.Ledger.Outcome.Vouchers.{
  melt_to_vouchers-Outcome, redeem_to_account-Outcome, reclaim_retired_keyset-Outcome,
  create_settlement_batch-Outcome,
}
use px.Ledger.Steps.{
  Call, melts, redeems, reclaims, transfers, credits, reserves, settles, reverses, reverses_orphans,
  creates_batch, commits_batch, burns, step,
}
use px.Ledger.Steps.Sound.{IsProper, IsSound}

-- All calls but `markBatchCommitted` and `burnExpired`, which do not restore the memory when the
-- write of the file fails, and `reverseOrphanPayouts`, which writes the file once for each reversal.
abbrev pub is_restoring : Call → Bool
is_restoring (melts _) = true
is_restoring (redeems _) = true
is_restoring (reclaims _ _) = true
is_restoring (transfers _) = true
is_restoring (credits _) = true
is_restoring (reserves _) = true
is_restoring (settles _ _) = true
is_restoring (reverses _) = true
is_restoring (reverses_orphans _) = false
is_restoring (creates_batch _) = true
is_restoring (commits_batch _ _) = false
is_restoring (burns _) = false

abbrev pub IsWrittenOrKept : World → World → Type 0
IsWrittenOrKept w w' = (w'.memory ≡ w.memory) ⊎ (w'.memory ≡ w'.disk)

-- Under a call that restores the memory no change stands in memory alone: whatever fails, the memory
-- is as it was, or the file holds what the memory holds.
pub step-IsWrittenOrKept :
    (cfg : Config) (env : Env) (call : Call) (w : World)
    → IsHexDigest cfg
    → IsProper cfg call
    → IsSound w
    → is_restoring call ≡ true
    → IsWrittenOrKept w (step cfg env call w)
unfolding step
step-IsWrittenOrKept cfg env (melts input) w hex (key, named) v r =
    Outcome-atomic (melt_to_vouchers-Outcome cfg env input w hex key named v.0)
step-IsWrittenOrKept cfg env (redeems input) w hex (key, named) v r =
    Outcome-atomic (redeem_to_account-Outcome cfg env input w hex key named v.0)
step-IsWrittenOrKept cfg env (reclaims asset_key keyset_id) w hex key v r =
    Outcome-atomic (reclaim_retired_keyset-Outcome cfg env asset_key keyset_id w key v.0)
step-IsWrittenOrKept cfg env (transfers input) w hex proper v r =
    Outcome-atomic (transfer-Outcome cfg env input w)
step-IsWrittenOrKept cfg env (credits input) w hex proper v r =
    Outcome-atomic (credit_deposit-Outcome cfg env input w)
step-IsWrittenOrKept cfg env (reserves input) w hex (key, apart) v r =
    Outcome-atomic (reserve_payout-Outcome cfg env input w apart)
step-IsWrittenOrKept cfg env (settles payout_ref transaction) w hex proper v r =
    Outcome-atomic (mark_payout_settled-Outcome cfg env payout_ref transaction w)
step-IsWrittenOrKept cfg env (reverses payout_ref) w hex proper v r =
    Outcome-atomic (reverse_payout-Outcome cfg env payout_ref w)
step-IsWrittenOrKept cfg env (reverses_orphans known) w hex proper v r = cc
step-IsWrittenOrKept cfg env (creates_batch input) w hex proper v r =
    Outcome-atomic (create_settlement_batch-Outcome cfg env input w)
step-IsWrittenOrKept cfg env (commits_batch batch_id transaction) w hex proper v r = cc
step-IsWrittenOrKept cfg env (burns now) w hex proper v r = cc
