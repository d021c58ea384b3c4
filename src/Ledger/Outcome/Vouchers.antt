-- ===== src/Ledger/Outcome/Vouchers.antt =====
-- The methods on vouchers meet the contract on a valid ledger, where their checks pass, and
-- `createSettlementBatch` on any.
use px.Prelude.{
  String, Bool, Option, none, some, if◌then◌else◌, not-false, ◌≡◌, refl, true, false, not, any,
  keep, [], ◌∷◌, List,
}
use px.Prelude.Int.{pos, ltb_ℤ, leb_ℤ}
use px.Prelude.Text.{to_lower, str_eq, ◌<>◌}
use px.Ledger.State.{
  SettlementBatch, Ledger, LedgerTransfer, Config, Env, World, asset_key_mismatch, hash,
  private_ledger_asset_key,
}
use px.Ledger.Accounts.{balance, voucher_liability}
use px.Ledger.Vouchers.{
  LedgerVoucherResult, LedgerVoucherMeltInput, LedgerVoucherRedeemInput, consumed_refs, melted,
  melt_fresh, melt_to_vouchers, redeemed, redeem_fresh, redeem_to_account, reclaimed,
  reclaim_retired_keyset,
}
use px.Ledger.Batches.{
  BatchInput, is_batchable, new_batch, with_batch, batch_pending, create_settlement_batch,
}
use px.Ledger.Valid.{IsValid, state_error-none}
use px.Ledger.Valid.Conserves.{melted-Conserves, redeemed-Conserves, reclaimed-Conserves}
use px.Ledger.Valid.Next.{
  IsHexDigest, IsAssetKey, melted-IsValid, redeemed-IsValid, reclaimed-IsValid,
}
use px.Ledger.Outcome.{
  Outcome, unchanged, Outcome-throw_if, Outcome-if, Outcome-persist, Outcome-commit_checked,
}

-- The answer calls itself a duplicate exactly when nothing changed.
abbrev pub IsNewVoucher : LedgerVoucherResult → Bool → Type 0
IsNewVoucher r changed = r.duplicate ≡ not changed

-- The new batch is answered exactly when one was made.
abbrev pub IsBatched : Config → Env → BatchInput → Ledger → Option SettlementBatch → Bool → Type 0
IsBatched cfg env input s o changed =
    o ≡ (if changed then some (new_batch cfg env input s) else none)

-- What a melt that goes through has passed.
abbrev pub MeltAllowed : Config → LedgerVoucherMeltInput → Ledger → Type 0
MeltAllowed cfg input s =
    (leb_ℤ input.amount_atomic (pos 0) ≡ false)
    × (any (str_eq (hash cfg ("voucher-melt:" <> input.melt_key))) (consumed_refs input.keyset_id s)
        ≡ false)
    × (ltb_ℤ (balance cfg input.agent_id (to_lower input.asset_key) s) input.amount_atomic ≡ false)

pub melt_to_vouchers-Outcome :
    (cfg : Config) (env : Env) (input : LedgerVoucherMeltInput) (w : World)
    → IsHexDigest cfg
    → IsAssetKey input.asset_key
    → str_eq input.keyset_id "" ≡ false
    → IsValid w.memory
    → Outcome IsNewVoucher
        (MeltAllowed cfg input w.memory)
        (λ epoch. melted cfg input w.memory)
        w
        (melt_to_vouchers cfg env input w)
unfolding melt_to_vouchers melt_fresh
melt_to_vouchers-Outcome cfg env input w hex c named v = Outcome-throw_if _ _ _ λ positive.
    Outcome-if
      (any (str_eq (hash cfg ("voucher-melt:" <> input.melt_key)))
        (consumed_refs input.keyset_id w.memory))
      _ (melt_fresh cfg env input) (λ old. unchanged _ refl)
      λ fresh. Outcome-throw_if _ _ _ λ funded.
        Outcome-commit_checked env (to_lower input.asset_key) "" _ (positive, fresh, funded)
          (λ _. refl) (melted-Conserves cfg input w.memory (to_lower input.asset_key))
          (state_error-none _ (melted-IsValid cfg input w.memory hex c named v))

-- What a redemption that goes through has passed.
abbrev pub RedeemAllowed : Config → LedgerVoucherRedeemInput → Ledger → Type 0
RedeemAllowed cfg input s =
    (leb_ℤ input.amount_atomic (pos 0) ≡ false)
    × (any (str_eq (hash cfg ("voucher-redeem:" <> input.redeem_key)))
          (consumed_refs input.keyset_id s)
        ≡ false)
    × (ltb_ℤ (voucher_liability cfg (to_lower input.asset_key) input.keyset_id s)
          input.amount_atomic
        ≡ false)

pub redeem_to_account-Outcome :
    (cfg : Config) (env : Env) (input : LedgerVoucherRedeemInput) (w : World)
    → IsHexDigest cfg
    → IsAssetKey input.asset_key
    → str_eq input.keyset_id "" ≡ false
    → IsValid w.memory
    → Outcome IsNewVoucher
        (RedeemAllowed cfg input w.memory)
        (λ epoch. redeemed cfg input w.memory)
        w
        (redeem_to_account cfg env input w)
unfolding redeem_to_account redeem_fresh
redeem_to_account-Outcome cfg env input w hex c named v = Outcome-throw_if _ _ _ λ positive.
    Outcome-if
      (any (str_eq (hash cfg ("voucher-redeem:" <> input.redeem_key)))
        (consumed_refs input.keyset_id w.memory))
      _ (redeem_fresh cfg env input) (λ old. unchanged _ refl)
      λ fresh. Outcome-throw_if _ _ _ λ funded.
        Outcome-commit_checked env (to_lower input.asset_key) "" _ (positive, fresh, funded)
          (λ _. refl) (redeemed-Conserves cfg input w.memory (to_lower input.asset_key))
          (state_error-none _ (redeemed-IsValid cfg input w.memory hex c named v))

pub reclaim_retired_keyset-Outcome :
    (cfg : Config) (env : Env) (asset_key keyset_id : String) (w : World)
    → IsAssetKey asset_key
    → IsValid w.memory
    → Outcome
        (λ _ _. Unit {0})
        (Unit {0})
        (λ epoch. reclaimed cfg (to_lower asset_key) keyset_id w.memory)
        w
        (reclaim_retired_keyset cfg env asset_key keyset_id w)
unfolding reclaim_retired_keyset
reclaim_retired_keyset-Outcome cfg env asset_key keyset_id w c v =
    Outcome-commit_checked env (to_lower asset_key) "" _ tt (λ _. tt)
      (reclaimed-Conserves cfg asset_key keyset_id w.memory (to_lower asset_key))
      (state_error-none _ (reclaimed-IsValid cfg asset_key keyset_id w.memory c v))

-- What a batch that is created has passed.
abbrev pub BatchAllowed : BatchInput → Ledger → Type 0
BatchAllowed input s =
    (str_eq (to_lower input.asset_key) (private_ledger_asset_key input.network input.token_address)
      ≡ true)
    × ((keep (is_batchable (to_lower input.asset_key)) s.transfers ≡ []) → ⊥)

batch_answered :
    (cfg : Config) (env : Env) (input : BatchInput) (w : World)
    → (str_eq
          (to_lower input.asset_key)
          (private_ledger_asset_key input.network input.token_address)
        ≡ true)
    → (ts : List LedgerTransfer)
    → keep (is_batchable (to_lower input.asset_key)) w.memory.transfers ≡ ts
    → Outcome
        (IsBatched cfg env input w.memory)
        (BatchAllowed input w.memory)
        (λ epoch. with_batch cfg env input w.memory)
        w
        (batch_pending cfg env input ts w)
unfolding batch_pending
batch_answered cfg env input w key [] e = unchanged _ refl
batch_answered cfg env input w key (t ∷ ts) e =
    Outcome-persist env "" _ _ (key, λ empty. cc) λ _. refl

pub create_settlement_batch-Outcome :
    (cfg : Config) (env : Env) (input : BatchInput) (w : World)
    → Outcome
        (IsBatched cfg env input w.memory)
        (BatchAllowed input w.memory)
        (λ epoch. with_batch cfg env input w.memory)
        w
        (create_settlement_batch cfg env input w)
unfolding create_settlement_batch
create_settlement_batch-Outcome cfg env input w =
    Outcome-throw_if
      (not (
        str_eq (to_lower input.asset_key)
          (private_ledger_asset_key input.network input.token_address)))
      asset_key_mismatch _ λ key. batch_answered cfg env input w (not-false _ key) _ refl
