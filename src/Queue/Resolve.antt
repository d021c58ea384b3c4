-- ===== src/Queue/Resolve.antt =====
-- `resolvePoolPayoutLeg`: an operator decides an uncertain leg, once the chain confirms the decision.
use px.Prelude.{ℕ, ◌+◌, String, Bool, true, false, not, ◌&&◌, ◌==◌, some, is_some, or_else, ltb}
use px.Prelude.Text.{str_eq}
use px.Queue.State.{◌>>=◌, ◌>>◌, pure, throw_if}
use px.Ledger.State.{opt_str_eq}
use px.Ledger.Payouts.{mark_payout_settled}
use px.Pending.State.{LegState, ChainStatus, PendingPayoutLeg, PendingPayoutGroup, no_patch}
use px.Pending.Methods.{leg_tag}
use px.Queue.State.{
  evm, solana, RailKind, Verdict, landed, included, pending, terminal_absent, uncertain,
  OutboxHandle, Rail, not_uncertain, lacks_signed_tx, signature_mismatch, not_canonical,
  lacks_nonce, attestation_required, lacks_expiry, not_expired, not_authoritative, QueueEnv,
  QueueAction, in_the_ledger, ask, ask_rail,
}
use px.Queue.Verdicts.{update, fail_absent, derive_group_state}
use px.Queue.Dispatch.{require_leg}
use px.Queue.Flush.{text_there}
use px.Queue.Reconcile.{prepared_from_leg}

-- What the operator claims: that the leg has landed under a signature, or, with an attestation, that
-- it is absent.
pub data Disposition : Type 0 where
  landed_as : String → Disposition
  absent_by : String → Disposition

pub data Resolution : Type 0 where
  resolved_settled resolved_failed superseded : Resolution

abbrev lands_as : String → Verdict → Bool
lands_as signature (landed transaction block) = str_eq transaction signature
lands_as signature (included _) = false
lands_as signature pending = false
lands_as signature terminal_absent = false
lands_as signature uncertain = false

abbrev is_absent : Verdict → Bool
is_absent (landed _ _) = false
is_absent (included _) = false
is_absent pending = false
is_absent terminal_absent = true
is_absent uncertain = false

abbrev nonce_of : PendingPayoutLeg → ℕ
nonce_of leg = or_else leg.nonce 0

abbrev own_entry : PendingPayoutLeg → OutboxHandle
own_entry leg = record { logical_id = leg.logical_id; nonce = nonce_of leg }

-- What the chain must confirm first. `derive_signature` is `solanaSignatureFromSignedTransaction`,
-- and `is_blank` whether a text trims to nothing.
module _ (derive_signature : String → String) (is_blank : String → Bool) where
  unfoldable pub confirm_by :
      RailKind → QueueEnv → Rail → PendingPayoutLeg → Disposition → QueueAction (Unit {0})
  confirm_by solana env rail leg (landed_as signature) = do
    throw_if (not (text_there leg.signed_tx && text_there leg.tx_id)) lacks_signed_tx
    throw_if
        (not (
          opt_str_eq leg.tx_id (some signature)
          && opt_str_eq leg.tx_id (some (derive_signature (or_else leg.signed_tx "")))))
        signature_mismatch
    status ← ask_rail (λ n. rail.operator_pool_payout_status n (prepared_from_leg leg))
    throw_if (not (lands_as signature status)) not_canonical
  confirm_by evm env rail leg (landed_as signature) = do
    throw_if (not (is_some leg.nonce)) lacks_nonce
    status ← ask_rail (λ n. rail.classify_by_logical_id n (own_entry leg))
    throw_if (not (lands_as signature status)) not_canonical
  confirm_by solana env rail leg (absent_by attestation) = do
    throw_if (is_blank attestation) attestation_required
    throw_if (not (is_some leg.last_valid_block_height)) lacks_expiry
    height ← ask_rail rail.finalized_block_height
    throw_if
        (not (ltb (or_else leg.last_valid_block_height 0) (or_else height 0) && is_some height))
        not_expired
  confirm_by evm env rail leg (absent_by attestation) = do
    throw_if (is_blank attestation) attestation_required
    throw_if (not (is_some leg.nonce)) lacks_nonce
    status ← ask_rail (λ n. rail.classify_by_logical_id n (own_entry leg))
    throw_if (not (is_absent status)) not_authoritative

abbrev pub is_uncertain_state : LegState → Bool
is_uncertain_state s = leg_tag s == 4

abbrev pub settle_signed :
    QueueEnv → PendingPayoutGroup → PendingPayoutLeg → ℕ → String → QueueAction Bool
settle_signed env group leg gen signature = do
  in_the_ledger env (λ e. mark_payout_settled env.config e leg.payout_ref (some signature))
  now ← ask env.now
  update env group leg
      (record no_patch {
        state = some LegState.settled;
        chain_status = some (some ChainStatus.finalized);
        transaction_hash = some (some signature);
        terminal_at = some (some now);
      })
      (some (gen + 1))

-- The ledger first, then the leg, then its group.
abbrev pub settle_as :
    QueueEnv → PendingPayoutGroup → PendingPayoutLeg → ℕ → String → QueueAction Resolution
settle_as env group leg gen signature = do
  settle_signed env group leg gen signature
  derive_group_state env group.group_ref
  pure resolved_settled

abbrev pub fail_as : QueueEnv → PendingPayoutGroup → PendingPayoutLeg → ℕ → QueueAction Resolution
fail_as env group leg gen = do
  fail_absent env group leg (some (gen + 1))
  derive_group_state env group.group_ref
  pure resolved_failed

abbrev pub decide :
    QueueEnv
    → PendingPayoutGroup
    → PendingPayoutLeg
    → ℕ
    → Disposition
    → Bool
    → QueueAction Resolution
decide env group leg gen disposition false = pure superseded
decide env group leg gen (landed_as signature) true = settle_as env group leg gen signature
decide env group leg gen (absent_by attestation) true = fail_as env group leg gen

abbrev pub dispose_current :
    QueueEnv
    → ℕ
    → Disposition
    → PendingPayoutGroup
    → PendingPayoutLeg
    → Bool
    → QueueAction Resolution
dispose_current env gen disposition group leg false = pure superseded
dispose_current env gen disposition group leg true = do
  claimed ← update env group leg (record no_patch { state = some LegState.uncertain }) (some gen)
  decide env group leg gen disposition claimed

-- The part under the lock of the network: the leg must not have moved since it was looked at.
unfoldable pub dispose_leg : QueueEnv → String → ℕ → ℕ → Disposition → QueueAction Resolution
dispose_leg env group_ref index gen disposition = do
  (group, leg) ← require_leg group_ref index
  dispose_current env gen disposition group leg (leg.gen == gen && is_uncertain_state leg.state)

-- `resolvePoolPayoutLeg`
unfoldable resolve_pool_payout_leg :
    (String → String)
    → (String → Bool)
    → QueueEnv
    → Rail
    → String
    → ℕ
    → Disposition
    → QueueAction Resolution
resolve_pool_payout_leg derive_signature is_blank env rail group_ref index disposition = do
  (group, leg) ← require_leg group_ref index
  throw_if (not (is_uncertain_state leg.state)) not_uncertain
  confirm_by derive_signature is_blank rail.kind env rail leg disposition
  dispose_leg env group_ref index leg.gen disposition
