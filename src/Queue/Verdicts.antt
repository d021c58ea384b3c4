-- ===== src/Queue/Verdicts.antt =====
-- `applyVerdict`, `settlePrepared` and `deriveGroupState`: what a leg and its group become.
use px.Prelude.{
  ℕ, ◌+◌, max, String, Bool, true, false, ◌&&◌, ◌||◌, ◌==◌, Option, none, some, List, [], ◌∷◌, all,
  any, is_some, or_else, if◌then◌else◌,
}
use px.Prelude.Text.{str_eq}
use px.Queue.State.{◌>>=◌, ◌>>◌, pure, gets}
use px.Ledger.Payouts.{mark_payout_settled}
use px.Ledger.Reversals.{reverse_payout}
use px.Pending.State.{
  LegState, GroupState, ChainStatus, PayoutMode, PendingPayoutLeg, PendingPayoutGroup, LegPatch,
  no_patch,
}
use px.Pending.Methods.{by_ref, leg_tag, same_option, same_chain, same_mode, update_leg}
use px.Pending.Marks.{set_group_state}
use px.Queue.State.{
  Verdict, landed, included, pending, terminal_absent, uncertain, PreparedPayout, QueueEnv,
  QueueAction, in_the_ledger, in_the_journal, ask,
}

-- `isTerminalLeg`
abbrev pub is_terminal_leg : LegState → Bool
is_terminal_leg s = leg_tag s == 2 || leg_tag s == 3

abbrev pub update :
    QueueEnv → PendingPayoutGroup → PendingPayoutLeg → LegPatch → Option ℕ → QueueAction Bool
update env group leg patch expect_gen =
    in_the_journal env (λ persists. update_leg persists group.group_ref leg.index patch expect_gen)

-- `settlePrepared`: the ledger first, then the leg.
unfoldable pub settle_prepared :
    QueueEnv → PendingPayoutGroup → PendingPayoutLeg → PreparedPayout → QueueAction Bool
settle_prepared env group leg prepared = do
  in_the_ledger env (λ e. mark_payout_settled env.config e leg.payout_ref prepared.tx_id)
  now ← ask env.now
  update env group leg
      (record no_patch {
        state = some LegState.settled;
        mode = some (some prepared.mode);
        nonce = some prepared.nonce;
        tx_id = some prepared.tx_id;
        transaction_hash = some prepared.tx_id;
        chain_status = some (some ChainStatus.finalized);
        terminal_at = some (some now);
      })
      none

-- A key that is there only with a value.
abbrev pub when_some : {A : Type 0} → Option A → Option (Option A)
when_some none = none
when_some (some a) = some (some a)

abbrev pub settle_landed :
    QueueEnv
    → PendingPayoutGroup
    → PendingPayoutLeg
    → String
    → Option ℕ
    → Option ℕ
    → QueueAction Bool
settle_landed env group leg transaction block_number gen = do
  in_the_ledger env (λ e. mark_payout_settled env.config e leg.payout_ref (some transaction))
  now ← ask env.now
  update env group leg
      (record no_patch {
        state = some LegState.settled;
        chain_status = some (some ChainStatus.finalized);
        mode = some (some PayoutMode.onchain);
        transaction_hash = some (some transaction);
        tx_id = some (some transaction);
        nonce = some leg.nonce;
        terminal_at = some (some now);
        landed_block = when_some block_number;
      })
      gen

abbrev pub fail_absent :
    QueueEnv → PendingPayoutGroup → PendingPayoutLeg → Option ℕ → QueueAction Bool
fail_absent env group leg gen = do
  in_the_ledger env (λ e. reverse_payout env.config e leg.payout_ref)
  now ← ask env.now
  update env group leg
      (record no_patch { state = some LegState.failed; terminal_at = some (some now) }) gen

-- The claim of a leg, before a terminal verdict is acted on, writes its state as it is.
abbrev pub claim_leg : QueueEnv → PendingPayoutGroup → PendingPayoutLeg → QueueAction Bool
claim_leg env group leg =
    update env group leg (record no_patch { state = some leg.state }) (some leg.gen)

abbrev pub if_claimed : QueueAction Bool → Bool → QueueAction Bool
if_claimed m false = pure false
if_claimed m true = m

-- `if (expectGen && terminal) …`, with what follows it for a terminal verdict.
abbrev pub with_claim :
    QueueEnv
    → PendingPayoutGroup
    → PendingPayoutLeg
    → Bool
    → (Option ℕ → QueueAction Bool)
    → QueueAction Bool
with_claim env group leg false act = act none
with_claim env group leg true act = do
  claimed ← claim_leg env group leg
  if_claimed (act (some (leg.gen + 1))) claimed

abbrev pub expected : Bool → PendingPayoutLeg → Option ℕ
expected expect_gen leg = if expect_gen then some leg.gen else none

-- Nothing changed since the last pass.
abbrev pub already_included : PendingPayoutLeg → String → Bool
already_included leg transaction =
    leg_tag leg.state == 1
    && same_option same_chain leg.chain_status (some ChainStatus.included)
    && same_option str_eq leg.transaction_hash (some transaction)
    && same_option same_mode leg.mode (some PayoutMode.onchain)

abbrev pub has_stale_evidence : PendingPayoutLeg → Bool
has_stale_evidence leg =
    same_option same_chain leg.chain_status (some ChainStatus.included)
    || is_some leg.transaction_hash

-- `applyVerdict`. The result says nothing.
unfoldable pub apply_verdict :
    QueueEnv → PendingPayoutGroup → PendingPayoutLeg → Verdict → Bool → QueueAction Bool
apply_verdict env group leg (landed transaction block_number) expect_gen =
    with_claim env group leg expect_gen (settle_landed env group leg transaction block_number)
apply_verdict env group leg terminal_absent expect_gen =
    with_claim env group leg expect_gen (fail_absent env group leg)
apply_verdict env group leg (included transaction) expect_gen =
    if already_included leg transaction
    then pure false
    else update env group leg
        (record no_patch {
          state = some LegState.broadcasting;
          mode = some (some PayoutMode.onchain);
          chain_status = some (some ChainStatus.included);
          transaction_hash = some (some transaction);
        })
        (expected expect_gen leg)
apply_verdict env group leg pending expect_gen =
    if has_stale_evidence leg
    then update env group leg
        (record no_patch {
          state = some LegState.broadcasting;
          chain_status = some none;
          transaction_hash = some none;
        })
        (expected expect_gen leg)
    else pure false
apply_verdict env group leg uncertain expect_gen =
    update env group leg (record no_patch { state = some LegState.uncertain })
      (expected expect_gen leg)

abbrev pub states_of : List PendingPayoutLeg → List LegState
states_of [] = []
states_of (leg ∷ legs) = leg.state ∷ states_of legs

abbrev pub is_state : ℕ → LegState → Bool
is_state tag s = leg_tag s == tag

-- The state of a group, from those of its legs.
unfoldable pub derived_state : List LegState → GroupState
derived_state states =
    if any (is_state 4) states
    then GroupState.uncertain
    else if all (is_state 2) states
    then GroupState.settled
    else if all (is_state 3) states
    then GroupState.failed
    else if all is_terminal_leg states && any (is_state 3) states
    then GroupState.partial
    else if any (is_state 1) states
    then GroupState.in_flight
    else GroupState.queued

abbrev pub is_final_group : GroupState → Bool
is_final_group GroupState.queued = false
is_final_group GroupState.in_flight = false
is_final_group GroupState.settled = true
is_final_group GroupState.partial = true
is_final_group GroupState.failed = true
is_final_group GroupState.uncertain = false

-- `Math.max(...)` of the times; the clock stands for a missing one.
abbrev pub latest : ℕ → List PendingPayoutLeg → ℕ
latest now [] = 0
latest now (leg ∷ legs) = max (or_else leg.terminal_at now) (latest now legs)

abbrev pub derive_found : QueueEnv → String → Option PendingPayoutGroup → QueueAction (Unit {0})
derive_found env group_ref none = pure tt
derive_found env group_ref (some group) = do
  now ← ask env.now
  let state = derived_state (states_of group.legs)
  let terminal_at = if is_final_group state then some (latest now group.legs) else none
  in_the_journal env (λ persists. set_group_state persists group_ref state terminal_at)

-- `deriveGroupState`
unfoldable pub derive_group_state : QueueEnv → String → QueueAction (Unit {0})
derive_group_state env group_ref = do
  gs ← gets (λ w. w.pending.memory)
  derive_found env group_ref (by_ref group_ref gs)
