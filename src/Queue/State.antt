-- ===== src/Queue/State.antt =====
-- The world of the queue, what it asks the rails (src/server/rails/ChainRail.ts), and its steps into
-- the ledger, the journal and the book.
use px.Prelude.Action.{Write}
use px.Prelude.{ℕ, suc, String, Bool, Option, List, [], ◌∷◌, ◌++◌, if◌then◌else◌}
use px.Prelude.Text.{str_eq, to_lower, ◌<>◌}
use px.Prelude.Dict.{Dict}
use px.Prelude.Action.{Result, ok, err, Action, continue}
use px.Ledger.State.{Config, Env, World, LedgerError, LedgerAction}
use px.Pending.State.{
  PayoutMode, PendingPayoutLeg, PendingPayoutGroup, PendingWorld, PendingError, PendingAction,
}
use px.Cohorts.Book.{CohortRecord, CohortWorld, CohortError, CohortAction}
use px.Concentration.Target.{KEffSample}

pub data RailKind : Type 0 where
  evm solana : RailKind

-- `ChainRailPayoutVerdict`
pub data Verdict : Type 0 where
  landed : String → Option ℕ → Verdict
  included : String → Verdict
  pending terminal_absent uncertain : Verdict

-- What a call of a rail throws: the two errors that are told apart by their class, or another
-- error, of which the queue tests whether its text names a terminal absence or a finalized occupant.
pub data RailError : Type 0 where
  settler_quarantined : RailError
  settler_not_yet_final : String → RailError
  rail_failed : Bool → Bool → RailError

-- `ChainRailPreparedPayout`, without the fields that it copies from the leg.
pub record PreparedPayout : Type 0 where
  pub mode : PayoutMode
  pub signed_tx : Option String
  pub tx_id : Option String
  pub nonce : Option ℕ
  pub last_valid_block_height : Option ℕ
  pub context_slot : Option ℕ

pub record OutboxHandle : Type 0 where
  pub logical_id : String
  pub nonce : ℕ

-- `DispatchOutcome`, of one logical id.
pub data DispatchOutcome : Type 0 where
  dispatched : ℕ → String → Option ℕ → DispatchOutcome
  finalized : ℕ → String → DispatchOutcome
  failed : RailError → DispatchOutcome

-- A dispatch's answer for each leg of its wave: `failures` and `outcomes` by the logical id.
pub record DispatchResult : Type 0 where
  pub outcomes : String → Option DispatchOutcome
  pub failures : String → Option RailError

-- A rail answers from outside the program, and may answer differently each time: the number is that
-- of the call.
pub record Rail : Type 0 where
  pub network : String
  pub kind : RailKind
  pub onchain : Bool
  pub quarantined : ℕ → Bool
  pub outbox_entries_by_ref : ℕ → String → List OutboxHandle
  pub submit_pool_payout : ℕ → PendingPayoutLeg → Result RailError PreparedPayout
  pub prepare_pool_payout : ℕ → PendingPayoutLeg → Result RailError PreparedPayout
  pub broadcast_pool_payout : ℕ → PreparedPayout → Result RailError (Unit {0})
  pub pool_payout_status : ℕ → PreparedPayout → Result RailError Verdict
  pub operator_pool_payout_status : ℕ → PreparedPayout → Result RailError Verdict
  pub classify_by_logical_id : ℕ → OutboxHandle → Result RailError Verdict
  pub finalized_block_height : ℕ → Result RailError (Option ℕ)
  pub dispatch_pool_payouts : ℕ → List PendingPayoutLeg → Result RailError DispatchResult
  pub maintain_pool_payout : ℕ → PendingPayoutLeg → Verdict → Result RailError (Unit {0})

-- Calls of a rail that give no answer.
pub data RailCall : Type 0 where
  binds : String → String → RailCall
  suppresses : String → RailCall

pub data QueueError : Type 0 where
  in_ledger : LedgerError → QueueError
  in_pending : PendingError → QueueError
  in_cohorts : CohortError → QueueError
  in_rail : RailError → QueueError
  not_configured group_not_found leg_not_found : QueueError
  no_legs_given duplicate_legs amount_not_positive : QueueError
  identity_omitted not_uncertain lacks_signed_tx signature_mismatch not_canonical : QueueError
  lacks_nonce attestation_required lacks_expiry not_expired not_authoritative : QueueError

-- The options of the gate. The quantile is the fraction `quantile_num / quantile_den`.
pub record GateOptions : Type 0 where
  pub enabled : Bool
  pub k_eff_target : ℕ
  pub max_hold_ms : ℕ
  pub adaptive : Bool
  pub ceiling : ℕ
  pub window_ms : ℕ
  pub min_samples : ℕ
  pub quantile_num : ℕ
  pub quantile_den : ℕ
  pub claim_ttl_ms : ℕ

-- The options of the constructor and what is outside: the ledger's options, the clock, what each
-- call of the ledger draws, and whether each write of a file succeeds. The number is that of the call.
pub record QueueEnv : Type 0 where
  pub config : Config
  pub now : ℕ → ℕ
  pub ledger : ℕ → Env
  pub persists : ℕ → Write
  pub random_hex : ℕ → String
  pub draws : ℕ → ℕ → ℕ × ℕ
  pub gate : GateOptions
  pub max_attempts : ℕ

pub record QueueWorld : Type 0 where
  pub ledger : World
  pub pending : PendingWorld
  pub cohorts : CohortWorld
  pub cohorts_by_id : Dict CohortRecord
  pub samples : Dict (List KEffSample)
  pub k_eff_samples : List KEffSample
  pub rail_calls : List RailCall
  pub tick : ℕ

abbrev pub QueueAction : Type 0 → Type 0
QueueAction = Action QueueWorld QueueError

-- The monad of the queue. Its operations are shut, so that rules for them apply to a whole block.
infixl 5 ◌>>=◌ ◌>>◌
unfoldable pub ◌>>=◌ : {A B : Type 0} → QueueAction A → (A → QueueAction B) → QueueAction B
◌>>=◌ m f w = let (r, w') = m w in continue r f w'

abbrev pub ◌>>◌ : {A B : Type 0} → QueueAction A → QueueAction B → QueueAction B
m >> k = m >>= λ _. k

unfoldable pub pure : {A : Type 0} → A → QueueAction A
pure a w = (ok a, w)

unfoldable pub throw : {A : Type 0} → QueueError → QueueAction A
throw e w = (err e, w)

unfoldable pub gets : {A : Type 0} → (QueueWorld → A) → QueueAction A
gets f w = (ok (f w), w)

unfoldable pub throw_if : Bool → QueueError → QueueAction (Unit {0})
throw_if b e w = if b then (err e, w) else (ok tt, w)

abbrev pub raised : {E A : Type 0} → (E → QueueError) → Result E A → Result QueueError A
raised f (ok a) = ok a
raised f (err e) = err (f e)

-- A step into the ledger, the journal or the book; its error passes through.
unfoldable pub in_the_ledger : {A : Type 0} → QueueEnv → (Env → LedgerAction A) → QueueAction A
in_the_ledger env m w =
    let (r, l) = m (env.ledger w.tick) w.ledger in
    (raised in_ledger r, record w { ledger = l; tick = suc w.tick })

unfoldable pub in_the_journal : {A : Type 0} → QueueEnv → (Write → PendingAction A) → QueueAction A
in_the_journal env m w =
    let (r, p) = m (env.persists w.tick) w.pending in
    (raised in_pending r, record w { pending = p; tick = suc w.tick })

unfoldable pub in_the_book : {A : Type 0} → QueueEnv → (Write → CohortAction A) → QueueAction A
in_the_book env m w =
    let (r, c) = m (env.persists w.tick) w.cohorts in
    (raised in_cohorts r, record w { cohorts = c; tick = suc w.tick })

-- An answer from outside, and one that may be an error.
unfoldable pub ask : {A : Type 0} → (ℕ → A) → QueueAction A
ask f w = (ok (f w.tick), record w { tick = suc w.tick })

unfoldable pub ask_rail : {A : Type 0} → (ℕ → Result RailError A) → QueueAction A
ask_rail f w = (raised in_rail (f w.tick), record w { tick = suc w.tick })

unfoldable pub tell : RailCall → QueueAction (Unit {0})
tell c w = (ok tt, record w { rail_calls = w.rail_calls ++ c ∷ [] })

abbrev pub handle :
    {A : Type 0} → (QueueError → QueueAction A) → Result QueueError A → QueueAction A
handle f (ok a) w = (ok a, w)
handle f (err e) w = f e w

-- `try { m } catch (error) { f }`; what `m` wrote stays written.
unfoldable pub catch : {A : Type 0} → QueueAction A → (QueueError → QueueAction A) → QueueAction A
catch m f w = let (r, w') = m w in handle f r w'

-- `normalizeAsset` and `groupAssetKey`
unfoldable pub normalize_asset : String → String → String
normalize_asset network asset = if str_eq network "solana" then asset else to_lower asset

unfoldable pub group_asset_key : PendingPayoutGroup → String
group_asset_key g = to_lower (g.network <> ":" <> normalize_asset g.network g.asset)
