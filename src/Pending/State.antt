-- ===== src/Pending/State.antt =====
-- The data of the pending payout journal, and the check of its whole state.
use px.Prelude.{
  ℕ, ◌+◌, String, Bool, true, false, ◌||◌, Option, none, List, [], ◌∷◌, any, or_else, if◌then◌else◌,
}
use px.Prelude.Int.{ℤ, pos, leb_ℤ}
use px.Prelude.Text.{str_eq}
use px.Prelude.Action.{Result, ok, err, Action}

pub data LegState : Type 0 where
  queued broadcasting settled failed uncertain : LegState

pub data GroupState : Type 0 where
  queued in_flight settled partial failed uncertain : GroupState

pub data ChainStatus : Type 0 where
  included finalized : ChainStatus

pub data PayoutMode : Type 0 where
  dry_run onchain : PayoutMode

pub data Strategy : Type 0 where
  single denominations : Strategy

pub record PendingPayoutLeg : Type 0 where
  pub index : ℕ
  pub payout_ref : String
  pub recipient : String
  pub amount_atomic : ℤ
  pub ephemeral_pub_key : Option String
  pub denomination_atomic : Option String
  pub state : LegState
  pub attempts : ℕ
  pub logical_id : String
  pub gen : ℕ
  pub signed_tx : Option String
  pub tx_id : Option String
  pub nonce : Option ℕ
  pub last_valid_block_height : Option ℕ
  pub context_slot : Option ℕ
  pub chain_status : Option ChainStatus
  pub mode : Option PayoutMode
  pub transaction_hash : Option String
  pub terminal_at : Option ℕ
  pub broadcast_at : Option ℕ
  pub landed_block : Option ℕ

-- `offchainChange` is `null` by its type, and has no field here.
pub record PendingPayoutGroup : Type 0 where
  pub group_ref : String
  pub owner_tag : String
  pub network : String
  pub asset : String
  pub strategy : Strategy
  pub plan_hash : String
  pub legs : List PendingPayoutLeg
  pub group_state : GroupState
  pub created_at : ℕ
  pub terminal_at : Option ℕ
  pub max_hold_ms : Option ℕ
  pub evidence_counted_at : Option ℕ

-- `Partial<PendingPayoutLeg>`: an absent key is `none`. A key of an optional field can also be
-- there with `undefined`, which is `some none`. A patch never has the key `gen`, which the update
-- overwrites.
pub record LegPatch : Type 0 where
  pub index : Option ℕ
  pub payout_ref : Option String
  pub logical_id : Option String
  pub recipient : Option String
  pub amount_atomic : Option ℤ
  pub ephemeral_pub_key : Option (Option String)
  pub denomination_atomic : Option (Option String)
  pub state : Option LegState
  pub attempts : Option ℕ
  pub signed_tx : Option (Option String)
  pub tx_id : Option (Option String)
  pub nonce : Option (Option ℕ)
  pub last_valid_block_height : Option (Option ℕ)
  pub context_slot : Option (Option ℕ)
  pub chain_status : Option (Option ChainStatus)
  pub mode : Option (Option PayoutMode)
  pub transaction_hash : Option (Option String)
  pub terminal_at : Option (Option ℕ)
  pub broadcast_at : Option (Option ℕ)
  pub landed_block : Option (Option ℕ)

abbrev pub no_patch : LegPatch
no_patch = record {
  index = none;
  payout_ref = none;
  logical_id = none;
  recipient = none;
  amount_atomic = none;
  ephemeral_pub_key = none;
  denomination_atomic = none;
  state = none;
  attempts = none;
  signed_tx = none;
  tx_id = none;
  nonce = none;
  last_valid_block_height = none;
  context_slot = none;
  chain_status = none;
  mode = none;
  transaction_hash = none;
  terminal_at = none;
  broadcast_at = none;
  landed_block = none;
}

-- `Object.assign(leg, patch, { gen: leg.gen + 1 })`
unfoldable pub apply_patch : LegPatch → PendingPayoutLeg → PendingPayoutLeg
apply_patch patch leg = record {
  index = or_else patch.index leg.index;
  payout_ref = or_else patch.payout_ref leg.payout_ref;
  recipient = or_else patch.recipient leg.recipient;
  amount_atomic = or_else patch.amount_atomic leg.amount_atomic;
  ephemeral_pub_key = or_else patch.ephemeral_pub_key leg.ephemeral_pub_key;
  denomination_atomic = or_else patch.denomination_atomic leg.denomination_atomic;
  state = or_else patch.state leg.state;
  attempts = or_else patch.attempts leg.attempts;
  logical_id = or_else patch.logical_id leg.logical_id;
  gen = leg.gen + 1;
  signed_tx = or_else patch.signed_tx leg.signed_tx;
  tx_id = or_else patch.tx_id leg.tx_id;
  nonce = or_else patch.nonce leg.nonce;
  last_valid_block_height = or_else patch.last_valid_block_height leg.last_valid_block_height;
  context_slot = or_else patch.context_slot leg.context_slot;
  chain_status = or_else patch.chain_status leg.chain_status;
  mode = or_else patch.mode leg.mode;
  transaction_hash = or_else patch.transaction_hash leg.transaction_hash;
  terminal_at = or_else patch.terminal_at leg.terminal_at;
  broadcast_at = or_else patch.broadcast_at leg.broadcast_at;
  landed_block = or_else patch.landed_block leg.landed_block;
}

pub data PendingError : Type 0 where
  group_exists_different group_not_found leg_not_found : PendingError
  index_immutable ref_immutable logical_id_immutable : PendingError
  group_invalid no_legs leg_ref_duplicated leg_invalid leg_amount_invalid : PendingError
  persist_failed file_invalid change_not_enabled : PendingError

-- The state in memory, and the file.
pub record PendingWorld : Type 0 where
  pub memory : List PendingPayoutGroup
  pub disk : List PendingPayoutGroup

abbrev pub PendingAction : Type 0 → Type 0
PendingAction = Action PendingWorld PendingError

-- The inner loop of `assertState`: the set of references grows from leg to leg.
unfoldable pub check_legs : List String → List PendingPayoutLeg → Result PendingError (List String)
check_legs refs [] = ok refs
check_legs refs (leg ∷ legs) =
    if any (str_eq leg.payout_ref) refs
    then err leg_ref_duplicated
    else if str_eq leg.logical_id ""
    then err leg_invalid
    else if leb_ℤ leg.amount_atomic (pos 0)
    then err leg_amount_invalid
    else check_legs (leg.payout_ref ∷ refs) legs

abbrev pub is_no_legs : List PendingPayoutLeg → Bool
is_no_legs [] = true
is_no_legs (_ ∷ _) = false

abbrev pub bad_group : PendingPayoutGroup → Bool
bad_group g = str_eq g.group_ref "" || str_eq g.owner_tag "" || str_eq g.plan_hash ""

-- The outer loop.
unfoldable pub check_groups :
    List String → List PendingPayoutGroup → Result PendingError (List String)
check_groups refs [] = ok refs
check_groups refs (g ∷ gs) =
    if bad_group g
    then err group_invalid
    else if is_no_legs g.legs
    then err no_legs
    else elim (check_legs refs g.legs) [ ok refs' ↦ check_groups refs' gs | err e ↦ err e ]

-- `assertState`
abbrev pub assert_pending : List PendingPayoutGroup → Result PendingError (List String)
assert_pending gs = check_groups [] gs
