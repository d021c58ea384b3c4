-- ===== src/Queue/Claims.antt =====
-- `concentrationFor` and `claim`: what the owner of a group is told.
use px.Prelude.{
  ℕ, max, String, Bool, Option, none, some, List, [], ◌∷◌, map, find, ltb, if◌then◌else◌,
}
use px.Prelude.Text.{str_eq}
use px.Prelude.Int.{ℤ}
use px.Pending.State.{
  LegState, GroupState, ChainStatus, PayoutMode, PendingPayoutLeg, PendingPayoutGroup,
}
use px.Pending.Methods.{by_ref}
use px.Cohorts.Book.{CohortMember, LandingSpread, CohortRecord}
use px.Queue.State.{gets, QueueAction}
use px.Queue.Cohorts.{cohorts_of}

pub record Concentration : Type 0 where
  pub realized_k_eff : ℕ
  pub held_ms : ℕ
  pub landing_spread_blocks : Option ℕ
  pub broadcast_spread_ms : Option ℕ

abbrev pub is_member : String → CohortMember → Bool
is_member group_ref m = str_eq m.group_ref group_ref

abbrev pub lower : ℕ → ℕ → ℕ
lower m n = if ltb n m then n else m

-- The greatest of the measured values.
abbrev pub wider : Option ℕ → Option ℕ → Option ℕ
wider known none = known
wider none (some n) = some n
wider (some m) (some n) = some (max m n)

abbrev pub blocks_of : Option LandingSpread → Option ℕ
blocks_of none = none
blocks_of (some s) = some s.spread_blocks

-- What one resolved cohort adds; `none` is the start, before any cohort of the group.
abbrev pub weaker : Option Concentration → ℕ → CohortMember → CohortRecord → Concentration
weaker none k m c = record {
  realized_k_eff = k;
  held_ms = m.held_ms;
  landing_spread_blocks = blocks_of c.landing_spread;
  broadcast_spread_ms = c.broadcast_spread_ms;
}
weaker (some r) k m c = record {
  realized_k_eff = lower r.realized_k_eff k;
  held_ms = max r.held_ms m.held_ms;
  landing_spread_blocks = wider r.landing_spread_blocks (blocks_of c.landing_spread);
  broadcast_spread_ms = wider r.broadcast_spread_ms c.broadcast_spread_ms;
}

-- One round: the result so far, or `none` where the source returns, at a cohort of the group that is
-- not resolved.
abbrev pub told_at :
    Option Concentration → CohortMember → CohortRecord → Option ℕ → Option (Option Concentration)
told_at r m c none = none
told_at r m c (some k) = some (some (weaker r k m c))

abbrev pub told :
    Option Concentration → CohortRecord → Option CohortMember → Option (Option Concentration)
told r c none = some r
told r c (some m) = told_at r m c c.realized_k_eff

abbrev pub unless_silent :
    Option (Option Concentration)
    → (Option Concentration → Option Concentration)
    → Option Concentration
unless_silent none rest = none
unless_silent (some r) rest = rest r

-- The loop of `concentrationFor`.
unfoldable pub weakest : String → Option Concentration → List CohortRecord → Option Concentration
weakest group_ref r [] = r
weakest group_ref r (c ∷ cs) =
    unless_silent (told r c (find (is_member group_ref) c.members)) (λ r'. weakest group_ref r' cs)

-- `concentrationFor`
abbrev pub concentration_for : String → List CohortRecord → Option Concentration
concentration_for group_ref cs = weakest group_ref none cs

pub record LegClaim : Type 0 where
  pub index : ℕ
  pub state : LegState
  pub chain_status : Option ChainStatus
  pub mode : Option PayoutMode
  pub transaction_hash : Option String
  pub recipient : String
  pub amount_atomic : ℤ
  pub terminal_at : Option ℕ

-- `PayoutGroupClaim`; a group that is unknown has no state and no network.
pub record PayoutGroupClaim : Type 0 where
  pub group_ref : String
  pub group_state : Option GroupState
  pub network : Option String
  pub legs : List LegClaim
  pub concentration : Option Concentration

abbrev pub leg_claim : PendingPayoutLeg → LegClaim
leg_claim leg = record {
  index = leg.index;
  state = leg.state;
  chain_status = leg.chain_status;
  mode = leg.mode;
  transaction_hash = leg.transaction_hash;
  recipient = leg.recipient;
  amount_atomic = leg.amount_atomic;
  terminal_at = leg.terminal_at;
}

abbrev pub claim_found : String → List CohortRecord → Option PendingPayoutGroup → PayoutGroupClaim
claim_found group_ref cs none = record {
  group_ref = group_ref;
  group_state = none;
  network = none;
  legs = [];
  concentration = none;
}
claim_found group_ref cs (some group) = record {
  group_ref = group_ref;
  group_state = some group.group_state;
  network = some group.network;
  legs = map leg_claim group.legs;
  concentration = concentration_for group_ref cs;
}

-- `claim`
unfoldable pub claim : String → QueueAction PayoutGroupClaim
claim group_ref =
    gets (λ w. claim_found group_ref (cohorts_of w) (by_ref group_ref w.pending.memory))
