-- ===== src/Pending/Calls.antt =====
-- The methods of the journal as calls, one after another as `serialize` queues them, each with the
-- success of its write.
use px.Prelude.Action.{Write}
use px.Prelude.{ℕ, String, Option, List, [], ◌∷◌}
use px.Pending.State.{GroupState, PendingPayoutGroup, LegPatch, PendingWorld}
use px.Pending.Methods.{put_group, update_leg}
use px.Pending.Marks.{set_group_state, mark_evidence_counted, prune_groups}

pub data PendingCall : Type 0 where
  puts : PendingPayoutGroup → PendingCall
  updates : String → ℕ → LegPatch → Option ℕ → PendingCall
  sets : String → GroupState → Option ℕ → PendingCall
  marks : List String → ℕ → PendingCall
  prunes : ℕ → PendingCall

-- The world after a call, whether it returned or threw.
unfoldable pub pending_step : Write → PendingCall → PendingWorld → PendingWorld
pending_step persists (puts group) w = (put_group persists group w).1
pending_step persists (updates group_ref index patch expect_gen) w =
    (update_leg persists group_ref index patch expect_gen w).1
pending_step persists (sets group_ref state terminal_at) w =
    (set_group_state persists group_ref state terminal_at w).1
pending_step persists (marks wanted at_ms) w = (mark_evidence_counted persists wanted at_ms w).1
pending_step persists (prunes now) w = (prune_groups persists now w).1

unfoldable pub pending_run : List (Write × PendingCall) → PendingWorld → PendingWorld
pending_run [] w = w
pending_run ((persists, call) ∷ calls) w = pending_run calls (pending_step persists call w)
