-- ===== src/Cohorts/Book.antt =====
-- The records of cohorts, and the methods of the book. A call is given whether its write of the
-- file succeeds. `put` and `prune` leave the state in memory changed when the write fails, and
-- `resolve` restores it.
use px.Prelude.Action.{Write, write_done, write_failed, on_disk}
use px.Prelude.{
  ℕ, zero, suc, ◌-◌, String, Bool, true, false, not, ◌&&◌, ◌==◌, Option, none, some, List, [], ◌∷◌,
  ◌++◌, any, find, keep, update_first, length, is_some, ltb, if◌then◌else◌,
}
use px.Prelude.Text.{str_eq}
use px.Prelude.Action.{ok, err, Action, pure, throw, gets, throw_if, modify, ◌>>=◌, ◌>>◌}

pub data CohortKind : Type 0 where
  cohort forced exact : CohortKind

pub record CohortMember : Type 0 where
  pub group_ref : String
  pub leg_index : ℕ
  pub owner_ref : String
  pub lane_key : Option String
  pub held_ms : ℕ

pub record LandingSpread : Type 0 where
  pub min_block : ℕ
  pub max_block : ℕ
  pub spread_blocks : ℕ

pub record CohortRecord : Type 0 where
  pub cohort_id : String
  pub network : String
  pub kind : CohortKind
  pub target_k : ℕ
  pub planned_k_eff : ℕ
  pub created_at : ℕ
  pub members : List CohortMember
  pub realized_k_eff : Option ℕ
  pub terminal_at : Option ℕ
  pub landing_spread : Option LandingSpread
  pub broadcast_spread_ms : Option ℕ

pub data CohortError : Type 0 where
  id_recorded no_members cohort_persist_failed cohort_file_invalid : CohortError

pub record CohortWorld : Type 0 where
  pub memory : List CohortRecord
  pub disk : List CohortRecord

abbrev pub CohortAction : Type 0 → Type 0
CohortAction = Action CohortWorld CohortError

abbrev pub has_id : String → CohortRecord → Bool
has_id cohort_id c = str_eq c.cohort_id cohort_id

-- `openFor`
abbrev pub open_for : String → List CohortRecord → List CohortRecord
open_for network cs = keep (λ c. str_eq c.network network && not (is_some c.realized_k_eff)) cs

-- `byGroup`
abbrev pub by_group : String → List CohortRecord → List CohortRecord
by_group group_ref cs = keep (λ c. any (λ m. str_eq m.group_ref group_ref) c.members) cs

-- The file gets what is in memory, or the write fails.
abbrev pub persist_cohorts : Write → CohortAction (Unit {0})
persist_cohorts write_done w = (ok tt, record w { disk = w.memory })
persist_cohorts (write_failed replaced) w =
    (err cohort_persist_failed, record w { disk = on_disk replaced w.memory w.disk })

abbrev pub is_no_members : List CohortMember → Bool
is_no_members [] = true
is_no_members (_ ∷ _) = false

abbrev pub push : CohortRecord → CohortWorld → CohortWorld
push c w = record w { memory = w.memory ++ c ∷ [] }

-- `put`
unfoldable pub put_cohort : Write → CohortRecord → CohortAction (Unit {0})
put_cohort persists c = do
  cs ← gets (λ w. w.memory)
  throw_if (any (has_id c.cohort_id) cs) id_recorded
  throw_if (is_no_members c.members) no_members
  modify (push c)
  persist_cohorts persists

pub record Spread : Type 0 where
  pub landing_spread : Option LandingSpread
  pub broadcast_spread_ms : Option ℕ

abbrev pub first_of : {A : Type 0} → Option A → Option A → Option A
first_of none b = b
first_of (some a) b = some a

abbrev pub resolved : ℕ → ℕ → Spread → CohortRecord → CohortRecord
resolved realized_k_eff terminal_at spread c = record c {
  realized_k_eff = some realized_k_eff;
  terminal_at = some terminal_at;
  landing_spread = first_of spread.landing_spread c.landing_spread;
  broadcast_spread_ms = first_of spread.broadcast_spread_ms c.broadcast_spread_ms;
}

-- The clone of the state before the change comes back when the write fails.
abbrev pub persist_or_back : Write → List CohortRecord → CohortAction (Unit {0})
persist_or_back write_done next w = (ok tt, record { memory = next; disk = next })
persist_or_back (write_failed replaced) next w =
    (err cohort_persist_failed, record w { disk = on_disk replaced next w.disk })

abbrev pub resolve_found : Write → String → ℕ → ℕ → Spread → Option CohortRecord → CohortAction Bool
resolve_found persists cohort_id realized_k_eff terminal_at spread none = pure false
resolve_found persists cohort_id realized_k_eff terminal_at spread (some c) =
    if is_some c.realized_k_eff then pure false else do
      cs ← gets (λ w. w.memory)
      persist_or_back persists
          (update_first (has_id cohort_id) (resolved realized_k_eff terminal_at spread) cs)
      pure true

-- `resolve`
unfoldable pub resolve_cohort : Write → String → ℕ → ℕ → Spread → CohortAction Bool
resolve_cohort persists cohort_id realized_k_eff terminal_at spread = do
  cs ← gets (λ w. w.memory)
  resolve_found persists cohort_id realized_k_eff terminal_at spread (find (has_id cohort_id) cs)

abbrev pub past : ℕ → Option ℕ → Bool
past before none = true
past before (some at) = ltb before at

abbrev pub is_kept : ℕ → CohortRecord → Bool
is_kept before c = past before c.terminal_at

abbrev pub drop_cohorts : Write → List CohortRecord → ℕ → CohortAction ℕ
drop_cohorts persists kept zero = pure 0
drop_cohorts persists kept (suc removed) = do
  modify (λ w. record w { memory = kept })
  persist_cohorts persists
  pure (suc removed)

-- `prune`
unfoldable pub prune_cohorts : Write → ℕ → CohortAction ℕ
prune_cohorts persists before = do
  cs ← gets (λ w. w.memory)
  let kept = keep (is_kept before) cs
  drop_cohorts persists kept (length cs - length kept)

abbrev loaded_cohorts : Bool → Bool → Write → Option (List CohortRecord) → CohortAction (Unit {0})
loaded_cohorts version_ok rewrite persists none = throw cohort_file_invalid
loaded_cohorts version_ok rewrite persists (some cs) = do
  throw_if (not version_ok) cohort_file_invalid
  modify (λ w. record w { memory = cs })
  if rewrite then persist_cohorts persists else pure tt

-- `load`, of the version and the list that the decrypted file has.
unfoldable pub load_cohorts :
    Bool → Write → ℕ → Option (List CohortRecord) → CohortAction (Unit {0})
load_cohorts rewrite persists version cs = loaded_cohorts (version == 1) rewrite persists cs

pub data CohortCall : Type 0 where
  puts_cohort : CohortRecord → CohortCall
  resolves : String → ℕ → ℕ → Spread → CohortCall
  prunes_cohorts : ℕ → CohortCall

-- The world after a call, whether it returned or threw.
unfoldable pub cohort_step : Write → CohortCall → CohortWorld → CohortWorld
cohort_step persists (puts_cohort c) w = (put_cohort persists c w).1
cohort_step persists (resolves cohort_id realized_k_eff terminal_at spread) w =
    (resolve_cohort persists cohort_id realized_k_eff terminal_at spread w).1
cohort_step persists (prunes_cohorts before) w = (prune_cohorts persists before w).1

-- `serialize`
unfoldable pub cohort_run : List (Write × CohortCall) → CohortWorld → CohortWorld
cohort_run [] w = w
cohort_run ((persists, call) ∷ calls) w = cohort_run calls (cohort_step persists call w)
