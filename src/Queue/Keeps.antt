-- ===== src/Queue/Keeps.antt =====
-- Rules for blocks of the queue: each keeps the agreement of journal and ledger, and what is known of
-- the legs that the block goes on with.
use px.Prelude.Action.{Write}
use px.Prelude.{ℕ, String, ◌≡◌, ◌⊎◌, inl, inr, Bool, true, false, Option, some, List, if◌then◌else◌}
use px.Prelude.Action.{Result, ok, err, continue}
use px.Pending.State.{PendingPayoutLeg, PendingPayoutGroup, LegPatch, apply_patch, PendingAction}
use px.Pending.Methods.{patched, update_leg}
use px.Pending.Grows.{GroupsGrow, leg_at}
use px.Pending.Gens.{update_leg-Grows}
use px.Queue.State.{
  RailError, RailCall, QueueError, QueueEnv, QueueWorld, QueueAction, ◌>>=◌, pure, throw, gets,
  throw_if, in_the_journal, ask, ask_rail, tell, catch, handle,
}
use px.Queue.Flush.{attempt}
use px.Queue.Standing.{Unique}
use px.Queue.Agreement.{agree, leg_agrees, agree-patched, IsQuiet, quiet_agrees, update_leg-Became}

-- What is known of the journal's groups, and is not lost while no group goes.
pub record Knowledge : Type 1 where
  pub Known : List PendingPayoutGroup → Type 0
  pub lasts : (gs gs' : List PendingPayoutGroup) → Known gs → GroupsGrow gs gs' → Known gs'

module _ (env : QueueEnv) (K : Knowledge) where
  pub record Holds (w : QueueWorld) : Type 0 where
    pub unique : Unique env.config w.ledger.memory
    pub agrees : agree env.config w.ledger.memory w.pending.memory ≡ true
    pub known : K.Known w.pending.memory

  -- An action after which all this still holds, whether it returned or threw.
  unfoldable pub Keeps : {A : Type 0} → QueueAction A → Type 0
  Keeps m = (w : QueueWorld) → Holds w → Holds (m w).1

  pub bind-Keeps :
      {A B : Type 0} (m : QueueAction A) (f : A → QueueAction B)
      → Keeps m
      → ((a : A) → Keeps (f a))
      → Keeps (m >>= f)
  unfolding ◌>>=◌ Keeps
  bind-Keeps {A} {B} m f first later w h = go (m w).0 (m w).1 (first w h)
    where
      go : (r : Result QueueError A) (w' : QueueWorld) → Holds w' → Holds (continue r f w').1
      go (ok a) w' k = later a w' k
      go (err e) w' k = k

  pub pure-Keeps : {A : Type 0} (a : A) → Keeps (pure a)
  unfolding pure Keeps
  pure-Keeps a w h = h

  pub throw-Keeps : (A : Type 0) (e : QueueError) → Keeps (throw {A = A} e)
  unfolding throw Keeps
  throw-Keeps A e w h = h

  pub gets-Keeps : {A : Type 0} (f : QueueWorld → A) → Keeps (gets f)
  unfolding gets Keeps
  gets-Keeps f w h = h

  pub throw_if-Keeps : (b : Bool) (e : QueueError) → Keeps (throw_if b e)
  unfolding throw_if Keeps
  throw_if-Keeps true e w h = h
  throw_if-Keeps false e w h = h

  pub ask-Keeps : {A : Type 0} (f : ℕ → A) → Keeps (ask f)
  unfolding ask Keeps
  ask-Keeps f w h = record { unique = h.unique; agrees = h.agrees; known = h.known }

  pub ask_rail-Keeps : {A : Type 0} (f : ℕ → Result RailError A) → Keeps (ask_rail f)
  unfolding ask_rail Keeps
  ask_rail-Keeps f w h = record { unique = h.unique; agrees = h.agrees; known = h.known }

  pub tell-Keeps : (c : RailCall) → Keeps (tell c)
  unfolding tell Keeps
  tell-Keeps c w h = record { unique = h.unique; agrees = h.agrees; known = h.known }

  pub catch-Keeps :
      {A : Type 0} (m : QueueAction A) (f : QueueError → QueueAction A)
      → Keeps m
      → ((e : QueueError) → Keeps (f e))
      → Keeps (catch m f)
  unfolding catch Keeps
  catch-Keeps {A} m f first later w h = go (m w).0 (m w).1 (first w h)
    where
      go : (r : Result QueueError A) (w' : QueueWorld) → Holds w' → Holds (handle f r w').1
      go (ok a) w' k = k
      go (err e) w' k = later e w' k

  pub attempt-Keeps : {A : Type 0} (m : QueueAction A) → Keeps m → Keeps (attempt m)
  unfolding attempt Keeps
  attempt-Keeps m k w h = k w h

  pub if-Keeps :
      {A : Type 0} (b : Bool) (m n : QueueAction A) → Keeps m → Keeps n → Keeps (if b then m else n)
  if-Keeps true m n h k = h
  if-Keeps false m n h k = k

  -- A step of the journal that lets its groups grow and agrees.
  pub journal_step :
      {A : Type 0} (m : Write → PendingAction A) (w : QueueWorld)
      → Holds w
      → GroupsGrow w.pending.memory (m (env.persists w.tick) w.pending).1.memory
      → agree env.config w.ledger.memory (m (env.persists w.tick) w.pending).1.memory ≡ true
      → Holds (in_the_journal env m w).1
  unfolding in_the_journal
  journal_step m w h grows agrees = record {
    unique = h.unique;
    agrees = agrees;
    known = K.lasts w.pending.memory (m (env.persists w.tick) w.pending).1.memory h.known grows;
  }

  pub update_Holds :
      (group_ref : String) (index : ℕ) (patch : LegPatch) (gen : Option ℕ) (w : QueueWorld)
      → Holds w
      → ((leg : PendingPayoutLeg)
          → leg_at group_ref index w.pending.memory ≡ some leg
          → leg_agrees env.config w.ledger.memory (apply_patch patch leg) ≡ true)
      → Holds (in_the_journal env (λ persists. update_leg persists group_ref index patch gen) w).1
  update_Holds group_ref index patch gen w h fits =
      let s = w.ledger.memory in
      let gs = w.pending.memory in
      let persists = env.persists w.tick in
      journal_step (λ p. update_leg p group_ref index patch gen) w h
        (update_leg-Grows persists group_ref index patch gen w.pending)
        (go (update_leg persists group_ref index patch gen w.pending).1.memory
          (update_leg-Became persists group_ref index patch gen w.pending))
    where
      go :
          (gs' : List PendingPayoutGroup)
          → (gs' ≡ w.pending.memory) ⊎ (gs' ≡ patched group_ref index patch w.pending.memory)
          → agree env.config w.ledger.memory gs' ≡ true
      go gs' (inl e) = rw e h.agrees
      go gs' (inr e) = rw e (
          agree-patched env.config w.ledger.memory group_ref index patch w.pending.memory fits
            h.agrees)

  -- An update to a state that is not terminal.
  pub update-Keeps :
      (group_ref : String) (index : ℕ) (patch : LegPatch) (gen : Option ℕ)
      → IsQuiet patch
      → Keeps (in_the_journal env (λ persists. update_leg persists group_ref index patch gen))
  unfolding Keeps
  update-Keeps group_ref index patch gen quiet w h =
      update_Holds group_ref index patch gen w h
        (λ leg e. quiet_agrees env.config w.ledger.memory patch leg quiet)
