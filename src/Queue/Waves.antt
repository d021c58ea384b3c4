-- ===== src/Queue/Waves.antt =====
-- Waves of a dispatch keep the agreement.
use px.Prelude.{◌+◌, refl, Bool, true, false, some, List, [], ◌∷◌}
use px.Prelude.Action.{Result, ok, err, continue}
use px.Pending.State.{LegState, PendingPayoutLeg, PendingPayoutGroup}
use px.Ledger.Reversals.{find_payout_transfer}
use px.Queue.State.{
  Rail, binds, suppresses, QueueError, QueueEnv, QueueWorld, QueueAction, ◌>>=◌, pure,
}
use px.Queue.Flush.{matches}
use px.Queue.Dispatch.{Candidate, Claimed, kept_if, claim_matched, claim_wave, both}
use px.Queue.Keeps.{
  Knowledge, Holds, Keeps, bind-Keeps, pure-Keeps, gets-Keeps, tell-Keeps, update-Keeps,
}
use px.Queue.Blocks.{Picks}

abbrev pub Yields : {A : Type 0} → (A → Type 0) → Result QueueError A → Type 0
Yields P (ok a) = P a
Yields P (err e) = Unit

-- What an action returns, when it does.
unfoldable pub Returns : {A : Type 0} → (A → Type 0) → QueueAction A → Type 0
Returns P m = (w : QueueWorld) → Yields P (m w).0

pub bind-Returns :
    {A B : Type 0} (P : A → Type 0) (Q : B → Type 0) (m : QueueAction A) (f : A → QueueAction B)
    → Returns P m
    → ((a : A) → P a → Returns Q (f a))
    → Returns Q (m >>= f)
unfolding Returns ◌>>=◌
bind-Returns {A} {B} P Q m f first later w = go (m w).0 (m w).1 (first w)
  where
    go : (r : Result QueueError A) (w' : QueueWorld) → Yields P r → Yields Q (continue r f w').0
    go (ok a) w' h = later a h w'
    go (err e) w' h = tt

pub any-Returns : {A : Type 0} (m : QueueAction A) → Returns (λ a. Unit {0}) m
unfolding Returns
any-Returns {A} m w = go (m w).0
  where
    go : (r : Result QueueError A) → Yields (λ a. Unit {0}) r
    go (ok a) = tt
    go (err e) = tt

pub pure-Returns : {A : Type 0} (P : A → Type 0) (a : A) → P a → Returns P (pure a)
unfolding Returns pure
pure-Returns P a h w = h

module _ (env : QueueEnv) (K : Knowledge) where
  -- The knowledge names every leg of a wave, or of the candidates for one.
  abbrev pub AllPicked : List Candidate → Type 0
  AllPicked [] = Unit
  AllPicked ((group, leg) ∷ cs) = Picks K group leg × AllPicked cs

  abbrev pub WavePicked : List Claimed → Type 0
  WavePicked [] = Unit
  WavePicked ((group, leg, gen) ∷ cs) = Picks K group leg × WavePicked cs

  both-WavePicked :
      (as' bs : List Claimed) → WavePicked as' → WavePicked bs → WavePicked (both as' bs)
  both-WavePicked [] bs h k = k
  both-WavePicked (a ∷ as') bs (h, hs) k = (h, both-WavePicked as' bs hs k)

  -- A binding that keeps the agreement, with what its first part returns.
  pub bind_knowing-Keeps :
      {A B : Type 0} (P : A → Type 0) (m : QueueAction A) (f : A → QueueAction B)
      → Keeps env K m
      → Returns P m
      → ((a : A) → P a → Keeps env K (f a))
      → Keeps env K (m >>= f)
  unfolding Returns ◌>>=◌ Keeps
  bind_knowing-Keeps {A} {B} P m f first returns later w h =
      go (m w).0 (m w).1 (first w h) (returns w)
    where
      go :
          (r : Result QueueError A) (w' : QueueWorld)
          → Holds env K w'
          → Yields P r
          → Holds env K (continue r f w').1
      go (ok a) w' k p = later a p w' k
      go (err e) w' k p = k

  claim_matched-Keeps :
      (rail : Rail) (group : PendingPayoutGroup) (leg : PendingPayoutLeg) (b : Bool)
      → Keeps env K (claim_matched env rail group leg b)
  claim_matched-Keeps rail group leg false =
      bind-Keeps env K _ _ (tell-Keeps env K (suppresses leg.logical_id)) (λ a.
        bind-Keeps env K _ _
          (update-Keeps env K group.group_ref leg.index _ (some leg.gen)
            (LegState.uncertain, refl, refl))
          (λ c. pure-Keeps env K []))
  claim_matched-Keeps rail group leg true =
      bind-Keeps env K _ _ (tell-Keeps env K (binds leg.logical_id leg.payout_ref)) (λ a.
        bind-Keeps env K _ _
          (update-Keeps env K group.group_ref leg.index _ (some leg.gen)
            (LegState.broadcasting, refl, refl))
          (λ c. pure-Keeps env K _))

  claim_matched-Returns :
      (rail : Rail) (group : PendingPayoutGroup) (leg : PendingPayoutLeg) (b : Bool)
      → Picks K group leg
      → Returns WavePicked (claim_matched env rail group leg b)
  claim_matched-Returns rail group leg false picks =
      bind-Returns _ WavePicked _ _ (any-Returns _) (λ a h.
        bind-Returns _ WavePicked _ _ (any-Returns _) (λ c k. pure-Returns WavePicked [] tt))
  claim_matched-Returns rail group leg true picks =
      bind-Returns _ WavePicked _ _ (any-Returns _) (λ a h.
        bind-Returns _ WavePicked _ _ (any-Returns _) (λ c k. pure-Returns WavePicked _ (go c)))
    where
      go : (c : Bool) → WavePicked (kept_if c (group, leg, leg.gen + 1))
      go true = (picks, tt)
      go false = tt

  pub claim_wave-Keeps :
      (rail : Rail) (candidates : List Candidate) → Keeps env K (claim_wave env rail candidates)
  unfolding claim_wave
  claim_wave-Keeps rail [] = pure-Keeps env K []
  claim_wave-Keeps rail ((group, leg) ∷ candidates) =
      bind-Keeps env K _ _ (gets-Keeps env K _) (λ s.
        bind-Keeps env K _ _
          (claim_matched-Keeps rail group leg
            (matches group leg (find_payout_transfer env.config leg.payout_ref s)))
          (λ mine.
            bind-Keeps env K _ _ (claim_wave-Keeps rail candidates)
              (λ rest. pure-Keeps env K (both mine rest))))

  pub claim_wave-Returns :
      (rail : Rail) (candidates : List Candidate)
      → AllPicked candidates
      → Returns WavePicked (claim_wave env rail candidates)
  unfolding claim_wave
  claim_wave-Returns rail [] h = pure-Returns WavePicked [] tt
  claim_wave-Returns rail ((group, leg) ∷ candidates) (picks, rest) =
      bind-Returns _ WavePicked _ _ (any-Returns _) (λ s u.
        bind-Returns WavePicked WavePicked _ _
          (claim_matched-Returns rail group leg
            (matches group leg (find_payout_transfer env.config leg.payout_ref s)) picks)
          (λ mine p.
            bind-Returns WavePicked WavePicked _ _ (claim_wave-Returns rail candidates rest)
              (λ others q.
                pure-Returns WavePicked (both mine others) (both-WavePicked mine others p q))))
