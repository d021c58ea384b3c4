-- ===== src/Cohorts/Matches.antt =====
-- What the book writes and keeps is what its map promises.
use px.Prelude.Action.{Write, write_done, write_failed}
use px.Prelude.{
  ℕ, ◌≡◌, refl, ap, Bool, true, false, Option, none, some, List, [], ◌∷◌, if◌then◌else◌, is_some,
  arith,
}
use px.Cohorts.Book.{
  CohortRecord, CohortMember, first_of, past, Spread, is_no_members, resolved, is_kept,
}
use px.Cohorts.Spec.{if_members, measured, closed, close_unless, settled_once, is_over, unless_past}
use px.Cohorts.Views.{unless}

measured-first_of : {A : Type 0} (new old : Option A) → first_of new old ≡ measured new old
measured-first_of none old = refl
measured-first_of (some new) old = refl

-- The record that the code writes is the one that is promised.
resolved-closed :
    (k_eff at : ℕ) (spread : Spread) (c : CohortRecord)
    → resolved k_eff at spread c ≡ closed k_eff at spread c
resolved-closed k_eff at spread c = rw (
  measured-first_of spread.landing_spread c.landing_spread,
  measured-first_of spread.broadcast_spread_ms c.broadcast_spread_ms,
)

-- Closing a record without a result is what the code does to it.
pub changed-settled_once :
    (k_eff at : ℕ) (spread : Spread) (c : CohortRecord)
    → is_some c.realized_k_eff ≡ false
    → some (resolved k_eff at spread c) ≡ settled_once write_done k_eff at spread (some c)
changed-settled_once k_eff at spread c unset = go c.realized_k_eff unset
  where
    go :
        (o : Option ℕ)
        → is_some o ≡ false
        → some (resolved k_eff at spread c) ≡ some (close_unless o write_done k_eff at spread c)
    go none h = ap some (resolved-closed k_eff at spread c)
    go (some known) h = cc

pub unwritten-settled_once :
    (replaced : Bool) (k_eff at : ℕ) (spread : Spread) (c : CohortRecord)
    → some c ≡ settled_once (write_failed replaced) k_eff at spread (some c)
unwritten-settled_once replaced k_eff at spread c = go c.realized_k_eff
  where
    go : (o : Option ℕ) → some c ≡ some (close_unless o (write_failed replaced) k_eff at spread c)
    go none = refl
    go (some known) = refl

pub known-settled_once :
    (written : Write) (k_eff at : ℕ) (spread : Spread) (c : CohortRecord)
    → is_some c.realized_k_eff ≡ true
    → some c ≡ settled_once written k_eff at spread (some c)
known-settled_once written k_eff at spread c known = go c.realized_k_eff known
  where
    go :
        (o : Option ℕ) → is_some o ≡ true → some c ≡ some (close_unless o written k_eff at spread c)
    go none h = cc
    go (some k) h = refl

kept-is_over :
    (horizon : ℕ) (o : Option ℕ) (c : CohortRecord)
    → (if past horizon o then some c else none) ≡ (if is_over horizon o then none else some c)
kept-is_over horizon none c = refl
kept-is_over horizon (some at) c = ground arith

pub unless-unless_past :
    (horizon : ℕ) (o : Option CohortRecord) → unless (is_kept horizon) o ≡ unless_past horizon o
unless-unless_past horizon none = refl
unless-unless_past horizon (some c) = kept-is_over horizon c.terminal_at c

pub members-if_members :
    (ms : List CohortMember) (c : CohortRecord)
    → (is_no_members ms ≡ true → none ≡ if_members ms c)
      × (is_no_members ms ≡ false → some c ≡ if_members ms c)
members-if_members [] c = (λ h. refl, λ h. cc)
members-if_members (m ∷ ms) c = (λ h. cc, λ h. refl)
