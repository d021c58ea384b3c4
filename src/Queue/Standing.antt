-- ===== src/Queue/Standing.antt =====
-- Where a payout stands in the ledger, and that what the queue calls of the ledger moves no payout
-- back.
use px.Prelude.{
  String, ◌≡◌, refl, Bool, true, false, not, Option, none, some, List, [], ◌∷◌, any, find, is_some,
  update_first, remove_first, Bool-cases, arith, inl, inr, if◌then◌else◌,
}
use px.Ledger.State.{Ledger, LedgerTransfer, Config}
use px.Ledger.Payouts.{is_payout_of}

abbrev pub settled_row : Option LedgerTransfer → Bool
settled_row none = false
settled_row (some t) = is_some t.settled_at

-- The payout is settled; or the ledger has none of that reference.
abbrev pub is_settled_in : Config → String → Ledger → Bool
is_settled_in cfg payout_ref s = settled_row (find (is_payout_of cfg payout_ref) s.transfers)

abbrev pub is_gone_from : Config → String → Ledger → Bool
is_gone_from cfg payout_ref s = not (is_some (find (is_payout_of cfg payout_ref) s.transfers))

abbrev pub once : (LedgerTransfer → Bool) → List LedgerTransfer → Bool
once p [] = true
once p (t ∷ ts) = if p t then not (any p ts) else once p ts

-- No reference has two payouts.
abbrev pub Unique : Config → Ledger → Type 0
Unique cfg s = (r : String) → once (is_payout_of cfg r) s.transfers ≡ true

-- What is settled stays settled, what is gone stays gone, and references stay unique.
pub record Follows (cfg : Config) (s s' : Ledger) : Type 0 where
  pub settled_stays : (r : String) → is_settled_in cfg r s ≡ true → is_settled_in cfg r s' ≡ true
  pub gone_stays : (r : String) → is_gone_from cfg r s ≡ true → is_gone_from cfg r s' ≡ true
  pub unique_stays :
      (r : String)
      → once (is_payout_of cfg r) s.transfers ≡ true
      → once (is_payout_of cfg r) s'.transfers ≡ true

pub Follows-refl : (cfg : Config) (s : Ledger) → Follows cfg s s
Follows-refl cfg s = record {
  settled_stays = λ r h. h;
  gone_stays = λ r h. h;
  unique_stays = λ r h. h;
}

-- Of a list with one element changed, which stays as it was for the test q.
module _ (p q : LedgerTransfer → Bool) (f : LedgerTransfer → LedgerTransfer)
    (same : (t : LedgerTransfer) → q (f t) ≡ q t) where
  pub any-updated : (ts : List LedgerTransfer) → any q (update_first p f ts) ≡ any q ts
  any-updated [] = refl
  any-updated (t ∷ ts) = ground (arith, same t, any-updated ts)

  pub once-updated : (ts : List LedgerTransfer) → once q (update_first p f ts) ≡ once q ts
  once-updated [] = refl
  once-updated (t ∷ ts) = ground (arith, same t, any-updated ts, once-updated ts)

  pub gone-updated :
      (ts : List LedgerTransfer) → is_some (find q (update_first p f ts)) ≡ is_some (find q ts)
  gone-updated [] = refl
  gone-updated (t ∷ ts) = ground (arith, same t, gone-updated ts)

  pub settled-updated :
      ((t : LedgerTransfer) → is_some (f t).settled_at ≡ true)
      → (ts : List LedgerTransfer) → settled_row (find q ts) ≡ true
      → settled_row (find q (update_first p f ts)) ≡ true
  settled-updated h [] e = e
  settled-updated h (t ∷ ts) e = ground (arith, same t, h t, settled-updated h ts)

pub settled-found :
    (p : LedgerTransfer → Bool) (f : LedgerTransfer → LedgerTransfer)
    → ((t : LedgerTransfer) → p (f t) ≡ p t)
    → ((t : LedgerTransfer) → is_some (f t).settled_at ≡ true)
    → (ts : List LedgerTransfer) → is_some (find p ts) ≡ true
    → settled_row (find p (update_first p f ts)) ≡ true
settled-found p f same h [] e = cc
settled-found p f same h (t ∷ ts) e = ground (arith, same t, h t, settled-found p f same h ts)

module _ (p q : LedgerTransfer → Bool) where
  any-removed : (ts : List LedgerTransfer) → any q ts ≡ false → any q (remove_first p ts) ≡ false
  any-removed [] h = refl
  any-removed (t ∷ ts) h = ground (arith, any-removed ts)

  once_of_none : (ts : List LedgerTransfer) → any q ts ≡ false → once q ts ≡ true
  once_of_none [] h = refl
  once_of_none (t ∷ ts) h = ground (arith, once_of_none ts)

  pub once-removed :
      (ts : List LedgerTransfer) → once q ts ≡ true → once q (remove_first p ts) ≡ true
  once-removed [] h = refl
  once-removed (t ∷ ts) h = ground (arith, once-removed ts, once_of_none ts, any-removed ts)

  pub gone-removed :
      (ts : List LedgerTransfer)
      → is_some (find q ts) ≡ false
      → is_some (find q (remove_first p ts)) ≡ false
  gone-removed [] h = refl
  gone-removed (t ∷ ts) h = ground (arith, gone-removed ts)

  -- What goes is not settled, so no settled payout is lost.
  pub settled-removed :
      (ts : List LedgerTransfer) (t : LedgerTransfer)
      → find p ts ≡ some t
      → is_some t.settled_at ≡ false
      → settled_row (find q ts) ≡ true
      → settled_row (find q (remove_first p ts)) ≡ true
  settled-removed [] t e h k = cc
  settled-removed (x ∷ ts) t e h k = elim (Bool-cases (p x)) [
    | inl here ↦
        let one : x ≡ t = ground arith in
        let unsettled : is_some x.settled_at ≡ false = rw one h in ground (arith, here, unsettled)
    | inr later ↦ ground (arith, later, settled-removed ts t)
  ]

any_of_gone :
    (p : LedgerTransfer → Bool) (ts : List LedgerTransfer)
    → any p ts ≡ false
    → is_some (find p ts) ≡ false
any_of_gone p [] h = refl
any_of_gone p (t ∷ ts) h = ground (arith, any_of_gone p ts)

pub gone-once :
    (p : LedgerTransfer → Bool) (ts : List LedgerTransfer)
    → once p ts ≡ true
    → is_some (find p (remove_first p ts)) ≡ false
gone-once p [] h = refl
gone-once p (t ∷ ts) h = ground (arith, any_of_gone p ts, gone-once p ts)
