-- ===== src/Ledger/Outcome.antt =====
-- The contract of the methods that restore the state when the write of the file fails: all of a
-- known new ledger, in memory and on disk, or nothing in memory.
use mathlib.Core.Path.{subst}
use px.Prelude.{
  String, ◌≡◌, ◌⊎◌, refl, sym, inl, inr, Bool, true, false, Bool-cases, none, if◌then◌else◌,
}
use px.Prelude.Action.{Result, ok, err, throw_if, continue, ◌>>=◌, ◌>>◌}
use px.Journal.State.{Journal, JournalEntry, JournalError}
use px.Journal.Methods.{append}
pub mod Transfers
pub mod Payouts
pub mod Vouchers
use px.Ledger.State.{Ledger, Config, Env, World, LedgerError, LedgerAction}
use px.Ledger.Checks.{
  put, assert_conserved, assert_state, persist_or_restore, journal_append, append_result,
  state_error,
}
use px.Ledger.Accounts.{total_balance}
use px.Ledger.Vouchers.{commit_checked}
use px.Prelude.Int.{eq_ℤ_refl}

err-ok : {A : Type 0} (e : LedgerError) (a : A) → err e ≡ ok a → ⊥
err-ok e a h = cc

abbrev answered : {A : Type 0} → A → Result LedgerError A
answered a = ok a

ok-injective : {A : Type 0} (b a : A) → answered b ≡ answered a → b ≡ a
ok-injective b a h = cc

-- How a call that began at `w` ended: refused, answered from what is there, committed to the ledger
-- that `next` gives for the journal's epoch, where `Allowed` held, or ended by a failed write of that
-- ledger, which may be on disk already. `Says` relates the answer
-- to whether anything changed.
pub data Outcome {A : Type 0} (Says : A → Bool → Type 0) (Allowed : Type 0) (next : String → Ledger)
    (w : World) : Result LedgerError A × World → Type 0 where
  refused :
      (e : LedgerError) (j : Journal)
      → Outcome Says Allowed next w (err e, record w { journal = j })
  unchanged : (a : A) → Says a false → Outcome Says Allowed next w (ok a, w)
  unwritten :
      (e : LedgerError) (epoch : String) (j : Journal) (replaced : Bool)
      → Allowed
      → Outcome Says Allowed next w
          (err e, record w { disk = if replaced then next epoch else w.disk; journal = j })
  committed :
      (a : A) (epoch : String) (j : Journal)
      → Allowed
      → Says a true
      → Outcome Says Allowed next w
          (ok a, record w { memory = next epoch; disk = next epoch; journal = j })

module _ {A : Type 0} {Says : A → Bool → Type 0} {Allowed : Type 0} {next : String → Ledger}
    {w : World} where
  pub Outcome-throw_if :
      (b : Bool) (e : LedgerError) (k : LedgerAction A)
      → (b ≡ false → Outcome Says Allowed next w (k w))
      → Outcome Says Allowed next w ((throw_if b e >> k) w)
  Outcome-throw_if true e k h = refused e w.journal
  Outcome-throw_if false e k h = h refl

  pub Outcome-if :
      (b : Bool) (m n : LedgerAction A)
      → (b ≡ true → Outcome Says Allowed next w (m w))
      → (b ≡ false → Outcome Says Allowed next w (n w))
      → Outcome Says Allowed next w ((if b then m else n) w)
  Outcome-if true m n hm hn = hm refl
  Outcome-if false m n hm hn = hn refl

  -- A journal that fails ends the call; one that answers is followed by the rest.
  pub Outcome-journal_append :
      (cfg : Config) (env : Env) (asset : String) (entry : JournalEntry)
      (k : String → LedgerAction A)
      → ((epoch : String) (j : Journal)
          → Outcome Says Allowed next w (k epoch (record w { journal = j })))
      → Outcome Says Allowed next w ((journal_append cfg env asset entry >>= k) w)
  Outcome-journal_append cfg env asset entry k h =
      go (append cfg.cipher env.journal asset entry w.journal)
    where
      go :
          (p : Result JournalError String × Journal)
          → Outcome Says Allowed next w
              (continue (append_result p.0) k (record w { journal = p.1 }))
      go (ok epoch, j) = h epoch j
      go (err e, j) = refused _ j

  -- The end of a method: the new ledger stands in memory, and the file is written or memory restored.
  pub Outcome-persist :
      (env : Env) (epoch : String) (j : Journal) (f : World → A)
      → Allowed
      → ((u : World) → Says (f u) true)
      → Outcome Says Allowed next w (
          (persist_or_restore env w.memory >>= λ _ w'. (ok (f w'), w'))
            (record w { memory = next epoch; journal = j }))
  Outcome-persist env epoch j f g says = elim (Bool-cases env.persists) [
    | inl yes_written ↦ rw yes_written (committed _ epoch j g (says _))
    | inr failed ↦ rw failed (unwritten _ epoch j env.replaces g)
  ]

  -- The same with `assertConserved` first, which passes where the sum is kept.
  pub Outcome-conserved :
      (env : Env) (asset epoch : String) (j : Journal) (f : World → A)
      → Allowed
      → ((u : World) → Says (f u) true)
      → total_balance asset (next epoch) ≡ total_balance asset w.memory
      → Outcome Says Allowed next w (
          (assert_conserved asset (total_balance asset w.memory) >>= λ _.
          persist_or_restore env w.memory >>= λ _ w'. (ok (f w'), w'))
            (record w { memory = next epoch; journal = j }))
  Outcome-conserved env asset epoch j f g says e =
      rw (e, eq_ℤ_refl (total_balance asset w.memory)) (Outcome-persist env epoch j f g says)

  pub Outcome-commit_checked :
      (env : Env) (asset epoch : String) (f : World → A)
      → Allowed
      → ((u : World) → Says (f u) true)
      → total_balance asset (next epoch) ≡ total_balance asset w.memory
      → state_error (next epoch) ≡ none
      → Outcome Says Allowed next w
          ((commit_checked env asset (next epoch) >>= λ _ w'. (ok (f w'), w')) w)
  unfolding commit_checked
  Outcome-commit_checked env asset epoch f g says e v =
      rw (e, eq_ℤ_refl (total_balance asset w.memory), v)
        (Outcome-persist env epoch w.journal f g says)

-- A method that returns nothing ends with the write.
pub Outcome-last :
    {Says : Unit {0} → Bool → Type 0} {Allowed : Type 0} {next : String → Ledger} {w : World}
    (env : Env) (epoch : String) (j : Journal)
    → Allowed
    → Says tt true
    → Outcome Says Allowed next w
        (persist_or_restore env w.memory (record w { memory = next epoch; journal = j }))
Outcome-last env epoch j g says = elim (Bool-cases env.persists) [
  | inl written ↦ rw written (committed tt epoch j g says)
  | inr failed ↦ rw failed (unwritten _ epoch j env.replaces g)
]

-- What both branches have, the whole has.
pub if_either {ℓ κ} :
    {A : Type ℓ} (P : A → Type κ) (b : Bool) {x y : A} → P x → P y → P (if b then x else y)
if_either P true p q = p
if_either P false p q = q

-- A property of ledgers that the new ledger has holds of both copies after the call.
pub Outcome-both {ℓ} :
    (P : Ledger → Type ℓ) {A : Type 0} {Says : A → Bool → Type 0} {Allowed : Type 0}
    {next : String → Ledger} {w : World} {r : Result LedgerError A × World}
    → Outcome Says Allowed next w r
    → (Allowed → (epoch : String) → P (next epoch))
    → P w.memory × P w.disk
    → P r.1.memory × P r.1.disk
Outcome-both P (refused e j) new h = h
Outcome-both P (unchanged a says) new h = h
Outcome-both P (unwritten e epoch j replaced g) new h =
    (h.0, if_either P replaced (new g epoch) h.1)
Outcome-both P (committed a epoch j g says) new h = (new g epoch, new g epoch)

module _ {A : Type 0} {Says : A → Bool → Type 0} {Allowed : Type 0} {next : String → Ledger}
    {w : World} where
  -- An answer that cannot go with an unchanged ledger comes with the new one.
  pub Outcome-changed :
      {r : Result LedgerError A × World}
      → Outcome Says Allowed next w r
      → (a : A) → r.0 ≡ ok a
      → (Says a false → ⊥)
      → Allowed
        × (epoch : String) × (r.1.memory ≡ next epoch)
        × (r.1.disk ≡ next epoch)
        × Says a true
  Outcome-changed (refused e j) a same new = absurd (err-ok e a same)
  Outcome-changed (unchanged b says) a same new =
      absurd (new (subst (λ x. Says x false) (ok-injective b a same) says))
  Outcome-changed (unwritten e epoch j replaced g) a same new = absurd (err-ok e a same)
  Outcome-changed (committed b epoch j g says) a same new =
      (g, epoch, refl, refl, subst (λ x. Says x true) (ok-injective b a same) says)

  -- Where the guards cannot pass nothing changes.
  pub Outcome-same :
      {r : Result LedgerError A × World}
      → Outcome Says Allowed next w r
      → (Allowed → ⊥)
      → (r.1.memory ≡ w.memory) × (r.1.disk ≡ w.disk)
  Outcome-same (refused e j) never = (refl, refl)
  Outcome-same (unchanged b says) never = (refl, refl)
  Outcome-same (unwritten e epoch j replaced g) never = absurd (never g)
  Outcome-same (committed b epoch j g says) never = absurd (never g)

  -- The memory is as it was, or the file holds what the memory does.
  pub Outcome-atomic :
      {r : Result LedgerError A × World}
      → Outcome Says Allowed next w r
      → (r.1.memory ≡ w.memory) ⊎ (r.1.memory ≡ r.1.disk)
  Outcome-atomic (refused e j) = inl refl
  Outcome-atomic (unchanged b says) = inl refl
  Outcome-atomic (unwritten e epoch j replaced g) = inl refl
  Outcome-atomic (committed b epoch j g says) = inr refl
