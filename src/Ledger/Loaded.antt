-- ===== src/Ledger/Loaded.antt =====
-- `load` as a whole: the ledger that it leaves in memory.
use px.Prelude.{
  String, ◌≡◌, refl, sym, ◌∙◌, inl, inr, Bool, true, false, List, [], ◌∷◌, any, all, none,
  Bool-cases, Option-cases, arith,
}
use px.Prelude.Action.{Result, ok, err, continue, gets, ◌>>=◌, ◌>>◌}
use px.Prelude.Int.{ℤ, eq_ℤ→eq}
use px.Prelude.Text.{str_eq, str_eq_iff, to_lower}
use px.Prelude.Lower.{to_lower_idem}
use px.Journal.State.{JournalError}
use px.Ledger.State.{Ledger, Config, Env, World, LedgerError, LedgerAction}
use px.Ledger.Accounts.Laws.{total_balance-eq-sum_at}
use px.Ledger.Checks.{asset_keys, asset_balanced, state_error, assert_state}
use px.Ledger.Batches.{epoch_ids}
use px.Ledger.Load.{StoredFlags, load, initial_loop, journal_ready, persist_if, drop_orphans}
use px.Ledger.Repair.{total_balance-lower, sum_at-absent}
use px.Ledger.Valid.{IsBalanced}

-- An action that returned left the world so.
abbrev pub Ends : (World → Type 0) → {A : Type 0} → Result LedgerError A × World → Type 0
Ends P {A} p = (a : A) → p.0 ≡ ok a → P p.1

pub Ends->>= :
    (P : World → Type 0) {A B : Type 0} (m : LedgerAction A) (f : A → LedgerAction B) (w : World)
    → ((a : A) (u : World) → m w ≡ (ok a, u) → Ends P (f a u))
    → Ends P ((m >>= f) w)
Ends->>= P m f w rest = go (m w) refl
  where
    go : (p : Result LedgerError _ × World) → m w ≡ p → Ends P (continue p.0 f p.1)
    go (ok a, u) e = rest a u e
    go (err x, u) e = λ b same. cc

all_at :
    (p : String → Bool) (k : String) (xs : List String)
    → any (str_eq k) xs ≡ true
    → all p xs ≡ true
    → p k ≡ true
all_at p k [] held h = cc
all_at p k (x ∷ xs) held h = ground (arith, str_eq_iff k x, all_at p k xs)

-- A ledger of which `assertState` does not complain is balanced in every asset.
state_error-IsBalanced : (s : Ledger) → state_error s ≡ none → IsBalanced s
unfolding state_error
state_error-IsBalanced s h b =
    let balanced : all (asset_balanced s) (asset_keys s.accounts) ≡ true = ground arith in
    elim (Bool-cases (any (str_eq (to_lower b)) (asset_keys s.accounts))) [
      | inl held ↦
          total_balance-lower b (to_lower b) s (sym (to_lower_idem b))
          ∙ eq_ℤ→eq _ _
              (all_at (asset_balanced s) (to_lower b) (asset_keys s.accounts) held balanced)
      | inr absent ↦ total_balance-eq-sum_at b s ∙ sum_at-absent (to_lower b) s.accounts absent
    ]

-- What follows the last `assertState` of a load leaves the memory as it is.
finished-keeps :
    (env : Env) (changed : Bool) (ready : Result JournalError (Unit {0})) (w : World)
    → state_error w.memory ≡ none
    → Ends
        (λ u. IsBalanced u.memory)
        ((persist_if env changed
            >> do s ← gets (λ u. u.memory); drop_orphans env ready (epoch_ids s.transfers))
          w)
finished-keeps env false ready w h = λ a same. state_error-IsBalanced w.memory h
finished-keeps env true ready w h = elim (Bool-cases env.persists) [
  | inl written ↦ rw written (λ a same. state_error-IsBalanced w.memory h)
  | inr failed ↦ rw failed (λ a same. cc)
]

asserted-IsBalanced :
    (env : Env) (changed : Bool) (ready : Result JournalError (Unit {0})) (w : World)
    → Ends
        (λ u. IsBalanced u.memory)
        ((assert_state
            >> (persist_if env changed
                >> do s ← gets (λ u. u.memory); drop_orphans env ready (epoch_ids s.transfers)))
          w)
asserted-IsBalanced env changed ready w = elim (Option-cases (state_error w.memory)) [
  | inl passed ↦ rw passed (finished-keeps env changed ready w passed)
  | inr (e, failed) ↦ rw failed (λ a same. cc)
]

-- A load that returns leaves in memory a ledger of which every asset sums to zero, whatever the file
-- and the initial balances hold.
pub load-IsBalanced :
    (cfg : Config) (env : Env) (ready : Result JournalError (Unit {0})) (flags : StoredFlags)
    (initial_balances : List (String × ℤ)) (w : World)
    → (load cfg env ready flags initial_balances w).0 ≡ ok tt
    → IsBalanced (load cfg env ready flags initial_balances w).1.memory
unfolding load
load-IsBalanced cfg env ready flags initial_balances w =
    Ends->>= (λ u. IsBalanced u.memory) (journal_ready ready) _ w
      (λ _ v _.
        Ends->>= (λ u. IsBalanced u.memory) assert_state _ _
          (λ _ x _.
            Ends->>= (λ u. IsBalanced u.memory) (initial_loop cfg initial_balances _) _ x
              (λ changed y _. asserted-IsBalanced env changed ready y)))
      tt
