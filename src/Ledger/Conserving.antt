-- ===== src/Ledger/Conserving.antt =====
-- `load` never fails for conservation: the repair and the initial balances leave every asset balanced.
use mathlib.Core.Path.{subst}
use px.Prelude.{
  ap, ℕ, String, ◌≡◌, refl, ◌∙◌, inl, inr, Bool, true, false, ◌||◌, List, [], ◌∷◌, Option, none,
  some, is_some, or_else, Bool-cases, Option-cases, arith,
}
use px.Prelude.Action.{Result, ok, err, continue, gets, ◌>>=◌, ◌>>◌}
use px.Prelude.Int.{ℤ, pos, ltb_ℤ, int_laws}
use px.Prelude.Text.{to_lower}
use px.Prelude.Dict.{Dict, lookup}
use px.Journal.State.{Journal, JournalError}
use px.Journal.Methods.{burn_orphans}
use px.Ledger.State.{
  Ledger, Config, Env, World, LedgerError, LedgerAction, not_conserved, journal_failed, account_id,
  escrow_account,
}
use px.Ledger.Accounts.{balance, balance_by_ref, set_balance, amount_at}
use px.Ledger.Accounts.Laws.{total-write_two, balance-set_balance}
use px.Ledger.Checks.{asset_keys, state_error, assert_state}
use px.Ledger.Batches.{epoch_ids}
use px.Ledger.Load.{
  StoredFlags, load, repair_conservation, initial_loop, with_initial, has_base_balance,
  journal_ready, persist_if, drop_orphans,
}
use px.Ledger.Repair.{repair_conservation-IsBalanced}
use px.Ledger.Loaded.{Ends}
use px.Ledger.Valid.{IsBalanced, all_balanced}
use px.Ledger.Valid.Conserves.{AreApart}

-- An action did not fail for conservation.
abbrev Spares : {A : Type 0} → Result LedgerError A × World → Type 0
Spares p = p.0 ≡ err not_conserved → ⊥

abbrev thrown : (A : Type 0) → LedgerError → Result LedgerError A
thrown A e = err e

same_error :
    {A B : Type 0} (x : LedgerError)
    → thrown B x ≡ thrown B not_conserved
    → thrown A x ≡ thrown A not_conserved
same_error x h = cc

Spares->>= :
    {A B : Type 0} (m : LedgerAction A) (f : A → LedgerAction B) (w : World)
    → Spares (m w)
    → ((a : A) (u : World) → m w ≡ (ok a, u) → Spares (f a u))
    → Spares ((m >>= f) w)
Spares->>= {A} m f w first rest = go (m w) refl
  where
    go : (p : Result LedgerError A × World) → m w ≡ p → Spares (continue p.0 f p.1)
    go (ok a, u) e = rest a u e
    go (err x, u) e = λ same. first (rw e (same_error x same))

balanced-spares : (s : Ledger) → IsBalanced s → state_error s ≡ some not_conserved → ⊥
unfolding state_error
balanced-spares s b e = let fine = all_balanced s (asset_keys s.accounts) b in ground arith

-- On a balanced ledger `assertState` passes or has another complaint.
assert_then-Spares :
    {A : Type 0} (f : Unit {0} → LedgerAction A) (w : World)
    → IsBalanced w.memory
    → Spares (f tt w)
    → Spares ((assert_state >>= f) w)
assert_then-Spares {A} f w b h = elim (Option-cases (state_error w.memory)) [
  | inl passed ↦ rw passed h
  | inr (x, failed) ↦ rw failed (λ same. balanced-spares w.memory b (failed ∙ complaint A x same))
]
  where
    complaint :
        (A : Type 0) (x : LedgerError)
        → thrown A x ≡ thrown A not_conserved
        → some x ≡ some not_conserved
    complaint A x same = cc

absent-zero :
    (cfg : Config) (agent_id : String) (s : Ledger)
    → to_lower cfg.base_asset_key ≡ cfg.base_asset_key
    → has_base_balance cfg agent_id s ≡ false
    → balance_by_ref (account_id cfg agent_id) cfg.base_asset_key s ≡ pos 0
unfolding balance_by_ref
absent-zero cfg agent_id s lower absent =
    rw lower (go (lookup (account_id cfg agent_id) s.accounts) absent)
  where
    inner : (o : Option ℤ) → is_some o ≡ false → or_else o (pos 0) ≡ pos 0
    inner none h = refl
    inner (some v) h = cc

    go :
        (o : Option (Dict ℤ))
        → is_some (lookup cfg.base_asset_key (or_else o [])) ≡ false
        → amount_at cfg.base_asset_key o ≡ pos 0
    go none h = refl
    go (some balances) h = inner (lookup cfg.base_asset_key balances) h

with_initial-IsBalanced :
    (cfg : Config) (agent_id : String) (value : ℤ) (s : Ledger)
    → to_lower cfg.base_asset_key ≡ cfg.base_asset_key
    → AreApart cfg agent_id (escrow_account cfg.base_asset_key)
    → has_base_balance cfg agent_id s ≡ false
    → IsBalanced s
    → IsBalanced (with_initial cfg agent_id value s)
unfolding with_initial balance set_balance
with_initial-IsBalanced cfg agent_id value s lower apart absent b asset =
    let base = cfg.base_asset_key in
    let r = account_id cfg agent_id in
    let q = account_id cfg (escrow_account base) in
    let nothing = absent-zero cfg agent_id s lower absent in
    total-write_two r q base asset value _ s apart
      (rw (balance-set_balance r q base base value s, apart, nothing) (omega int_laws))
    ∙ b asset

abbrev pub AllApart : Config → List (String × ℤ) → Type 0
AllApart cfg [] = Unit
AllApart cfg ((agent_id, value) ∷ rest) =
    AreApart cfg agent_id (escrow_account cfg.base_asset_key) × AllApart cfg rest

abbrev Balanced : World → Type 0
Balanced w = IsBalanced w.memory

-- The initial balances neither fail for conservation nor leave an asset unbalanced.
initial_loop-Spares :
    (cfg : Config) (initial : List (String × ℤ)) (changed : Bool) (w : World)
    → to_lower cfg.base_asset_key ≡ cfg.base_asset_key
    → AllApart cfg initial
    → Balanced w
    → Spares (initial_loop cfg initial changed w)
      × Ends Balanced (initial_loop cfg initial changed w)
unfolding initial_loop
initial_loop-Spares cfg [] changed w lower apart b = (λ same. cc, λ a same. b)
initial_loop-Spares cfg ((agent_id, value) ∷ rest) changed w lower (apart, others) b =
    elim (Bool-cases (has_base_balance cfg agent_id w.memory)) [
      | inl held ↦ rw held (initial_loop-Spares cfg rest (changed || false) w lower others b)
      | inr absent ↦ elim (Bool-cases (ltb_ℤ value (pos 0))) [
        | inl negative ↦ rw (absent, negative) (λ same. cc, λ a same. cc)
        | inr fine ↦
            rw (absent, fine)
              (initial_loop-Spares cfg rest (changed || true)
                (record w { memory = with_initial cfg agent_id value w.memory }) lower others
                (with_initial-IsBalanced cfg agent_id value w.memory lower apart absent b))
      ]
    ]

finished-Spares :
    (env : Env) (changed : Bool) (ready : Result JournalError (Unit {0})) (w : World)
    → Spares (
        (persist_if env changed
            >> do s ← gets (λ u. u.memory); drop_orphans env ready (epoch_ids s.transfers))
          w)
finished-Spares env changed ready w =
    Spares->>= (persist_if env changed) _ w (written changed) (λ _ u _. dropped u)
  where
    written : (b : Bool) → Spares (persist_if env b w)
    written false = λ same. cc
    written true = elim (Bool-cases env.persists) [
      | inl yes_written ↦ rw yes_written (λ same. cc)
      | inr failed ↦ rw failed (λ same. cc)
    ]

    answered :
        (r : Result JournalError ℕ) (j : Journal) (u : World)
        → Spares (elim r [ ok n ↦ ok tt | err e ↦ err journal_failed ], record u { journal = j })
    answered (ok n) j u = λ same. cc
    answered (err e) j u = λ same. cc

    dropped : (u : World) → Spares (drop_orphans env ready (epoch_ids u.memory.transfers) u)
    dropped u =
        let p = burn_orphans env.journal.removal ready (epoch_ids u.memory.transfers) u.journal in
        answered p.0 p.1 u

-- A load never fails for want of conservation, whatever the balances in the file, if the base asset
-- is in lower case, as the constructor makes it, and no agent that is given an initial balance has
-- the account of the escrow.
pub load-spares_conservation :
    (cfg : Config) (env : Env) (ready : Result JournalError (Unit {0})) (flags : StoredFlags)
    (initial_balances : List (String × ℤ)) (w : World)
    → to_lower cfg.base_asset_key ≡ cfg.base_asset_key
    → AllApart cfg initial_balances
    → ¬ ((load cfg env ready flags initial_balances w).0 ≡ err not_conserved)
unfolding load
load-spares_conservation cfg env ready flags initial_balances w lower apart =
    Spares->>= (journal_ready ready) _ w (listed ready) (λ _ v _.
      let x = record v { memory = (repair_conservation cfg v.disk).1 } in
      let fine = repair_conservation-IsBalanced cfg v.disk in
      assert_then-Spares _ x fine (
        let looped = initial_loop-Spares cfg initial_balances _ x lower apart fine in
        Spares->>= (initial_loop cfg initial_balances _) _ x looped.0 (λ changed y e.
          assert_then-Spares _ y (subst (λ p. Balanced p.1) e (looped.1 changed (ap (λ p. p.0) e)))
            (finished-Spares env changed ready y))))
  where
    listed : (r : Result JournalError (Unit {0})) → Spares (journal_ready r w)
    listed (ok _) = λ same. cc
    listed (err _) = λ same. cc
