-- ===== src/Ledger/Load.antt =====
-- `load` of a file of version 4, with `repairConservation`.
use px.Prelude.{
  String, Bool, false, not, ◌&&◌, ◌||◌, List, [], ◌∷◌, is_some, or_else, if◌then◌else◌,
}
use px.Prelude.Int.{ℤ, pos, ◌-ℤ◌, ltb_ℤ, eq_ℤ}
use px.Prelude.Dict.{lookup}
use px.Prelude.Action.{Result, ok, err, pure, gets, throw_if, ◌>>=◌, ◌>>◌}
use px.Journal.State.{JournalError}
use px.Journal.Methods.{unique, burn_orphans}
use px.Ledger.State.{
  Ledger, Config, Env, LedgerAction, journal_failed, negative_initial_balance, account_id,
  escrow_account,
}
use px.Ledger.Accounts.{balance, set_balance, total_balance}
use px.Ledger.Checks.{asset_keys, assert_state, put, persist, append_result}
use px.Ledger.Batches.{epoch_ids}

-- What the read of the file tells beside its ledger: whether the voucher references were there,
-- and `shouldRewriteEncrypted`.
pub record StoredFlags : Type 0 where
  pub has_voucher_refs : Bool
  pub rewrite_encrypted : Bool

-- The body of the loop of `repairConservation`: the escrow takes what an asset's sum lacks.
unfoldable pub rebalanced : Config → String → Ledger → Ledger
rebalanced cfg asset s =
    let total = total_balance asset s in
    let escrow = escrow_account asset in
    if eq_ℤ total (pos 0)
    then s
    else set_balance cfg escrow asset (balance cfg escrow asset s -ℤ total) s

unfoldable pub repair_loop : Config → List String → Bool → Ledger → Bool × Ledger
repair_loop cfg [] changed s = (changed, s)
repair_loop cfg (asset ∷ rest) changed s =
    repair_loop cfg rest (changed || not (eq_ℤ (total_balance asset s) (pos 0)))
      (rebalanced cfg asset s)

-- `repairConservation`
unfoldable pub repair_conservation : Config → Ledger → Bool × Ledger
repair_conservation cfg s = repair_loop cfg (unique (asset_keys s.accounts)) false s

-- `this.state.accounts[accountId]?.[this.baseAssetKey]`
abbrev pub has_base_balance : Config → String → Ledger → Bool
has_base_balance cfg agent_id s =
    is_some (lookup cfg.base_asset_key (or_else (lookup (account_id cfg agent_id) s.accounts) []))

unfoldable pub with_initial : Config → String → ℤ → Ledger → Ledger
with_initial cfg agent_id value s =
    let base = cfg.base_asset_key in
    let escrow = escrow_account base in
    let credited = set_balance cfg agent_id base value s in
    set_balance cfg escrow base (balance cfg escrow base credited -ℤ value) credited

-- The loop over the initial balances: an agent that has a balance is passed over.
unfoldable pub initial_loop : Config → List (String × ℤ) → Bool → LedgerAction Bool
initial_loop cfg [] changed = pure changed
initial_loop cfg ((agent_id, value) ∷ rest) changed = do
  s ← gets (λ w. w.memory)
  let held = has_base_balance cfg agent_id s
  throw_if (not held && ltb_ℤ value (pos 0)) negative_initial_balance
  put (if held then s else with_initial cfg agent_id value s)
  initial_loop cfg rest (changed || not held)

abbrev pub journal_ready : Result JournalError (Unit {0}) → LedgerAction (Unit {0})
journal_ready ready w = (append_result ready, w)

abbrev pub drop_orphans :
    Env → Result JournalError (Unit {0}) → List String → LedgerAction (Unit {0})
drop_orphans env ready epochs w =
    let (r, j) = burn_orphans env.journal.removal ready epochs w.journal in
    (elim r [ ok n ↦ ok tt | err e ↦ err journal_failed ], record w { journal = j })

abbrev pub persist_if : Env → Bool → LedgerAction (Unit {0})
persist_if env changed = if changed then persist env else pure tt

-- `load`, where the file holds version 4. `ready` is the answer of the journal's `assertReady`.
unfoldable pub load :
    Config
    → Env
    → Result JournalError (Unit {0})
    → StoredFlags
    → List (String × ℤ)
    → LedgerAction (Unit {0})
load cfg env ready flags initial_balances = do
  journal_ready ready
  stored ← gets (λ w. w.disk)
  let repaired = repair_conservation cfg stored
  put repaired.1
  assert_state
  changed ←
      initial_loop cfg initial_balances
        (not flags.has_voucher_refs || repaired.0 || flags.rewrite_encrypted)
  assert_state
  persist_if env changed
  s ← gets (λ w. w.memory)
  drop_orphans env ready (epoch_ids s.transfers)
