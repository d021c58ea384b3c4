-- ===== src/Ledger/Tests/Repair.antt =====
-- The repair and the load of a sample ledger whose balances do not sum to zero.
use px.Prelude.{◌≡◌, refl, true, false, [], ◌∷◌}
use px.Prelude.Int.{pos, ◌+ℤ◌, ◌-ℤ◌}
use px.Prelude.Text.{to_lower, has_colon}
use px.Prelude.Dict.{lookup, insert}
use px.Prelude.Action.{ok, err}
use px.Journal.State.{empty_journal}
use px.Journal.Methods.{unique, burn, burn_loop, burn_orphans}
use px.Ledger.State.{Ledger, World, empty_ledger, account_id, not_conserved}
use px.Ledger.Accounts.{set_balance, set_balance_by_ref, balance, balance_by_ref, total_balance}
use px.Ledger.Checks.{state_error}
use px.Ledger.Load.{
  StoredFlags, load, repair_conservation, repair_loop, rebalanced, initial_loop, with_initial,
}
use px.Ledger.Conserving.{AllApart, load-spares_conservation}
use px.Ledger.Loaded.{load-IsBalanced}
use px.Ledger.Repair.{repair_conservation-IsBalanced}
use px.Ledger.Samples.{sample_config, sample_env}
use px.Ledger.Valid.{IsBalanced}

abbrev unbalanced : Ledger
unbalanced = record empty_ledger {
  accounts =
      ("acct_alice", ("base:0xusdc", pos 7) ∷ ("base:0xdai", pos 3) ∷ [])
      ∷ ("acct_bob", ("base:0xusdc", pos 5) ∷ [])
      ∷ [];
}

repair_conservation-IsBalanced_example : IsBalanced (repair_conservation sample_config unbalanced).1
repair_conservation-IsBalanced_example = repair_conservation-IsBalanced sample_config unbalanced

abbrev unbalanced_world : World
unbalanced_world = record { memory = empty_ledger; disk = unbalanced; journal = empty_journal }

abbrev sample_flags : StoredFlags
sample_flags = record { has_voucher_refs = true; rewrite_encrypted = false }

load_done :
    (load sample_config sample_env (ok tt) sample_flags (("carol", pos 9) ∷ []) unbalanced_world).0
    ≡ ok tt
unfolding load repair_conservation repair_loop rebalanced initial_loop with_initial set_balance
    set_balance_by_ref balance balance_by_ref total_balance account_id lookup insert state_error
    ◌+ℤ◌ ◌-ℤ◌ to_lower has_colon unique burn_orphans burn burn_loop
load_done = refl

load-IsBalanced_example :
    IsBalanced
      (load sample_config sample_env
        (ok tt)
        sample_flags
        (("carol", pos 9) ∷ [])
        unbalanced_world).1.memory
load-IsBalanced_example =
    load-IsBalanced sample_config sample_env (ok tt) sample_flags (("carol", pos 9) ∷ [])
      unbalanced_world load_done

base_lower : to_lower sample_config.base_asset_key ≡ sample_config.base_asset_key
unfolding to_lower
base_lower = refl

carol_apart : AllApart sample_config (("carol", pos 9) ∷ [])
unfolding account_id
carol_apart = (refl, tt)

load-spares_conservation_example : ¬ (
    (load sample_config sample_env (ok tt) sample_flags (("carol", pos 9) ∷ []) unbalanced_world).0
    ≡ err not_conserved)
load-spares_conservation_example =
    load-spares_conservation sample_config sample_env (ok tt) sample_flags (("carol", pos 9) ∷ [])
      unbalanced_world base_lower carol_apart
