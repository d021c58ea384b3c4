-- ===== src/Ledger/Checks.antt =====
-- `assertConserved`, `assertState`, and the writes of the file after which a method returns.
use px.Prelude.{
  String, Bool, not, ◌&&◌, Option, none, some, List, [], ◌∷◌, ◌++◌, map, all, if◌then◌else◌,
}
use px.Prelude.Int.{ℤ, pos, eq_ℤ}
use px.Prelude.Text.{str_eq, has_colon, starts_with, is_hex_ref}
use px.Prelude.Dict.{Dict}
use px.Prelude.Action.{Result, ok, err, pure, throw, gets, throw_if, ◌>>=◌}
use px.Ledger.State.{
  Ledger, LedgerTransfer, SettlementBatch, Env, LedgerError, LedgerAction, private_ledger_asset_key,
  voucher_refs_invalid, account_asset_invalid, transfer_invalid, batch_invalid, not_conserved,
  persist_failed, Config, journal_failed,
}
use px.Ledger.Accounts.{total_balance}
use px.Journal.State.{JournalEntry, JournalError}
use px.Journal.Methods.{append}

abbrev pub voucher_ref_ok : String × List String → Bool
voucher_ref_ok (keyset_id, hashes) = not (str_eq keyset_id "") && all is_hex_ref hashes

abbrev asset_entry_ok : String × ℤ → Bool
asset_entry_ok (key, _) = has_colon key

abbrev pub account_ok : String × Dict ℤ → Bool
account_ok (_, balances) = all asset_entry_ok balances

abbrev pub transfer_ok : LedgerTransfer → Bool
transfer_ok t =
    has_colon t.asset && starts_with t.commitment "0x" && starts_with t.authorization_hash "0x"

abbrev pub batch_ok : SettlementBatch → Bool
batch_ok b = str_eq b.asset (private_ledger_asset_key b.network b.token_address)

-- The assets of every account, with repetitions: the source's set visits the same ones.
abbrev pub asset_keys : Dict (Dict ℤ) → List String
asset_keys [] = []
asset_keys ((_, balances) ∷ rest) = map (λ e. e.0) balances ++ asset_keys rest

abbrev pub asset_balanced : Ledger → String → Bool
asset_balanced s asset = eq_ℤ (total_balance asset s) (pos 0)

-- `assertState`, as the first complaint that it would raise.
unfoldable pub state_error : Ledger → Option LedgerError
state_error s =
    if not (all voucher_ref_ok s.consumed_voucher_refs)
    then some voucher_refs_invalid
    else if not (all account_ok s.accounts)
    then some account_asset_invalid
    else if not (all transfer_ok s.transfers)
    then some transfer_invalid
    else if not (all batch_ok s.batches)
    then some batch_invalid
    else if not (all (asset_balanced s) (asset_keys s.accounts))
    then some not_conserved
    else none

abbrev throw_some : Option LedgerError → LedgerAction (Unit {0})
throw_some none = pure tt
throw_some (some e) = throw e

abbrev pub assert_state : LedgerAction (Unit {0})
assert_state = do e ← gets (λ w. state_error w.memory); throw_some e

-- `assertConserved`
abbrev pub assert_conserved : String → ℤ → LedgerAction (Unit {0})
assert_conserved asset expected = do
  total ← gets (λ w. total_balance asset w.memory)
  throw_if (not (eq_ℤ total expected)) not_conserved

abbrev pub put : Ledger → LedgerAction (Unit {0})
put s w = (ok tt, record w { memory = s })

-- What a failed `write` leaves on disk: the old file, or the new one where it had been renamed into
-- place.
abbrev pub left_on_disk : Env → Ledger → Ledger → Ledger
left_on_disk env written old = if env.replaces then written else old

-- `await this.persist()`
abbrev pub persist : Env → LedgerAction (Unit {0})
persist env w =
    if env.persists
    then (ok tt, record w { disk = w.memory })
    else (err persist_failed, record w { disk = left_on_disk env w.memory w.disk })

-- `try { await this.persist(); } catch (error) { this.state = previous; throw error; }`
abbrev pub persist_or_restore : Env → Ledger → LedgerAction (Unit {0})
persist_or_restore env previous w =
    if env.persists then (ok tt, record w { disk = w.memory }) else (
      err persist_failed,
      record w { memory = previous; disk = left_on_disk env w.memory w.disk },
    )

abbrev pub append_result : {A : Type 0} → Result JournalError A → Result LedgerError A
append_result (ok a) = ok a
append_result (err e) = err journal_failed

-- `await this.options.journal.append(asset, entry)`
abbrev pub journal_append : Config → Env → String → JournalEntry → LedgerAction String
journal_append cfg env asset entry w =
    let (r, j) = append cfg.cipher env.journal asset entry w.journal in
    (append_result r, record w { journal = j })
