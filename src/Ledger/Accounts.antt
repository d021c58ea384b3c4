-- ===== src/Ledger/Accounts.antt =====
-- Reading and writing balances, and the sum of an asset over all accounts.
pub mod Laws
use px.Prelude.{String, Option, none, some, [], ◌∷◌, or_else}
use px.Prelude.Int.{ℤ, pos, ◌+ℤ◌}
use px.Prelude.Text.{to_lower}
use px.Prelude.Dict.{Dict, lookup, insert}
use px.Ledger.State.{Ledger, Config, account_id, voucher_account}

-- `balances?.[key]?.availableAtomic ?? "0"`
abbrev pub amount_at : String → Option (Dict ℤ) → ℤ
amount_at key none = pos 0
amount_at key (some balances) = or_else (lookup key balances) (pos 0)

unfoldable pub balance_by_ref : String → String → Ledger → ℤ
balance_by_ref account_ref asset s = amount_at (to_lower asset) (lookup account_ref s.accounts)

unfoldable pub set_balance_by_ref : String → String → ℤ → Ledger → Ledger
set_balance_by_ref account_ref asset value s =
    let balances = or_else (lookup account_ref s.accounts) [] in
    record s { accounts = insert account_ref (insert (to_lower asset) value balances) s.accounts }

unfoldable pub balance : Config → String → String → Ledger → ℤ
balance cfg agent_id = balance_by_ref (account_id cfg agent_id)

unfoldable pub set_balance : Config → String → String → ℤ → Ledger → Ledger
set_balance cfg agent_id = set_balance_by_ref (account_id cfg agent_id)

total_from : String → ℤ → Dict (Dict ℤ) → ℤ
total_from key total [] = total
total_from key total ((_, balances) ∷ rest) =
    total_from key (total +ℤ or_else (lookup key balances) (pos 0)) rest

-- `totalBalance`
unfoldable pub total_balance : String → Ledger → ℤ
unfolding total_from
total_balance asset s = total_from (to_lower asset) (pos 0) s.accounts

-- `voucherLiability`
unfoldable pub voucher_liability : Config → String → String → Ledger → ℤ
voucher_liability cfg asset keyset_id s =
    balance cfg (voucher_account (to_lower asset) keyset_id) asset s
