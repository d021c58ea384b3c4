-- ===== src/Ledger/Valid.antt =====
-- The invariant of the ledger: what `assertState` checks, with conservation for every asset.
pub mod Conserves
pub mod Next
pub mod Postings
use px.Prelude.{
  String, ◌≡◌, refl, ap, inl, inr, Bool, true, ◌&&◌, not, Option, none, some, List, [], ◌∷◌, ◌++◌,
  map, all, all-append, or_else, Bool-cases, Option-cases, arith, if◌then◌else◌,
}
use px.Prelude.Int.{ℤ, pos, eq_ℤ, eq_ℤ_refl}
use px.Prelude.Text.{to_lower, has_colon, is_hex_ref, hex_digits, str_eq}
use px.Prelude.Dict.{Dict, lookup, insert, all-insert, all-lookup}
use px.Ledger.State.{Ledger, Config}
use px.Ledger.Accounts.{total_balance, set_balance_by_ref}
use px.Ledger.Checks.{
  voucher_ref_ok, account_ok, transfer_ok, batch_ok, asset_balanced, asset_keys, state_error,
}

-- Every asset sums to zero over the accounts, escrow and voucher accounts included.
abbrev pub IsBalanced : Ledger → Type 0
IsBalanced s = (asset : String) → total_balance asset s ≡ pos 0

pub record IsValid (s : Ledger) : Type 0 where
  pub refs : all voucher_ref_ok s.consumed_voucher_refs ≡ true
  pub accounts : all account_ok s.accounts ≡ true
  pub transfers : all transfer_ok s.transfers ≡ true
  pub batches : all batch_ok s.batches ≡ true
  pub balanced : IsBalanced s

pub all_balanced :
    (s : Ledger) (keys : List String) → IsBalanced s → all (asset_balanced s) keys ≡ true
all_balanced s [] h = refl
all_balanced s (k ∷ ks) h = rw (h k, all_balanced s ks h)

-- On a valid ledger `assertState` passes.
pub state_error-none : (s : Ledger) → IsValid s → state_error s ≡ none
unfolding state_error
state_error-none s v =
    rw (
      v.refs,
      v.accounts,
      v.transfers,
      v.batches,
      all_balanced s (asset_keys s.accounts) v.balanced,
    )

account_ok-old :
    (r : String) (d : Dict (Dict ℤ))
    → all account_ok d ≡ true
    → account_ok (r, or_else (lookup r d) []) ≡ true
account_ok-old r d h = elim (Option-cases (lookup r d)) [
  | inl e ↦ rw e
  | inr (b, e) ↦ rw e (all-lookup account_ok r b d h e)
]

-- A write under an asset key that has a colon keeps the accounts well formed.
pub accounts-set_balance :
    (r a : String) (v : ℤ) (s : Ledger)
    → has_colon (to_lower a) ≡ true
    → all account_ok s.accounts ≡ true
    → all account_ok (set_balance_by_ref r a v s).accounts ≡ true
unfolding set_balance_by_ref
accounts-set_balance r a v s c h = all-insert account_ok r _ s.accounts h (
    all-insert _ (to_lower a) v (or_else (lookup r s.accounts) []) (account_ok-old r s.accounts h)
      c)
