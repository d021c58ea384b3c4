-- ===== src/Ledger/Steps/Overdraft.antt =====
-- Writes of balances that leave no account overdrawn but the escrow's.
use px.Prelude.{String, ◌≡◌, inl, inr, Bool, true, false, Bool-cases, arith}
use px.Prelude.Int.{ℤ, pos, ◌≤ℤ◌, ◌-ℤ◌, leb_ℤ, ltb_ℤ, eq_ℤ, int_laws}
use px.Prelude.Text.{str_eq, str_eq_iff, str_eq_refl, to_lower}
use px.Prelude.Lower.{to_lower_idem}
use px.Ledger.State.{Ledger, Config, account_id, escrow_account}
use px.Ledger.Accounts.{balance, balance_by_ref, set_balance, set_balance_by_ref, voucher_liability}
use px.Ledger.Accounts.Laws.{balance-set_balance}
use px.Ledger.Vouchers.{move_balance, reclaimed, swept}
use px.Ledger.Transfers.{post_balances}

abbrev pub is_escrow : Config → String → String → Bool
is_escrow cfg account_ref asset =
    str_eq account_ref (account_id cfg (escrow_account (to_lower asset)))

abbrev pub NoOverdraft : Config → Ledger → Type 0
NoOverdraft cfg s =
    (account_ref asset : String)
    → is_escrow cfg account_ref asset ≡ false
    → pos 0 ≤ℤ balance_by_ref account_ref asset s

pub NoOverdraft-write :
    (cfg : Config) (r a : String) (v : ℤ) (s : Ledger)
    → NoOverdraft cfg s
    → (is_escrow cfg r a ≡ false → pos 0 ≤ℤ v)
    → NoOverdraft cfg (set_balance_by_ref r a v s)
NoOverdraft-write cfg r a v s h k q b apart = elim (Bool-cases (str_eq r q)) [
  | inr other ↦ rw (balance-set_balance r q a b v s, other) (h q b apart)
  | inl same ↦ elim (Bool-cases (str_eq (to_lower a) (to_lower b))) [
    | inr elsewhere ↦ rw (balance-set_balance r q a b v s, same, elsewhere) (h q b apart)
    | inl here ↦
        rw (balance-set_balance r q a b v s, same, here)
          (k (rw ((str_eq_iff r q).0 same, (str_eq_iff (to_lower a) (to_lower b)).0 here) apart))
  ]
]

-- The escrow of an asset is its escrow, so that nothing is asked of it.
pub escrow-is_escrow :
    (cfg : Config) (a : String) (v : ℤ)
    → is_escrow cfg (account_id cfg (escrow_account (to_lower a))) (to_lower a) ≡ false
    → pos 0 ≤ℤ v
escrow-is_escrow cfg a v h = absurd (
    not_both (str_eq_refl (account_id cfg (escrow_account (to_lower a))))
      (rw (to_lower_idem a) at h))
  where
    not_both : {b : Bool} → b ≡ true → b ≡ false → ⊥
    not_both e f = cc

pub move_balance-NoOverdraft :
    (cfg : Config) (from to a : String) (amount : ℤ) (s : Ledger)
    → ltb_ℤ (balance cfg from a s) amount ≡ false
    → leb_ℤ amount (pos 0) ≡ false
    → NoOverdraft cfg s
    → NoOverdraft cfg (move_balance cfg from to a amount s)
unfolding move_balance balance set_balance
move_balance-NoOverdraft cfg from to a amount s funded positive h =
    let debited =
      NoOverdraft-write cfg (account_id cfg from) a (balance cfg from a s -ℤ amount) s h
        λ _. grind (int_laws, funded, positive) in
    NoOverdraft-write cfg (account_id cfg to) a _ _ debited
      λ apart. let old = debited (account_id cfg to) a apart in grind (int_laws, old, positive)

-- Both amounts are read before the first write.
pub post_balances-NoOverdraft :
    (cfg : Config) (first second a : String) (v u : ℤ) (s : Ledger)
    → NoOverdraft cfg s
    → (is_escrow cfg (account_id cfg first) a ≡ false → pos 0 ≤ℤ v)
    → (is_escrow cfg (account_id cfg second) a ≡ false → pos 0 ≤ℤ u)
    → NoOverdraft cfg (post_balances cfg first second a v u s)
unfolding post_balances set_balance
post_balances-NoOverdraft cfg first second a v u s h f g =
    NoOverdraft-write cfg (account_id cfg second) a u _
      (NoOverdraft-write cfg (account_id cfg first) a v s h f) g

swept-NoOverdraft :
    (cfg : Config) (asset keyset_id : String) (s : Ledger)
    → NoOverdraft cfg s
    → NoOverdraft cfg (swept cfg (to_lower asset) keyset_id s)
unfolding swept set_balance
swept-NoOverdraft cfg asset keyset_id s h =
    elim (Bool-cases (ltb_ℤ (pos 0) (voucher_liability cfg (to_lower asset) keyset_id s))) [
      | inl positive ↦ rw positive (
          NoOverdraft-write cfg _ (to_lower asset) _ _
            (NoOverdraft-write cfg _ (to_lower asset) (pos 0) s h λ _. omega arith)
            (escrow-is_escrow cfg asset _))
      | inr empty ↦ rw empty h
    ]

pub reclaimed-NoOverdraft :
    (cfg : Config) (asset keyset_id : String) (s : Ledger)
    → NoOverdraft cfg s
    → NoOverdraft cfg (reclaimed cfg (to_lower asset) keyset_id s)
unfolding reclaimed balance_by_ref
reclaimed-NoOverdraft cfg asset keyset_id s h =
    let moved = swept-NoOverdraft cfg asset keyset_id s h in
    elim (Bool-cases (eq_ℤ (voucher_liability cfg (to_lower asset) keyset_id s) (pos 0))) [
      | inl empty ↦ rw empty moved
      | inr left ↦ rw left moved
    ]
