-- ===== src/Ledger/Repair.antt =====
-- The repair of a ledger at its load makes every asset sum to zero.
use px.Prelude.{
  String, ◌≡◌, refl, sym, ap, ◌∙◌, inl, inr, ◌⊎◌, Bool, true, false, ◌||◌, List, [], ◌∷◌, ◌++◌, map,
  any, none, Bool-cases, arith,
}
use px.Prelude.Int.{ℤ, pos, ◌+ℤ◌, ◌-ℤ◌, eq_ℤ, eq_ℤ→eq, int_laws, parts_of_eq}
use px.Prelude.Text.{str_eq, str_eq_iff, to_lower}
use px.Prelude.Lower.{to_lower_idem}
use px.Prelude.Dict.{Dict, lookup}
use px.Ledger.State.{Ledger, Config, account_id, escrow_account}
use px.Ledger.Accounts.{balance, set_balance, balance_by_ref, total_balance}
use px.Ledger.Accounts.Laws.{sum_at, total_balance-eq-sum_at, total-set_same, total-set_other}
use px.Ledger.Load.{rebalanced, repair_loop, repair_conservation}
use px.Ledger.Checks.{asset_keys}
use px.Journal.Methods.{unique, unique_from}
use px.Journal.Erasure.{unique_from-finds}
use px.Ledger.Valid.{IsBalanced}

pub total_balance-lower :
    (a b : String) (s : Ledger) → to_lower a ≡ to_lower b → total_balance a s ≡ total_balance b s
unfolding total_balance
total_balance-lower a b s e = rw e

to_zero : (t' t bal : ℤ) → t' +ℤ bal ≡ t +ℤ (bal -ℤ t) → t' ≡ pos 0
to_zero t' t bal e = let p = parts_of_eq _ _ e in omega int_laws

rebalanced-zero :
    (cfg : Config) (a : String) (s : Ledger) → total_balance a (rebalanced cfg a s) ≡ pos 0
unfolding rebalanced balance set_balance
rebalanced-zero cfg a s = elim (Bool-cases (eq_ℤ (total_balance a s) (pos 0))) [
  | inl zero_sum ↦ rw zero_sum (eq_ℤ→eq _ _ zero_sum)
  | inr off ↦ rw off (
      to_zero _ (total_balance a s) _ (
        total-set_same (account_id cfg (escrow_account a)) a a
          (balance_by_ref (account_id cfg (escrow_account a)) a s -ℤ total_balance a s) s refl))
]

rebalanced-other :
    (cfg : Config) (a b : String) (s : Ledger)
    → str_eq (to_lower a) (to_lower b) ≡ false
    → total_balance b s ≡ pos 0
    → total_balance b (rebalanced cfg a s) ≡ pos 0
unfolding rebalanced set_balance
rebalanced-other cfg a b s other h = elim (Bool-cases (eq_ℤ (total_balance a s) (pos 0))) [
  | inl zero_sum ↦ rw zero_sum h
  | inr off ↦ rw off (total-set_other _ a b _ s other ∙ h)
]

rebalanced-keeps_zero :
    (cfg : Config) (a b : String) (s : Ledger)
    → total_balance b s ≡ pos 0
    → total_balance b (rebalanced cfg a s) ≡ pos 0
rebalanced-keeps_zero cfg a b s h = elim (Bool-cases (str_eq (to_lower a) (to_lower b))) [
  | inl same ↦
      sym (
        total_balance-lower a b (rebalanced cfg a s)
          ((str_eq_iff (to_lower a) (to_lower b)).0 same))
      ∙ rebalanced-zero cfg a s
  | inr other ↦ rebalanced-other cfg a b s other h
]

-- An asset that the loop meets, or whose sum is zero already, ends with the sum zero.
repair_loop-zero :
    (cfg : Config) (assets : List String) (changed : Bool) (b : String) (s : Ledger)
    → (any (str_eq (to_lower b)) assets ≡ true) ⊎ (total_balance b s ≡ pos 0)
    → total_balance b (repair_loop cfg assets changed s).1 ≡ pos 0
unfolding repair_loop
repair_loop-zero cfg [] changed b s (inl met) = cc
repair_loop-zero cfg [] changed b s (inr zero_sum) = zero_sum
repair_loop-zero cfg (a ∷ assets) changed b s (inr zero_sum) =
    repair_loop-zero cfg assets _ b (rebalanced cfg a s)
      (inr (rebalanced-keeps_zero cfg a b s zero_sum))
repair_loop-zero cfg (a ∷ assets) changed b s (inl met) =
    elim (Bool-cases (str_eq (to_lower b) a)) [
      | inl here ↦ repair_loop-zero cfg assets _ b (rebalanced cfg a s) (
          inr (
            sym (total_balance-lower a b (rebalanced cfg a s) (lower_of here))
            ∙ rebalanced-zero cfg a s))
      | inr later ↦ repair_loop-zero cfg assets _ b (rebalanced cfg a s) (inl (rw later at met))
    ]
  where
    lower_of : str_eq (to_lower b) a ≡ true → to_lower a ≡ to_lower b
    lower_of here = ap to_lower (sym ((str_eq_iff (to_lower b) a).0 here)) ∙ to_lower_idem b

any-append : (p : String → Bool) (xs ys : List String) → any p (xs ++ ys) ≡ (any p xs || any p ys)
any-append p [] ys = refl
any-append p (x ∷ xs) ys = ground (arith, any-append p xs ys)

absent_key :
    (key : String) (balances : Dict ℤ)
    → any (str_eq key) (map (λ e. e.0) balances) ≡ false
    → lookup key balances ≡ none
unfolding lookup
absent_key key [] h = refl
absent_key key ((k, v) ∷ balances) h =
    ground (arith, absent_key key balances, str_eq_iff key k, str_eq_iff k key)

pub sum_at-absent :
    (key : String) (d : Dict (Dict ℤ))
    → any (str_eq key) (asset_keys d) ≡ false
    → sum_at key d ≡ pos 0
unfolding sum_at
sum_at-absent key [] h = refl
sum_at-absent key ((r, balances) ∷ d) h =
    let both = sym (any-append (str_eq key) (map (λ e. e.0) balances) (asset_keys d)) ∙ h in
    rw (absent_key key balances (ground arith), sum_at-absent key d (ground arith)) (omega int_laws)

-- The repair at the load of a ledger makes every asset sum to zero over the accounts, whatever the
-- balances in the file.
pub repair_conservation-IsBalanced :
    (cfg : Config) (s : Ledger) → IsBalanced (repair_conservation cfg s).1
unfolding repair_conservation unique
repair_conservation-IsBalanced cfg s b =
    elim (Bool-cases (any (str_eq (to_lower b)) (asset_keys s.accounts))) [
      | inl held ↦
          repair_loop-zero cfg (unique_from [] (asset_keys s.accounts)) false b s
            (inl (unique_from-finds (to_lower b) [] (asset_keys s.accounts) refl held))
      | inr absent ↦
          repair_loop-zero cfg (unique_from [] (asset_keys s.accounts)) false b s
            (inr (total_balance-eq-sum_at b s ∙ sum_at-absent (to_lower b) s.accounts absent))
    ]
