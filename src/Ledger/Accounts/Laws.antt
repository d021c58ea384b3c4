-- ===== src/Ledger/Accounts/Laws.antt =====
-- The accounts as a function of two keys, and the sum of an asset under a write.
use px.Prelude.{
  String, false, ◌≡◌, refl, ap, ◌∙◌, Option, none, some, [], ◌∷◌, or_else, inl, inr, Bool-cases,
  arith, if◌then◌else◌,
}
use px.Prelude.Int.{ℤ, pos, pos_part, neg_part, ◌+ℤ◌, +ℤ_cancel_right, parts_of_eq, int_laws}
use px.Prelude.Text.{to_lower, str_eq, str_eq_iff}
use px.Prelude.Dict.{Dict, lookup, insert, lookup-insert, lookup-nil}
use px.Ledger.State.{Ledger}
use px.Ledger.Accounts.{amount_at, balance_by_ref, set_balance_by_ref, total_from, total_balance}

sum_of_writes :
    (t t' t'' p q v u : ℤ) → v +ℤ u ≡ p +ℤ q → t' +ℤ p ≡ t +ℤ v → t'' +ℤ q ≡ t' +ℤ u → t'' ≡ t
sum_of_writes t t' t'' p q v u e f g =
    let e' = parts_of_eq _ _ e in
    let f' = parts_of_eq _ _ f in let g' = parts_of_eq _ _ g in omega int_laws

-- A write is read back at its account and asset, and nowhere else.
pub balance-set_balance :
    (r q a b : String) (v : ℤ) (s : Ledger)
    → balance_by_ref q b (set_balance_by_ref r a v s) ≡ (
        if str_eq r q
        then (if str_eq (to_lower a) (to_lower b) then v else balance_by_ref q b s)
        else balance_by_ref q b s)
unfolding balance_by_ref set_balance_by_ref
balance-set_balance r q a b v s = ground (
  arith,
  str_eq_iff r q,
  lookup-insert r q (insert (to_lower a) v (or_else (lookup r s.accounts) [])) s.accounts,
  lookup-insert (to_lower a) (to_lower b) v (or_else (lookup r s.accounts) []),
  lookup-nil {V = ℤ} (to_lower b),
)

-- The sum as a plain recursion.
unfoldable pub sum_at : String → Dict (Dict ℤ) → ℤ
sum_at key [] = pos 0
sum_at key ((_, balances) ∷ rest) = or_else (lookup key balances) (pos 0) +ℤ sum_at key rest

total_from-eq-sum_at :
    (key : String) (t : ℤ) (d : Dict (Dict ℤ)) → total_from key t d ≡ t +ℤ sum_at key d
unfolding total_from sum_at
total_from-eq-sum_at key t [] = omega int_laws
total_from-eq-sum_at key t ((_, balances) ∷ rest) =
    rw (total_from-eq-sum_at key (t +ℤ or_else (lookup key balances) (pos 0)) rest) (omega int_laws)

sum_at-insert :
    (key r : String) (b : Dict ℤ) (d : Dict (Dict ℤ))
    → sum_at key (insert r b d) +ℤ amount_at key (lookup r d)
      ≡ sum_at key d +ℤ or_else (lookup key b) (pos 0)
unfolding sum_at lookup insert
sum_at-insert key r b [] = omega int_laws
sum_at-insert key r b ((j, w) ∷ d) = elim (Bool-cases (str_eq j r)) [
  | inl hit ↦ rw hit (omega int_laws)
  | inr miss ↦
      let ih = sum_at-insert key r b d in grind (int_laws, miss, ap pos_part ih, ap neg_part ih)
]

or_else-lookup :
    (key : String) (o : Option (Dict ℤ))
    → or_else (lookup key (or_else o [])) (pos 0) ≡ amount_at key o
or_else-lookup key none = rw (lookup-nil key)
or_else-lookup key (some balances) = refl

pub total_balance-eq-sum_at :
    (b : String) (s : Ledger) → total_balance b s ≡ sum_at (to_lower b) s.accounts
unfolding total_balance
total_balance-eq-sum_at b s =
    rw (total_from-eq-sum_at (to_lower b) (pos 0) s.accounts) (omega int_laws)

-- A write moves its asset's sum by the change of the one balance, and no other asset's sum.
pub total-set_balance :
    (r a b : String) (v : ℤ) (s : Ledger)
    → (if str_eq (to_lower a) (to_lower b)
        then total_balance b (set_balance_by_ref r a v s) +ℤ balance_by_ref r b s
          ≡ total_balance b s +ℤ v
        else total_balance b (set_balance_by_ref r a v s) ≡ total_balance b s)
unfolding balance_by_ref set_balance_by_ref
total-set_balance r a b v s =
    let old = or_else (lookup r s.accounts) [] in
    let new = insert (to_lower a) v old in
    let e = sum_at-insert (to_lower b) r new s.accounts in
    let f = lookup-insert (to_lower a) (to_lower b) v old in
    let g = or_else-lookup (to_lower b) (lookup r s.accounts) in
    elim (Bool-cases (str_eq (to_lower a) (to_lower b))) [
      | inl same ↦ rw same (
          rw
            (
              total_balance-eq-sum_at b s,
              total_balance-eq-sum_at b (record s { accounts = insert r new s.accounts }),
            )
            (rw (f, same) at e))
      | inr other ↦ rw other (
          rw
            (
              total_balance-eq-sum_at b s,
              total_balance-eq-sum_at b (record s { accounts = insert r new s.accounts }),
            )
            (+ℤ_cancel_right _ _ _ (rw (f, other, g) at e)))
    ]

balance-of_lower :
    (r a b : String) (s : Ledger)
    → to_lower a ≡ to_lower b
    → balance_by_ref r b s ≡ balance_by_ref r a s
unfolding balance_by_ref
balance-of_lower r a b s e = rw e

pub total-set_same :
    (r a b : String) (v : ℤ) (s : Ledger)
    → to_lower a ≡ to_lower b
    → total_balance b (set_balance_by_ref r a v s) +ℤ balance_by_ref r a s ≡ total_balance b s +ℤ v
total-set_same r a b v s e =
    let t = rw ((str_eq_iff (to_lower a) (to_lower b)).1 e) at (total-set_balance r a b v s) in
    rw (balance-of_lower r a b s e) at t

pub total-set_other :
    (r a b : String) (v : ℤ) (s : Ledger)
    → str_eq (to_lower a) (to_lower b) ≡ false
    → total_balance b (set_balance_by_ref r a v s) ≡ total_balance b s
total-set_other r a b v s e = rw e at (total-set_balance r a b v s)

-- Two writes whose second amount is read after the first keep every sum, whoever the two are.
pub total-write_after :
    (r q a b : String) (v u : ℤ) (s : Ledger)
    → v +ℤ u ≡ balance_by_ref r a s +ℤ balance_by_ref q a (set_balance_by_ref r a v s)
    → total_balance b (set_balance_by_ref q a u (set_balance_by_ref r a v s)) ≡ total_balance b s
total-write_after r q a b v u s z =
    let s' = set_balance_by_ref r a v s in
    elim (Bool-cases (str_eq (to_lower a) (to_lower b))) [
      | inl same ↦
          let e = (str_eq_iff (to_lower a) (to_lower b)).0 same in
          sum_of_writes _ _ _ _ _ v u z (total-set_same r a b v s e) (total-set_same q a b u s' e)
      | inr other ↦ total-set_other q a b u s' other ∙ total-set_other r a b v s other
    ]

-- Two writes to different accounts, both amounts read before, keep every sum if the amounts do.
pub total-write_two :
    (r q a b : String) (v u : ℤ) (s : Ledger)
    → str_eq r q ≡ false
    → v +ℤ u ≡ balance_by_ref r a s +ℤ balance_by_ref q a s
    → total_balance b (set_balance_by_ref q a u (set_balance_by_ref r a v s)) ≡ total_balance b s
total-write_two r q a b v u s apart z =
    total-write_after r q a b v u s (rw (balance-set_balance r q a a v s, apart) z)
