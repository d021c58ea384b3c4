-- ===== src/Ledger/Valid/Next.antt =====
-- Each new ledger is valid where the old one is.
use px.Prelude.{
  String, ◌≡◌, inl, inr, true, false, [], ◌∷◌, all, all-append, Bool-cases, Option-cases, arith,
  ◌∙◌,
}
use px.Prelude.Int.{ℤ, pos, eq_ℤ, ltb_ℤ}
use px.Prelude.Text.{
  to_lower, str_eq, has_colon, hex_digits, is_hex_ref, is_hex_ref-0x, starts_with, starts_with-<>,
  ◌<>◌,
}
use px.Prelude.Lower.{to_lower_idem}
use px.Prelude.Dict.{lookup, all-insert, all-lookup, all-erase}
use px.Ledger.State.{Ledger, Config, hash, account_id}
use px.Ledger.Accounts.{set_balance, set_balance_by_ref, total_balance, voucher_liability}
use px.Ledger.Checks.{voucher_ref_ok, account_ok}
use px.Ledger.Vouchers.{
  LedgerVoucherMeltInput, LedgerVoucherRedeemInput, consumed_refs, consume_ref, move_balance,
  melted, redeemed, swept, reclaimed,
}
use px.Ledger.Valid.{IsValid, accounts-set_balance}
use px.Ledger.Valid.Conserves.{melted-Conserves, redeemed-Conserves, swept-Conserves}

-- `node:crypto` answers hexadecimal digits, and at least one.
abbrev pub IsHexDigest : Config → Type 0
IsHexDigest cfg = (message : String) → hex_digits (cfg.sha256 message) ≡ true

-- An asset key as `network:token`.
abbrev pub IsAssetKey : String → Type 0
IsAssetKey asset = has_colon (to_lower asset) ≡ true

hash-is_hex_ref : (cfg : Config) (m : String) → IsHexDigest cfg → is_hex_ref (hash cfg m) ≡ true
unfolding hash
hash-is_hex_ref cfg m h = is_hex_ref-0x (cfg.sha256 m) ∙ h m

pub hash-starts_with : (cfg : Config) (m : String) → starts_with (hash cfg m) "0x" ≡ true
unfolding hash
hash-starts_with cfg m = starts_with-<> "0x" (cfg.sha256 m)

refs-consume_ref :
    (keyset_id h : String) (s : Ledger)
    → str_eq keyset_id "" ≡ false
    → is_hex_ref h ≡ true
    → all voucher_ref_ok s.consumed_voucher_refs ≡ true
    → all voucher_ref_ok (consume_ref keyset_id h s).consumed_voucher_refs ≡ true
refs-consume_ref keyset_id h s named hex v =
    all-insert voucher_ref_ok keyset_id _ s.consumed_voucher_refs v
      (rw named (all-append is_hex_ref (consumed_refs keyset_id s) (h ∷ []) old (rw hex)))
  where
    old : all is_hex_ref (consumed_refs keyset_id s) ≡ true
    old = elim (Option-cases (lookup keyset_id s.consumed_voucher_refs)) [
      | inl e ↦ rw e
      | inr (hs, e) ↦
          let p = all-lookup voucher_ref_ok keyset_id hs s.consumed_voucher_refs v e in
          rw e (ground arith)
    ]

pub accounts-set_twice :
    (r q a : String) (v u : ℤ) (s : Ledger)
    → has_colon (to_lower a) ≡ true
    → all account_ok s.accounts ≡ true
    → all account_ok (set_balance_by_ref q a u (set_balance_by_ref r a v s)).accounts ≡ true
accounts-set_twice r q a v u s c h =
    accounts-set_balance q a u (set_balance_by_ref r a v s) c (accounts-set_balance r a v s c h)

pub set_balance_twice :
    (cfg : Config) (p q a : String) (v u : ℤ) (s : Ledger)
    → has_colon (to_lower a) ≡ true
    → all account_ok s.accounts ≡ true
    → all account_ok (set_balance cfg q a u (set_balance cfg p a v s)).accounts ≡ true
unfolding set_balance
set_balance_twice cfg p q a v u s c h =
    accounts-set_twice (account_id cfg p) (account_id cfg q) a v u s c h

pub lower_key : (asset : String) → IsAssetKey asset → has_colon (to_lower (to_lower asset)) ≡ true
lower_key asset c = rw (to_lower_idem asset) c

pub melted-IsValid :
    (cfg : Config) (input : LedgerVoucherMeltInput) (s : Ledger)
    → IsHexDigest cfg
    → IsAssetKey input.asset_key
    → str_eq input.keyset_id "" ≡ false
    → IsValid s
    → IsValid (melted cfg input s)
unfolding melted move_balance set_balance set_balance_by_ref
melted-IsValid cfg input s hex c named v = record {
  refs =
      refs-consume_ref input.keyset_id _ s named
        (hash-is_hex_ref cfg ("voucher-melt:" <> input.melt_key) hex) v.refs;
  accounts = set_balance_twice cfg _ _ (to_lower input.asset_key) _ _ s (lower_key _ c) v.accounts;
  transfers = v.transfers;
  batches = v.batches;
  balanced = λ b. melted-Conserves cfg input s b ∙ v.balanced b;
}

pub redeemed-IsValid :
    (cfg : Config) (input : LedgerVoucherRedeemInput) (s : Ledger)
    → IsHexDigest cfg
    → IsAssetKey input.asset_key
    → str_eq input.keyset_id "" ≡ false
    → IsValid s
    → IsValid (redeemed cfg input s)
unfolding redeemed move_balance set_balance set_balance_by_ref
redeemed-IsValid cfg input s hex c named v = record {
  refs =
      refs-consume_ref input.keyset_id _ s named
        (hash-is_hex_ref cfg ("voucher-redeem:" <> input.redeem_key) hex) v.refs;
  accounts = set_balance_twice cfg _ _ (to_lower input.asset_key) _ _ s (lower_key _ c) v.accounts;
  transfers = v.transfers;
  batches = v.batches;
  balanced = λ b. redeemed-Conserves cfg input s b ∙ v.balanced b;
}

swept-accounts :
    (cfg : Config) (asset_key keyset_id : String) (s : Ledger)
    → IsAssetKey asset_key
    → all account_ok s.accounts ≡ true
    → all account_ok (swept cfg (to_lower asset_key) keyset_id s).accounts ≡ true
unfolding swept
swept-accounts cfg asset_key keyset_id s c h =
    elim (Bool-cases (ltb_ℤ (pos 0) (voucher_liability cfg (to_lower asset_key) keyset_id s))) [
      | inl positive ↦
          rw positive (set_balance_twice cfg _ _ (to_lower asset_key) _ _ s (lower_key _ c) h)
      | inr none_left ↦ rw none_left h
    ]

-- Sweeping touches the accounts alone.
swept-rest :
    (cfg : Config) (asset keyset_id : String) (s : Ledger)
    → ((swept cfg asset keyset_id s).consumed_voucher_refs ≡ s.consumed_voucher_refs)
      × ((swept cfg asset keyset_id s).transfers ≡ s.transfers)
      × ((swept cfg asset keyset_id s).batches ≡ s.batches)
unfolding swept set_balance set_balance_by_ref
swept-rest cfg asset keyset_id s =
    elim (Bool-cases (ltb_ℤ (pos 0) (voucher_liability cfg asset keyset_id s))) [
      | inl positive ↦ (rw positive, rw positive, rw positive)
      | inr none_left ↦ (rw none_left, rw none_left, rw none_left)
    ]

pub reclaimed-IsValid :
    (cfg : Config) (asset_key keyset_id : String) (s : Ledger)
    → IsAssetKey asset_key
    → IsValid s
    → IsValid (reclaimed cfg (to_lower asset_key) keyset_id s)
unfolding reclaimed total_balance
reclaimed-IsValid cfg asset_key keyset_id s c v =
    let a = to_lower asset_key in
    let (refs, transfers, batches) = swept-rest cfg a keyset_id s in
    let accounts = swept-accounts cfg asset_key keyset_id s c v.accounts in
    let kept = swept-Conserves cfg asset_key keyset_id s in
    elim (Bool-cases (eq_ℤ (voucher_liability cfg a keyset_id s) (pos 0))) [
      | inl empty ↦ rw empty (record {
        refs = all-erase voucher_ref_ok keyset_id _ (rw refs v.refs);
        accounts = accounts;
        transfers = rw transfers v.transfers;
        batches = rw batches v.batches;
        balanced = λ b. kept b ∙ v.balanced b;
      })
      | inr other ↦ rw other (record {
        refs = rw refs v.refs;
        accounts = accounts;
        transfers = rw transfers v.transfers;
        batches = rw batches v.batches;
        balanced = λ b. kept b ∙ v.balanced b;
      })
    ]
