-- ===== src/Ledger/Open.antt =====
-- Which transfers a settlement batch takes, described apart from the test that the code makes.
use px.Prelude.{
  ℕ, String, ◌≡◌, ◌⊎◌, refl, ap, inl, inr, true, false, true_not_false, sym, ◌∙◌, not, ◌||◌,
  is_some, Option, none, some, List, [], ◌∷◌, map, keep, Bool-cases, arith,
}
use px.Prelude.Text.{str_eq_iff, str_eq_refl}
use px.Journal.State.{Source, voucher, deposit, payout}
use px.Ledger.State.{LedgerTransfer, truthy}
use px.Ledger.Payouts.{is_payout}
use px.Ledger.Batches.{is_batchable, assign_batch, commitments}

-- An open transfer of an asset: no batch holds it, and a payout has been settled on its rail.
abbrev pub IsOpen : String → LedgerTransfer → Type 0
IsOpen asset t =
    ((t.batch_id ≡ none) ⊎ (t.batch_id ≡ some ""))
    × (t.asset ≡ asset)
    × (t.source ≡ payout → (at : ℕ) × (t.settled_at ≡ some at))

-- How a batch changes the transfers: each open one gets its identifier and hands in its commitment,
-- in order, and every other stays as it is.
pub data Batched (asset id : String)
    : List LedgerTransfer → List LedgerTransfer → List String → Type 0 where
  ended : Batched asset id [] [] []
  taken :
      {t : LedgerTransfer} {before after : List LedgerTransfer} {cs : List String}
      → IsOpen asset t
      → Batched asset id before after cs
      → Batched asset id (t ∷ before) (record t { batch_id = some id } ∷ after) (t.commitment ∷ cs)
  passed :
      {t : LedgerTransfer} {before after : List LedgerTransfer} {cs : List String}
      → (IsOpen asset t → ⊥)
      → Batched asset id before after cs
      → Batched asset id (t ∷ before) (t ∷ after) cs

no_batch : (o : Option String) → truthy o ≡ false → (o ≡ none) ⊎ (o ≡ some "")
no_batch none h = inl refl
no_batch (some s) h = inr (ap some ((str_eq_iff s "").0 (ground arith)))

some_time : (o : Option ℕ) → is_some o ≡ true → (at : ℕ) × (o ≡ some at)
some_time none h = cc
some_time (some at) h = (at, refl)

settled_payout :
    (source : Source) (o : Option ℕ)
    → (not (is_payout source) || is_some o) ≡ true
    → source ≡ payout
    → (at : ℕ) × (o ≡ some at)
settled_payout source o h e = some_time o (rw e at h)

is_batchable-IsOpen :
    (asset : String) (t : LedgerTransfer) → is_batchable asset t ≡ true → IsOpen asset t
is_batchable-IsOpen asset t h = (
  no_batch t.batch_id (ground arith),
  (str_eq_iff t.asset asset).0 (ground arith),
  settled_payout t.source t.settled_at (ground arith),
)

payout_counts :
    (source : Source) (o : Option ℕ)
    → (source ≡ payout → (at : ℕ) × (o ≡ some at))
    → (not (is_payout source) || is_some o) ≡ true
payout_counts payout o h = rw (h refl).1
payout_counts voucher o h = refl
payout_counts deposit o h = refl

pub IsOpen-is_batchable :
    (asset : String) (t : LedgerTransfer) → IsOpen asset t → is_batchable asset t ≡ true
IsOpen-is_batchable asset t (inl free, same, counts) =
    rw (free, same, str_eq_refl asset) (payout_counts t.source t.settled_at counts)
IsOpen-is_batchable asset t (inr free, same, counts) =
    rw (free, same, str_eq_refl asset, str_eq_refl "") (payout_counts t.source t.settled_at counts)

pub assign_batch-Batched :
    (asset id : String) (ts : List LedgerTransfer)
    → Batched asset id ts
        (map (assign_batch asset id) ts)
        (commitments (keep (is_batchable asset) ts))
assign_batch-Batched asset id [] = ended
assign_batch-Batched asset id (t ∷ ts) = elim (Bool-cases (is_batchable asset t)) [
  | inl e ↦ rw e (taken (is_batchable-IsOpen asset t e) (assign_batch-Batched asset id ts))
  | inr e ↦ rw e (
      passed (λ h. true_not_false (sym (IsOpen-is_batchable asset t h) ∙ e))
        (assign_batch-Batched asset id ts))
]
