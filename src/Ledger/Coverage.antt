-- ===== src/Ledger/Coverage.antt =====
-- What a settlement batch covers, and what the burn of expired batches spares.
use mathlib.Core.Path.{subst}
use px.Prelude.{
  some_injective, String, ◌≡◌, refl, sym, ap, ◌∙◌, ◌++◌, true_not_false, inl, inr, true, false,
  none, some, List, [], ◌∷◌, map, all, keep, length, Bool-cases, arith,
}
use px.Prelude.Text.{str_eq_refl, to_lower, batch_prefix_not_empty}
use px.Prelude.Action.{ok}
use px.Ledger.State.{Ledger, LedgerTransfer, SettlementBatch, Config, Env, World, truthy}
use px.Ledger.Batches.{
  BatchInput, is_batchable, assign_batch, new_batch_id, new_batch, with_batch,
  create_settlement_batch, in_batches, not_in_batches, commitments,
}
use px.Ledger.Open.{IsOpen, Batched, IsOpen-is_batchable, assign_batch-Batched}
use px.Ledger.Merkle.{merkle_root}
use px.Ledger.Outcome.{Outcome-changed}
use px.Ledger.Outcome.Vouchers.{create_settlement_batch-Outcome}

batch_id-truthy : (env : Env) → truthy (some (new_batch_id env)) ≡ true
batch_id-truthy env = rw (batch_prefix_not_empty env.random_id)

-- No transfer of the asset is open.
abbrev pub NoneOpen : String → List LedgerTransfer → Type 0
NoneOpen asset [] = Unit
NoneOpen asset (t ∷ ts) = (IsOpen asset t → ⊥) × NoneOpen asset ts

assigned-closed :
    (asset : String) (env : Env) (t : LedgerTransfer)
    → IsOpen asset (assign_batch asset (new_batch_id env) t)
    → ⊥
assigned-closed asset env t h =
    let open_after = IsOpen-is_batchable asset (assign_batch asset (new_batch_id env) t) h in
    elim (Bool-cases (is_batchable asset t)) [
      | inl e ↦ absurd (clash (rw (e, batch_prefix_not_empty env.random_id) at open_after))
      | inr e ↦ true_not_false (sym (rw e at open_after) ∙ e)
    ]
  where
    clash : false ≡ true → ⊥
    clash e = cc

assigned-NoneOpen :
    (asset : String) (env : Env) (ts : List LedgerTransfer)
    → NoneOpen asset (map (assign_batch asset (new_batch_id env)) ts)
assigned-NoneOpen asset env [] = tt
assigned-NoneOpen asset env (t ∷ ts) = (assigned-closed asset env t, assigned-NoneOpen asset env ts)

-- If the new batch's identifier is new, its transfers are those that a batch could take.
assigned-commitments :
    (asset : String) (env : Env) (ts : List LedgerTransfer)
    → all (not_in_batches (new_batch_id env ∷ [])) ts ≡ true
    → commitments
        (keep (in_batches (new_batch_id env ∷ [])) (map (assign_batch asset (new_batch_id env)) ts))
      ≡ commitments (keep (is_batchable asset) ts)
assigned-commitments asset env [] h = refl
assigned-commitments asset env (t ∷ ts) h = elim (Bool-cases (is_batchable asset t)) [
  | inl e ↦
      rw (e, batch_prefix_not_empty env.random_id, str_eq_refl (new_batch_id env))
        (ap (◌∷◌ t.commitment) (assigned-commitments asset env ts (ground arith)))
  | inr e ↦
      let outside : in_batches (new_batch_id env ∷ []) t ≡ false = ground arith in
      rw (e, outside) (assigned-commitments asset env ts (ground arith))
]

length-commitments : (ts : List LedgerTransfer) → length (commitments ts) ≡ length ts
length-commitments [] = refl
length-commitments (t ∷ ts) = rw (length-commitments ts)

no_commitments : (ts : List LedgerTransfer) → commitments ts ≡ [] → ts ≡ []
no_commitments [] e = refl
no_commitments (t ∷ ts) e = cc

-- What the creation of a batch makes of a ledger: the open transfers of the asset, and no others,
-- get its identifier, and there is one; its root and count are those of their commitments; it carries the asset and
-- is put last; the balances stay, no open transfer of the asset is left, and the transfers that
-- carry its identifier afterwards are those that it took.
abbrev pub Covers : Config → String → SettlementBatch → Ledger → Ledger → Type 0
Covers cfg asset b s s' =
    (cs : List String) × Batched asset b.id s.transfers s'.transfers cs
    × (b.merkle_root ≡ merkle_root cfg cs)
    × (b.transfer_count ≡ length cs)
    × (cs ≡ [] → ⊥)
    × (b.asset ≡ asset)
    × (s'.batches ≡ s.batches ++ b ∷ [])
    × (s'.accounts ≡ s.accounts)
    × NoneOpen asset s'.transfers
    × (commitments (keep (in_batches (b.id ∷ [])) s'.transfers) ≡ cs)

with_batch-Covers :
    (cfg : Config) (env : Env) (input : BatchInput) (s : Ledger)
    → all (not_in_batches (new_batch_id env ∷ [])) s.transfers ≡ true
    → (keep (is_batchable (to_lower input.asset_key)) s.transfers ≡ [] → ⊥)
    → Covers cfg
        (to_lower input.asset_key)
        (new_batch cfg env input s)
        s
        (with_batch cfg env input s)
unfolding with_batch new_batch
with_batch-Covers cfg env input s fresh some_open =
    let a = to_lower input.asset_key in
    (
      commitments (keep (is_batchable a) s.transfers),
      assign_batch-Batched a (new_batch_id env) s.transfers,
      refl,
      sym (length-commitments (keep (is_batchable a) s.transfers)),
      λ e. some_open (no_commitments (keep (is_batchable a) s.transfers) e),
      refl,
      refl,
      refl,
      assigned-NoneOpen a env s.transfers,
      assigned-commitments a env s.transfers fresh,
    )

-- A batch that is created under a new identifier covers, in memory and in the file, exactly the
-- transfers that were open before: those of its asset in no batch, a payout among them only once it
-- is settled. They get its identifier, its root and count are those of their commitments in order,
-- every other transfer and every balance stays, and no transfer of the asset is open afterwards.
pub create_settlement_batch-Covers :
    (cfg : Config) (env : Env) (input : BatchInput) (w : World) (b : SettlementBatch)
    → all (not_in_batches (new_batch_id env ∷ [])) w.memory.transfers ≡ true
    → (create_settlement_batch cfg env input w).0 ≡ ok (some b)
    → Covers cfg
        (to_lower input.asset_key)
        b
        w.memory
        (create_settlement_batch cfg env input w).1.memory
      × Covers cfg
          (to_lower input.asset_key)
          b
          w.memory
          (create_settlement_batch cfg env input w).1.disk
create_settlement_batch-Covers cfg env input w b fresh done =
    let (allowed, _, in_memory, on_disk, new) =
      Outcome-changed (create_settlement_batch-Outcome cfg env input w) (some b) done some_none in
    let a = to_lower input.asset_key in
    let covers = with_batch-Covers cfg env input w.memory fresh allowed.1 in
    let same : new_batch cfg env input w.memory ≡ b = some_injective (sym new) in
    let covered =
      subst (λ x. Covers cfg a x w.memory (with_batch cfg env input w.memory)) same covers in
    (
      subst (Covers cfg a b w.memory) (sym in_memory) covered,
      subst (Covers cfg a b w.memory) (sym on_disk) covered,
    )
  where
    some_none : some b ≡ none → ⊥
    some_none e = cc
