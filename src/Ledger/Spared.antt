-- ===== src/Ledger/Spared.antt =====
-- The burn of expired batches spares the epochs of every transfer that stays.
use px.Prelude.{
  ℕ, String, ◌≡◌, refl, sym, inl, inr, true, false, not, List, [], ◌∷◌, any, keep, Bool-cases,
}
use px.Prelude.Text.{str_eq, str_eq_iff}
use px.Prelude.Action.{Result, ok, err, continue}
use px.Journal.State.{Journal, JournalError}
use px.Journal.Methods.{burn}
use px.Journal.Erasure.{SameEpoch, burn-spares}
use px.Ledger.State.{Config, Env, World}
use px.Ledger.Batches.{
  burn_expired, burn_batches, expired_batch_ids, erasable_epochs, epoch_ids, not_in_batches,
  retain_and_persist, burn_result,
}

erasable_epochs-misses :
    (id : String) (retained epochs : List String)
    → any (str_eq id) retained ≡ true
    → any (str_eq id) (keep (λ e. not (any (str_eq e) retained)) epochs) ≡ false
erasable_epochs-misses id retained [] h = refl
erasable_epochs-misses id retained (x ∷ epochs) h = elim (Bool-cases (any (str_eq x) retained)) [
  | inl held ↦ rw held (erasable_epochs-misses id retained epochs h)
  | inr free ↦ rw free (elim (Bool-cases (str_eq id x)) [
    | inl same ↦ absurd (clash (rw (sym ((str_eq_iff id x).0 same)) at free))
    | inr apart ↦ rw apart (erasable_epochs-misses id retained epochs h)
  ])
]
  where
    clash : any (str_eq id) retained ≡ false → ⊥
    clash e = cc

burn_batches-spares :
    (env : Env) (ids : List String) (id : String) (w : World)
    → any (str_eq id) (epoch_ids (keep (not_in_batches ids) w.memory.transfers)) ≡ true
    → SameEpoch id w.journal (burn_batches env ids w).1.journal
unfolding burn_batches erasable_epochs
burn_batches-spares env [] id w h = (refl, refl, refl)
burn_batches-spares env (b ∷ ids) id w h =
    go (burn env.journal.removal (erasable_epochs (b ∷ ids) w.memory) w.journal) (
      burn-spares env.journal.removal id (erasable_epochs (b ∷ ids) w.memory) w.journal (
        erasable_epochs-misses id (epoch_ids (keep (not_in_batches (b ∷ ids)) w.memory.transfers)) _
          h))
  where
    go :
        (p : Result JournalError ℕ × Journal)
        → SameEpoch id w.journal p.1
        → SameEpoch id w.journal
            (continue
              (burn_result p.0)
              (retain_and_persist env (b ∷ ids) w.memory)
              (record w { journal = p.1 })).1.journal
    go (err e, j) same = same
    go (ok n, j) same = elim (Bool-cases env.persists) [
      | inl written ↦ unfold retain_and_persist in rw written same
      | inr failed ↦ unfold retain_and_persist in rw failed same
    ]

-- The burn of expired batches leaves the keys and the file of an epoch alone when a transfer that
-- stays refers to it, whether the burn and the write of the ledger succeed or fail.
pub burn_expired-spares :
    (cfg : Config) (env : Env) (now : ℕ) (id : String) (w : World)
    → any
        (str_eq id)
        (epoch_ids (keep (not_in_batches (expired_batch_ids cfg now w.memory)) w.memory.transfers))
      ≡ true
    → SameEpoch id w.journal (burn_expired cfg env now w).1.journal
unfolding burn_expired
burn_expired-spares cfg env now id w h =
    burn_batches-spares env (expired_batch_ids cfg now w.memory) id w h
