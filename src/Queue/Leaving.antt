-- ===== src/Queue/Leaving.antt =====
-- What holds of every candidate of the gate holds of every leg that it lets go.
use px.Prelude.{ℕ, String, Bool, true, false, List, [], ◌∷◌, ◌++◌, keep, if◌then◌else◌}
use px.Concentration.Gate.{ReleaseDecision}
use px.Queue.State.{QueueEnv}
use px.Queue.Dispatch.{Candidate}
use px.Queue.Waves.{Returns, bind-Returns, any-Returns, pure-Returns}
use px.Queue.Shuffle.{shuffle_items}
use px.Queue.Gate.{
  decision_of, is_exact, is_denominated, in_refs, release_by, gate_denominated,
  apply_concentration_gate,
}
use px.Queue.Parts.{Every, Every-append, Every-keep, Every-shuffle_from}

module _ (P : Candidate → Type 0) (env : QueueEnv) (network : String) where
  either :
      (b : Bool) (released denominated : List Candidate)
      → Every P released
      → Every P denominated
      → Every P (if b then released else denominated)
  either true released denominated h k = h
  either false released denominated h k = k

  release_by-Returns :
      (now k : ℕ) (exact denominated : List Candidate) (decision : ReleaseDecision)
      → Every P exact
      → Every P denominated
      → Returns (Every P) (release_by env network now k exact denominated decision)
  release_by-Returns now k exact denominated decision h g =
      bind-Returns _ (Every P) _ _ (any-Returns _) (λ a u.
        bind-Returns _ (Every P) _ _ (any-Returns _) (λ b v.
          bind-Returns _ (Every P) _ _ (any-Returns _) (λ c x.
            bind-Returns _ (Every P) _ _ (any-Returns _) (λ draws y.
              pure-Returns (Every P)
                (shuffle_items draws (
                  exact
                  ++ (if decision.gated
                      then keep (in_refs decision.release_group_refs) denominated
                      else denominated)))
                (Every-shuffle_from P draws 0 _ _ (
                  Every-append P exact _ h (
                    either decision.gated _ denominated
                      (Every-keep P (in_refs decision.release_group_refs) denominated g) g)))))))

  gate_denominated-Returns :
      (now : ℕ) (exact denominated : List Candidate)
      → Every P exact
      → Every P denominated
      → Returns (Every P) (gate_denominated env network now exact denominated)
  gate_denominated-Returns now exact [] h g =
      bind-Returns _ (Every P) _ _ (any-Returns _) (λ a u. pure-Returns (Every P) exact h)
  gate_denominated-Returns now exact (d ∷ denominated) h g =
      bind-Returns _ (Every P) _ _ (any-Returns _) (λ samples u.
        bind-Returns _ (Every P) _ _ (any-Returns _) (λ b v.
          release_by-Returns now _ exact (d ∷ denominated)
            (decision_of env now samples (d ∷ denominated)) h g))

  pub apply_concentration_gate-Returns :
      (candidates : List Candidate)
      → Every P candidates
      → Returns (Every P) (apply_concentration_gate env network candidates)
  unfolding apply_concentration_gate
  apply_concentration_gate-Returns candidates h =
      bind-Returns _ (Every P) _ _ (any-Returns _) (λ now u.
        gate_denominated-Returns now (keep is_exact candidates) (keep is_denominated candidates)
          (Every-keep P is_exact candidates h) (Every-keep P is_denominated candidates h))
