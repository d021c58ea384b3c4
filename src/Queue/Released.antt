-- ===== src/Queue/Released.antt =====
-- What the gate lets go: nothing but the candidates, every exact leg, and whole groups.
use mathlib.Core.Path.{subst}
use px.Prelude.{
  suc, all-keep, ℕ, ◌+◌, String, ◌≡◌, refl, ◌∙◌, Bool, true, false, not, ◌&&◌, ◌||◌, some, List, [],
  ◌∷◌, ◌++◌, all, keep, map, length, ◌-◌, arith, if◌then◌else◌,
}
use px.Prelude.Text.{str_eq_refl}
use px.Prelude.Dict.{Dict}
use px.Prelude.Action.{ok}
use px.Concentration.Gate.{ReleaseDecision, GateParams}
use px.Concentration.Target.{KEffSample}
use px.Queue.State.{◌>>=◌, ask, QueueEnv, QueueWorld}
use px.Queue.Dispatch.{Candidate}
use px.Queue.Waves.{Returns, Yields, bind-Returns, any-Returns, pure-Returns}
use px.Queue.Samples.{effective_k_eff_target}
use px.Queue.Due.{is_due, is_alike, all_alike, all_due_released}
use px.Queue.Shuffle.{count, count-shuffle_from, shuffle_items}
use px.Queue.Gate.{
  target_of, decision_of, is_exact, is_denominated, in_refs, apply_concentration_gate,
  gate_denominated, release_by, merged,
}

-- A candidate leaves when it is exact or its group is released.
abbrev pub leaves : List String → Candidate → Bool
leaves refs c = is_exact c || in_refs refs c

-- What leaves is each candidate that is exact or of one of some groups, as often as it was there, and
-- every candidate that is due is among them.
abbrev Released : (Candidate → Bool) → List Candidate → List Candidate → Type 0
Released due candidates released =
    (refs : List String) × ((p : Candidate → Bool)
      → count p released ≡ count (λ c. p c && leaves refs c) candidates)
    × (all (λ c. not (due c) || leaves refs c) candidates ≡ true)

count-append :
    (p : Candidate → Bool) (xs ys : List Candidate) → count p (xs ++ ys) ≡ count p xs + count p ys
count-append p [] ys = omega arith
count-append p (x ∷ xs) ys = omega (arith, count-append p xs ys)

count-split :
    (p : Candidate → Bool) (refs : List String) (cs : List Candidate)
    → count p (keep is_exact cs) + count p (keep (in_refs refs) (keep is_denominated cs))
      ≡ count (λ c. p c && leaves refs c) cs
count-split p refs [] = refl
count-split p refs (c ∷ cs) = ground (arith, count-split p refs cs)

abbrev refs_of : List Candidate → List String
refs_of cs = map (λ c. c.0.group_ref) cs

count-exact :
    (p : Candidate → Bool) (cs : List Candidate)
    → count p (keep is_exact cs) ≡ count (λ c. p c && leaves [] c) cs
count-exact p [] = refl
count-exact p (c ∷ cs) = ground (arith, count-exact p cs)

count-whole :
    (p : Candidate → Bool) (refs : List String) (cs : List Candidate)
    → all (in_refs refs) cs ≡ true
    → count p (keep is_exact cs) + count p (keep is_denominated cs)
      ≡ count (λ c. p c && leaves refs c) cs
count-whole p refs [] h = refl
count-whole p refs (c ∷ cs) h = ground (arith, count-whole p refs cs)

all-more_refs :
    (r : String) (refs : List String) (cs : List Candidate)
    → all (in_refs refs) cs ≡ true
    → all (in_refs (r ∷ refs)) cs ≡ true
all-more_refs r refs [] h = refl
all-more_refs r refs (c ∷ cs) h = ground (arith, all-more_refs r refs cs)

all-in_refs : (cs : List Candidate) → all (in_refs (refs_of cs)) cs ≡ true
all-in_refs [] = refl
all-in_refs (c ∷ cs) =
    rw (str_eq_refl c.0.group_ref) (all-more_refs c.0.group_ref (refs_of cs) cs (all-in_refs cs))

all-leaves :
    (due : Candidate → Bool) (refs : List String) (cs : List Candidate)
    → all (in_refs refs) cs ≡ true
    → all (λ c. not (due c) || leaves refs c) cs ≡ true
all-leaves due refs [] h = refl
all-leaves due refs (c ∷ cs) h = ground (arith, all-leaves due refs cs)

all-due_leaves :
    (due : Candidate → Bool) (refs : List String) (cs : List Candidate)
    → all (λ c. not (due c) || in_refs refs c) (keep is_denominated cs) ≡ true
    → all (λ c. not (due c) || leaves refs c) cs ≡ true
all-due_leaves due refs [] h = refl
all-due_leaves due refs (c ∷ cs) h = ground (arith, all-due_leaves due refs cs)

module _ (env : QueueEnv) (network : String) (due : Candidate → Bool) where
  merged-Released :
      (candidates exact released : List Candidate)
      → Released due candidates (exact ++ released)
      → Returns (Released due candidates) (merged env exact released)
  merged-Released candidates exact released (refs, law, timely) =
      bind-Returns _ (Released due candidates) _ _ (any-Returns _) (λ draws u.
        pure-Returns (Released due candidates) (shuffle_items draws (exact ++ released)) (
          refs,
          λ p.
              count-shuffle_from p draws 0 (length (exact ++ released) - 1) (exact ++ released)
              ∙ law p,
          timely,
        ))

  decided :
      (cs : List Candidate) (decision : ReleaseDecision) (gated : Bool)
      → all (λ c. not (due c) || in_refs decision.release_group_refs c) (keep is_denominated cs)
        ≡ true
      → Released due cs (
          keep is_exact cs
          ++ (if gated
              then keep (in_refs decision.release_group_refs) (keep is_denominated cs)
              else keep is_denominated cs))
  decided cs decision true h = (
    decision.release_group_refs,
    λ p. count-append p (keep is_exact cs) _ ∙ count-split p decision.release_group_refs cs,
    all-due_leaves due decision.release_group_refs cs h,
  )
  decided cs decision false h = (
    refs_of cs,
    λ p. count-append p (keep is_exact cs) _ ∙ count-whole p (refs_of cs) cs (all-in_refs cs),
    all-leaves due (refs_of cs) cs (all-in_refs cs),
  )

  release_by-Released :
      (now k_eff_target : ℕ) (cs : List Candidate) (decision : ReleaseDecision)
      → all (λ c. not (due c) || in_refs decision.release_group_refs c) (keep is_denominated cs)
        ≡ true
      → Returns (Released due cs) (
          release_by env network now k_eff_target
            (keep is_exact cs)
            (keep is_denominated cs)
            decision)
  release_by-Released now k_eff_target cs decision h =
      bind-Returns _ (Released due cs) _ _ (any-Returns _) (λ a u.
        bind-Returns _ (Released due cs) _ _ (any-Returns _) (λ b v.
          bind-Returns _ (Released due cs) _ _ (any-Returns _) (λ c x.
            merged-Released cs (keep is_exact cs) _ (decided cs decision decision.gated h))))

abbrev pub gate_params : QueueEnv → ℕ → Dict (List KEffSample) → ℕ → GateParams
gate_params env now samples k_eff_target = record {
  k_eff_target = k_eff_target;
  target_for_lane = some (effective_k_eff_target env.gate samples now);
  now = now;
}

alike_kept :
    (ceiling : ℕ) (q : Candidate → Bool) (c : Candidate) (cs : List Candidate)
    → all (is_alike ceiling c) cs ≡ true
    → all (is_alike ceiling c) (keep q cs) ≡ true
alike_kept ceiling q c cs h = all-keep (is_alike ceiling c) q cs h

all_alike-keep :
    (ceiling : ℕ) (q : Candidate → Bool) (ds cs : List Candidate)
    → all (λ c. all (is_alike ceiling c) ds) cs ≡ true
    → all (λ c. all (is_alike ceiling c) (keep q ds)) (keep q cs) ≡ true
all_alike-keep ceiling q ds [] h = refl
all_alike-keep ceiling q ds (c ∷ cs) h =
    ground (arith, alike_kept ceiling q c ds, all_alike-keep ceiling q ds cs)

module _ (env : QueueEnv) (network : String) (now : ℕ) where
  abbrev due_now : Candidate → Bool
  due_now c = is_due env.gate.max_hold_ms now c

  gate_denominated-Released :
      (cs denominated : List Candidate)
      → keep is_denominated cs ≡ denominated
      → all_alike env.gate.max_hold_ms cs ≡ true
      → Returns
          (Released due_now cs)
          (gate_denominated env network now (keep is_exact cs) denominated)
  gate_denominated-Released cs [] e h =
      bind-Returns _ (Released due_now cs) _ _ (any-Returns _) (λ a u.
        pure-Returns (Released due_now cs) (keep is_exact cs)
          ([], λ p. count-exact p cs, all-due_leaves due_now [] cs (rw e)))
  gate_denominated-Released cs (d ∷ ds) e h =
      bind-Returns _ (Released due_now cs) _ _ (any-Returns _) (λ samples u.
        bind-Returns _ (Released due_now cs) _ _ (any-Returns _) (λ b v.
          subst
            (λ xs. Returns (Released due_now cs) (
              release_by env network now (target_of env now samples xs) (keep is_exact cs) xs
                (decision_of env now samples xs)))
            e
            (release_by-Released env network due_now now
              (target_of env now samples (keep is_denominated cs)) cs
              (decision_of env now samples (keep is_denominated cs))
              (all_due_released env.gate.max_hold_ms (keep is_denominated cs)
                (gate_params env now samples (target_of env now samples (keep is_denominated cs)))
                (all_alike-keep env.gate.max_hold_ms is_denominated cs cs h)))))

apply_concentration_gate-Released :
    (env : QueueEnv) (network : String) (candidates : List Candidate) (w : QueueWorld)
    → all_alike env.gate.max_hold_ms candidates ≡ true
    → Yields
        (Released (is_due env.gate.max_hold_ms (env.now w.tick)) candidates)
        (apply_concentration_gate env network candidates w).0
unfolding apply_concentration_gate Returns ask ◌>>=◌
apply_concentration_gate-Released env network candidates w h =
    gate_denominated-Released env network (env.now w.tick) candidates
      (keep is_denominated candidates) refl h (record w { tick = suc w.tick })

-- The gate lets go each candidate that is of no standard amount or of one of some groups, exactly as
-- often as it was given, in some order, and nothing else. Every candidate whose group has waited its
-- cap is among them, when the candidates of a group agree on the time of it.
pub apply_concentration_gate-releases :
    (env : QueueEnv) (network : String) (candidates : List Candidate) (w : QueueWorld)
    (released : List Candidate)
    → all_alike env.gate.max_hold_ms candidates ≡ true
    → (apply_concentration_gate env network candidates w).0 ≡ ok released
    → (refs : List String) × ((p : Candidate → Bool)
        → count p released ≡ count (λ c. p c && leaves refs c) candidates)
      × (all (λ c. not (is_due env.gate.max_hold_ms (env.now w.tick) c) || leaves refs c) candidates
          ≡ true)
apply_concentration_gate-releases env network candidates w released h e =
    subst (Yields (Released (is_due env.gate.max_hold_ms (env.now w.tick)) candidates)) e
      (apply_concentration_gate-Released env network candidates w h)
