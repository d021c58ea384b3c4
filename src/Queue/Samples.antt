-- ===== src/Queue/Samples.antt =====
-- The evidence of the gate: `effectiveKEffTarget`, `recordConcurrencySample`, `recordKEffSample`. The
-- write of the evidence to `ConcentrationStateStore`, whose errors the queue swallows, is left out.
use px.Prelude.{
  ℕ, ◌+◌, ◌*◌, String, Bool, false, ◌||◌, ◌==◌, List, [], ◌∷◌, ◌++◌, keep, length, or_else, ltb,
  leb, if◌then◌else◌,
}
use px.Prelude.Dict.{Dict, lookup, insert}
use px.Prelude.Action.{ok}
use px.Concentration.Target.{KEffSample, AdaptiveTargetInput, adaptive_k_eff_target}
use px.Queue.State.{GateOptions, QueueAction}

abbrev pub target_input : GateOptions → ℕ → List KEffSample → AdaptiveTargetInput
target_input gate now samples = record {
  samples = samples;
  now_ms = now;
  window_ms = gate.window_ms;
  min_samples = gate.min_samples;
  quantile_num = gate.quantile_num;
  quantile_den = gate.quantile_den;
  ceiling = gate.ceiling;
}

-- `effectiveKEffTarget`. The constructor asks for `minSamples` of 1 at least, so that the adaptive
-- target is a number; 1 stands here for one that is not.
unfoldable pub effective_k_eff_target : GateOptions → Dict (List KEffSample) → ℕ → String → ℕ
effective_k_eff_target gate samples now lane =
    if gate.adaptive
    then or_else (adaptive_k_eff_target (target_input gate now (or_else (lookup lane samples) [])))
        1
    else gate.k_eff_target

-- Whether the first of the samples is before the horizon `now - window`.
abbrev pub starts_before : ℕ → ℕ → List KEffSample → Bool
starts_before now window [] = false
starts_before now window (s ∷ _) = ltb (s.at_ms + window) now

abbrev pub since : ℕ → ℕ → KEffSample → Bool
since now window s = leb now (s.at_ms + window)

abbrev pub trimmed : ℕ → ℕ → List KEffSample → List KEffSample
trimmed now window samples =
    if ltb 4096 (length samples) || starts_before now window samples
    then keep (since now window) samples
    else samples

-- `recordConcurrencySample`
unfoldable pub record_concurrency_sample :
    GateOptions → ℕ → String → ℕ → Dict (List KEffSample) → Dict (List KEffSample)
record_concurrency_sample gate now lane k_eff samples =
    if k_eff == 0
    then samples
    else insert lane
        (trimmed now gate.window_ms
          (or_else (lookup lane samples) [] ++ record { at_ms = now; k_eff = k_eff } ∷ []))
        samples

-- The loop over the lanes of the fresh legs.
unfoldable pub record_lanes :
    GateOptions → ℕ → Dict ℕ → Dict (List KEffSample) → Dict (List KEffSample)
record_lanes gate now [] samples = samples
record_lanes gate now ((lane, anonymity) ∷ lanes) samples =
    record_lanes gate now lanes (record_concurrency_sample gate now lane anonymity samples)

unfoldable pub keep_samples : GateOptions → ℕ → Dict ℕ → QueueAction (Unit {0})
keep_samples gate now lanes w =
    (ok tt, record w { samples = record_lanes gate now lanes w.samples })

-- `kEffPublishLagMs`
abbrev pub k_eff_publish_lag_ms : GateOptions → ℕ
k_eff_publish_lag_ms gate = gate.claim_ttl_ms * 2

-- `recordKEffSample`
unfoldable pub record_k_eff_sample : GateOptions → ℕ → ℕ → QueueAction (Unit {0})
record_k_eff_sample gate now k_eff w = (
  ok tt,
  record w {
    k_eff_samples =
        trimmed now (k_eff_publish_lag_ms gate + 86400000)
          (w.k_eff_samples ++ record { at_ms = now; k_eff = k_eff } ∷ []);
  },
)
