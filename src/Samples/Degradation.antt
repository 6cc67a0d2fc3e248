-- ===== src/Samples/Degradation.antt =====
-- A controller at its second level that recovers in two looks: runs of
-- comet_rag/core/degradation.py.
use comet_rag.Prelude.{ℕ, ◌+◌, ◌*◌, ◌≤◌, ◌≡◌, refl, true, some, [], ◌∷◌, arith}
use comet_rag.Degradation.{
  normal, no_rerank, lower_top_k, rank, Ratio, DegradationSettings, DegradationController,
  record_outcome, failure_rate, target_at, switch, settle_level, current_level,
}
use comet_rag.Degradation.Hysteresis.{outcome, observed, recoveries_apart}

abbrev fifths : ℕ → Ratio
fifths n = record { num = n; den = 5 }

abbrev settings : DegradationSettings
settings = record {
  failure_rate = λ l. fifths (rank l + 1);
  saturation = λ l. fifths (10 * (rank l + 1));
  min_samples = 2;
  window = 3;
  recover_after = 30;
  top_k_factor = record { num = 1; den = 2 };
}

abbrev degraded : DegradationController
degraded = record {
  settings = settings;
  outcomes = true ∷ true ∷ true ∷ [];
  level = lower_top_k;
  level_since = 100;
  saturation = record { num = 0; den = 1 };
  transitions = [];
}

better : DegradationController
better = settle_level 130 normal degraded

recovered : DegradationController
recovered = settle_level 165 normal (observed (outcome true ∷ []) better)

first_look : current_level 130 degraded ≡ some (no_rerank, better)
unfolding current_level better settle_level failure_rate target_at switch
first_look = refl

second_look : current_level 165 (observed (outcome true ∷ []) better) ≡ some (normal, recovered)
unfolding current_level better recovered settle_level failure_rate target_at switch observed
    record_outcome
second_look = refl

recoveries_apart_example : (130 + 30 ≤ 165) × (rank normal + 2 ≡ rank lower_top_k)
recoveries_apart_example =
    recoveries_apart 130 165 degraded better recovered no_rerank normal (outcome true ∷ [])
      first_look second_look (omega arith) (omega arith) (omega arith)
