-- ===== src/Retrieval.antt =====
-- `RetrievalService` of comet_rag/services/retrieval.py. The ports are parameters: the embedding
-- model, the two searches and the reranker are coroutines over the stores. The two channels of a
-- hybrid search write nothing that the other reads, so `gather` is one after the other.
pub mod Chunks
pub mod Rerank
pub mod Recall
pub mod Placement
pub mod Alignment
pub mod Answers
pub mod Channels
pub mod Dense
use comet_rag.Prelude.{
  ℕ, String, Bool, true, false, ◌&&◌, Option, none, some, List, [], ◌∷◌, ◌++◌, if◌then◌else◌,
  length, take,
}
use comet_rag.Degradation.{
  Level, normal, no_rerank, lower_top_k, reject_writes, name, DegradationController, current_level,
  allow_rerank, adjust_top_k,
}
use comet_rag.Effect.{pure, lift, ◌>>=◌}
use comet_rag.Floats.{Floats}
use comet_rag.Retrieval.Chunks.{RetrievedChunk}
use comet_rag.Retrieval.Rerank.{Ranked, RerankDocument, rerank, Reranked}
use comet_rag.Retrieval.Recall.{
  SearchMode, RecallChannel, SearchQuery, RecallResult, RetrievalService, recall,
}
use comet_rag.Stores.{Error, raised, Result, ok, err, M, RetrievalDegradation}

pub record RetrievalResult (F J : Type 0) : Type 0 where
  pub chunks : List (RetrievedChunk F J)
  pub reranked : Bool
  pub fetched : ℕ
  pub effective_top_k : ℕ
  pub degraded : Option String
  pub mode : SearchMode
  pub channels : List RecallChannel
  pub degradations : List RetrievalDegradation

-- What the load lets a search do.
pub record Allowance : Type 0 where
  pub top_k : ℕ
  pub allow_rerank : Bool
  pub level : Option String

-- What the clock says at the three calls of `level()`
pub record Ticks : Type 0 where
  pub at_level : ℕ
  pub at_top_k : ℕ
  pub at_rerank : ℕ

-- `current.name`, and None for NORMAL
abbrev pub reported : Level → Option String
reported normal = none
reported level = some (name level)

-- One call of `level()` after another; none for a division by 0
abbrev pub level_then :
    {A : Type 0}
    → ℕ
    → Option DegradationController
    → (Level → DegradationController → Option A)
    → Option A
level_then at none f = none
level_then at (some c) f = elim (current_level at c) [ none ↦ none | some r ↦ f r.0 r.1 ]

-- The first lines of `search`, with the controller that they leave
unfoldable pub allowance :
    Ticks → Option DegradationController → ℕ → Option (Allowance × Option DegradationController)
unfolding current_level allow_rerank adjust_top_k
allowance ticks none top_k =
    some (record { top_k = top_k; allow_rerank = true; level = none }, none)
allowance ticks (some c) top_k = level_then ticks.at_level (some c) λ level c₁.
    level_then ticks.at_top_k (some c₁) λ second c₂.
      level_then ticks.at_rerank (some c₂) λ third c₃. some (
        record {
          top_k = adjust_top_k c.settings second top_k;
          allow_rerank = allow_rerank third;
          level = reported level;
        },
        some c₃,
      )

module _ {F J : Type 0} (fl : Floats F) (service : RetrievalService F J) where
  abbrev pub result_of :
      Allowance
      → RecallResult F J
      → List (RetrievedChunk F J)
      → Bool
      → List RetrievalDegradation
      → RetrievalResult F J
  result_of a recalled chunks reranked degradations = record {
    chunks = take a.top_k chunks;
    reranked = reranked;
    fetched = length recalled.chunks;
    effective_top_k = a.top_k;
    degraded = a.level;
    mode = recalled.mode;
    channels = recalled.channels;
    degradations = degradations;
  }

  -- `(*degradations, rerank_degradation)`
  abbrev pub with_degradation :
      List RetrievalDegradation → Option RetrievalDegradation → List RetrievalDegradation
  with_degradation ds none = ds
  with_degradation ds (some d) = ds ++ d ∷ []

  abbrev pub ranked_result : Allowance → RecallResult F J → Reranked F J → RetrievalResult F J
  ranked_result a recalled (chunks, did_rerank, degradation) =
      result_of a recalled chunks did_rerank (with_degradation recalled.degradations degradation)

  abbrev pub ranked_by :
      Allowance
      → SearchQuery J
      → RecallResult F J
      → Option (String → List (RerankDocument J) → M F J (List (Ranked F)))
      → M F J (RetrievalResult F J)
  ranked_by a q recalled none =
      pure (result_of a recalled recalled.chunks false recalled.degradations)
  ranked_by a q recalled (some arank) =
      rerank arank q.query recalled.chunks >>= λ r. pure (ranked_result a recalled r)

  -- After `_recall`
  abbrev pub ranked :
      Allowance
      → SearchQuery J
      → RecallResult F J
      → List (RetrievedChunk F J)
      → M F J (RetrievalResult F J)
  ranked a q recalled [] = pure (result_of a recalled [] false recalled.degradations)
  ranked a q recalled (c ∷ cs) =
      ranked_by a q recalled (if q.rerank && a.allow_rerank then service.reranker else none)

  -- `search`, with what the load allows
  unfoldable pub search_within : Allowance → SearchQuery J → M F J (RetrievalResult F J)
  unfolding recall rerank
  search_within a q = recall fl service q >>= λ recalled. ranked a q recalled recalled.chunks

  -- `search`: the coroutine, and the controller
  abbrev pub search_as :
      SearchQuery J
      → Option DegradationController
      → Option (Allowance × Option DegradationController)
      → M F J (RetrievalResult F J) × Option DegradationController
  search_as q degradation none =
      (lift (err (raised "ZeroDivisionError" ("ArithmeticError" ∷ []))), degradation)
  search_as q degradation (some (a, c)) = (search_within a q, c)

  unfoldable pub search :
      Ticks
      → Option DegradationController
      → SearchQuery J
      → M F J (RetrievalResult F J) × Option DegradationController
  unfolding allowance search_within
  search ticks degradation q = search_as q degradation (allowance ticks degradation q.top_k)
