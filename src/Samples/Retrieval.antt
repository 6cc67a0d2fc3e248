-- ===== src/Samples/Retrieval.antt =====
-- Runs of comet_rag/services/retrieval.py on a store of three records.
use mathlib.Core.List.{Perm}
use comet_rag.Prelude.{
  ℕ, min, ℤ, pos, String, ◌≡◌, refl, true, false, ◌&&◌, ◌||◌, none, some, List, [], ◌∷◌, ◌++◌,
  arith, length, map, take, keep,
}
use comet_rag.Dict.{lookup, values}
use comet_rag.Effect.{raise, lift, ◌>>=◌}
use comet_rag.Effect.Runs.{quiet}
use comet_rag.Floats.Ranking.{IsRanked}
use comet_rag.VectorStore.{SearchHit}
use comet_rag.VectorStore.Memory.{passes}
use comet_rag.VectorStore.Search.{scored_hit}
use comet_rag.Retrieval.{Allowance, RetrievalResult, search_within}
use comet_rag.Retrieval.Chunks.{RetrievedChunk, dense_chunks}
use comet_rag.Retrieval.Rerank.{Ranked, RerankDocument, Reranked, align, rerank}
use comet_rag.Retrieval.Recall.{
  SearchQuery, SearchMode, RecallResult, recall, join_channels, effective_fetch_k, normalize_filter,
}
use comet_rag.Retrieval.Placement.{Placed}
use comet_rag.Retrieval.Alignment.{body, align_lem}
use comet_rag.Retrieval.Answers.{Answers, search_within-Answers}
use comet_rag.Retrieval.Channels.{failed, propagates, join_channels-failed, rerank_returns}
use comet_rag.Retrieval.Dense.{memory_service, dense_search_lem}
use comet_rag.Stores.{ok, err, raised}
use comet_rag.Stores.{Result, M, is_exception}
use comet_rag.Samples.Numbers.{numbers, numbers-IsOrdered}
use comet_rag.Samples.Search.{
  objects, by_keyword, as_is, question, kind_one, hit_id, hit_score, base, row, notes, stores,
  stores-WellFormed,
}

-- A reranker that swaps two candidates.
abbrev sample : String → ℕ → RetrievedChunk ℤ ℕ
sample id score = record {
  id = id;
  text = "text";
  score = pos score;
  metadata = [];
  vector_score = some (pos score);
  keyword_score = none;
  fusion_score = none;
  vector_rank = some 1;
  keyword_rank = none;
}

abbrev candidates : List (RetrievedChunk ℤ ℕ)
candidates = sample "a" 900 ∷ sample "b" 800 ∷ []

abbrev swapped : List (Ranked ℤ)
swapped = record { index = pos 1; score = pos 7 } ∷ record { index = pos 0; score = pos 6 } ∷ []

abbrev chunk_score : RetrievedChunk ℤ ℕ → ℤ
chunk_score c = c.score

abbrev item_score : Ranked ℤ → ℤ
item_score r = r.score

align_lem_example :
    (r : Reranked ℤ ℕ) × (align candidates swapped ≡ ok r)
    × Perm (map body r.0) (map body candidates)
    × (r.1 ≡ true → map chunk_score r.0 ≡ map item_score swapped)
    × (r.1 ≡ false → r.0 ≡ candidates)
    × (r.1 ≡ true → Placed candidates swapped r.0)
align_lem_example = align_lem candidates swapped

abbrev broken : String → List (RerankDocument ℕ) → M ℤ ℕ (List (Ranked ℤ))
broken query documents = raise (raised "ConnectionError" ("OSError" ∷ []))

rerank_returns_example :
    (r : Reranked ℤ ℕ) × ((rerank broken "q" candidates (quiet stores)).0 ≡ ok r)
unfolding raise lift ◌>>=◌ is_exception
rerank_returns_example =
    rerank_returns broken "q" candidates (quiet stores) (λ e h. ground (arith, h))

abbrev down : Result (List (SearchHit ℤ ℕ))
down = err (raised "ConnectionError" ("OSError" ∷ []))

join_channels-failed_example :
    failed (join_channels numbers down (ok by_keyword))
    ≡ propagates down || propagates (ok by_keyword) || (failed down && failed (ok by_keyword))
join_channels-failed_example = join_channels-failed numbers numbers-IsOrdered down (ok by_keyword)

abbrev vector : String → List ℤ
vector text = question

abbrev asked : SearchQuery ℕ
asked = record {
  kb_id = "notes";
  query = "q";
  top_k = 1;
  fetch_k = none;
  filter = kind_one;
  rerank = true;
  mode = SearchMode.dense;
}

abbrev normal_load : Allowance
normal_load = record { top_k = 1; allow_rerank = true; level = none }

dense_search_lem_example :
    (r : RetrievalResult ℤ ℕ) × (hits : List (SearchHit ℤ ℕ)) × (rest : List (SearchHit ℤ ℕ))
    × ((search_within numbers
          (memory_service numbers objects as_is vector base)
          normal_load
          asked
          (quiet stores)).0
        ≡ ok r)
    × (r.chunks ≡ take 1 (dense_chunks 1 hits))
    × Perm (hits ++ rest) (
        map
          (scored_hit numbers objects question)
          (keep (passes numbers objects (normalize_filter kind_one)) (values notes.records)))
    × IsRanked numbers hit_score hit_id (hits ++ rest)
    × (length hits
        ≡ min (effective_fetch_k asked) (
            length
              (keep (passes numbers objects (normalize_filter kind_one)) (values notes.records))))
unfolding lookup
dense_search_lem_example =
    dense_search_lem numbers objects as_is vector base stores numbers-IsOrdered stores-WellFormed
      normal_load asked row notes refl refl refl refl

answered :
    (r : RetrievalResult ℤ ℕ) × ((search_within numbers
        (memory_service numbers objects as_is vector base)
        normal_load
        asked
        (quiet stores)).0
      ≡ ok r)
unfolding lookup
answered =
    let s =
      dense_search_lem numbers objects as_is vector base stores numbers-IsOrdered stores-WellFormed
        normal_load asked row notes refl refl refl refl in
    (s.0, s.3)

search_within-Answers_example :
    (recalled : RecallResult ℤ ℕ) × ((recall numbers
        (memory_service numbers objects as_is vector base)
        asked
        (quiet stores)).0
      ≡ ok recalled)
    × Answers normal_load asked recalled answered.0
search_within-Answers_example =
    search_within-Answers numbers (memory_service numbers objects as_is vector base) normal_load
      asked (quiet stores) answered.0 answered.1
