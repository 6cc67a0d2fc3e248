-- ===== src/Retrieval/Dense.antt =====
-- A dense search from end to end: the guard on the base's model, the store in memory, and the cut at
-- the allowance's `top_k`.
use mathlib.Core.List.{Perm}
use comet_rag.Prelude.{
  pos, min, String, ◌≡◌, refl, ap, ◌∙◌, Bool, true, false, ◌&&◌, none, some, List, [], ◌∷◌, ◌++◌,
  arith, eq_iff, if◌then◌else◌, length, take, map, keep,
}
use comet_rag.Dict.{lookup, values}
use comet_rag.Effect.{pure, raise, lift, atomic, pause, ◌>>=◌}
use comet_rag.Effect.Runs.{quiet, bind_returns}
use comet_rag.Floats.{Floats, IsOrdered}
use comet_rag.Floats.Ranking.{IsRanked}
use comet_rag.VectorStore.{Objects, SearchHit}
use comet_rag.VectorStore.Memory.{asearch, asearch_keywords, passes}
use comet_rag.VectorStore.Keywords.{Term}
use comet_rag.VectorStore.Sound.{WellFormed}
use comet_rag.VectorStore.Search.{scored_hit, asearch_lem}
use comet_rag.Knowledge.{KnowledgeBaseService, resolve, arequire, aget, assert_model_matches}
use comet_rag.Retrieval.{RetrievalResult, Allowance, result_of, ranked, ranked_by, search_within}
use comet_rag.Retrieval.Chunks.{RetrievedChunk, dense_chunks}
use comet_rag.Retrieval.Recall.{
  SearchQuery, SearchMode, RecallResult, RetrievalService, dense_result, dense_hits, guard,
  recall_in, recall, effective_fetch_k, normalize_filter,
}
use comet_rag.Stores.{Stores, Collection, KnowledgeBase, ok, World}

module _ {F J : Type 0} (fl : Floats F) (objects : Objects J) (as_set : List Term → List Term)
    (vector : String → List F) (base : KnowledgeBaseService) where
  -- The service over the store in memory, with a model that embeds every text and no reranker.
  abbrev pub memory_service : RetrievalService F J
  memory_service = record {
    aembed_query = λ text. pure (vector text);
    asearch = asearch fl objects;
    keyword_search = some (asearch_keywords fl objects as_set);
    knowledge_base = some base;
    reranker = none;
  }

  no_reranker :
      (a : Allowance) (q : SearchQuery J) (recalled : RecallResult F J)
      (chunks : List (RetrievedChunk F J)) (w : World F J)
      → recalled.chunks ≡ chunks
      → (ranked fl memory_service a q recalled chunks w).0
        ≡ ok (result_of fl memory_service a recalled chunks false recalled.degradations)
  unfolding pure
  no_reranker a q recalled [] w e = refl
  no_reranker a q recalled (c ∷ cs) w e =
      ranked_by_none (q.rerank && a.allow_rerank)
      ∙ ap (λ l. ok (result_of fl memory_service a recalled l false recalled.degradations)) e
    where
      ranked_by_none :
          (b : Bool)
          → (ranked_by fl memory_service a q recalled (if b then none else none) w).0
            ≡ ok
                (result_of fl memory_service a recalled recalled.chunks false recalled.degradations)
      ranked_by_none true = refl
      ranked_by_none false = refl

  module _ (d : Stores F J) where
    guarded :
        (q : SearchQuery J) (row : KnowledgeBase)
        → lookup q.kb_id d.rows ≡ some row
        → row.embedding_model ≡ base.model
        → guard fl memory_service q (some base) (quiet d) ≡ (ok tt, quiet d)
    unfolding resolve arequire aget assert_model_matches pure raise lift atomic pause ◌>>=◌
    guarded q row there model = ground (arith, there, model, eq_iff row.embedding_model base.model)

    -- If scores are ordered as numbers are, nobody interrupts, the store is well formed, the base is
    -- there with the service's model, its collection is there and the model's vectors have the
    -- collection's dimension, then a dense search returns. Its chunks are the first `top_k` of a
    -- ranking of all the records that pass the filter, each scored by its similarity to the query,
    -- of which the store has handed over `effective_fetch_k`, or as many as pass.
    pub dense_search_lem :
        IsOrdered fl
        → WellFormed d
        → (a : Allowance) (query : SearchQuery J) (row : KnowledgeBase) (c : Collection F J)
        → let q = record query { mode = SearchMode.dense } in
          let passing = keep (passes fl objects (normalize_filter q.filter)) (values c.records) in
          lookup q.kb_id d.rows ≡ some row
          → row.embedding_model ≡ base.model
          → lookup q.kb_id d.collections ≡ some c
          → length (vector q.query) ≡ c.dim
          → (r : RetrievalResult F J) × (hits : List (SearchHit F J)) × (rest : List
              (SearchHit F J))
            × ((search_within fl memory_service a q (quiet d)).0 ≡ ok r)
            × (r.chunks ≡ take a.top_k (dense_chunks 1 hits))
            × Perm (hits ++ rest) (map (scored_hit fl objects (vector q.query)) passing)
            × IsRanked fl (λ hit. hit.score) (λ hit. hit.id) (hits ++ rest)
            × (length hits ≡ min (effective_fetch_k q) (length passing))
    unfolding search_within recall pure
    dense_search_lem order wf a query row c there model coll dim =
        let q = record query { mode = SearchMode.dense } in
        let filter = normalize_filter q.filter in
        let k = effective_fetch_k q in
        let s =
          asearch_lem fl objects order (quiet d) q.kb_id (vector q.query) k filter c wf coll dim in
        let hits = s.0 in
        let searched = asearch fl objects q.kb_id (vector q.query) (pos k) filter (quiet d) in
        let found : searched ≡ (ok hits, searched.1) = λ i. (s.2 i, searched.1) in
        let recalled = dense_result fl [] hits in
        let e1 : recall_in fl memory_service q k filter (quiet d) ≡ (ok recalled, searched.1) =
          bind_returns (dense_hits fl memory_service q k filter)
            (λ hs. pure (dense_result fl [] hs)) (quiet d) searched.1 hits
            (bind_returns (pure (vector q.query)) (λ v. asearch fl objects q.kb_id v (pos k) filter)
                (quiet d) (quiet d) (vector q.query) refl
              ∙ found) in
        let e2 : recall fl memory_service q (quiet d) ≡ (ok recalled, searched.1) =
          bind_returns (guard fl memory_service q (some base))
            (λ _. recall_in fl memory_service q k filter) (quiet d) (quiet d) tt
            (guarded q row there model)
          ∙ e1 in
        (
          result_of fl memory_service a recalled recalled.chunks false [],
          hits,
          s.1,
          ap (λ o. o.0)
                (bind_returns (recall fl memory_service q)
                  (λ x. ranked fl memory_service a q x x.chunks) (quiet d) searched.1 recalled e2)
              ∙ no_reranker a q recalled recalled.chunks searched.1 refl,
          refl,
          s.3,
          s.4,
          s.5,
        )
