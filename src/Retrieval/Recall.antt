-- ===== src/Retrieval/Recall.antt =====
-- `_recall` and `_hybrid_recall` of comet_rag/services/retrieval.py: dense, keyword and hybrid
-- recall, and a hybrid one with one channel down.
use comet_rag.Prelude.{
  ℕ, ◌*◌, max, ℤ, pos, String, Bool, true, false, ◌||◌, Option, none, some, List, [], ◌∷◌, ◌==◌,
  if◌then◌else◌, any, map,
}
use comet_rag.Effect.{pure, raise, lift, attempt, ◌>>=◌, ◌>>◌}
use comet_rag.Floats.{Floats}
use comet_rag.VectorStore.{SearchHit, Filter}
use comet_rag.Fusion
use comet_rag.Fusion.{reciprocal_rank_fusion, default_rrf_k, FusedHit}
use comet_rag.Knowledge.{KnowledgeBaseService, resolve}
use comet_rag.Retrieval.Chunks.{RetrievedChunk, dense_chunks, keyword_chunks, fused_chunk}
use comet_rag.Retrieval.Rerank.{Ranked, RerankDocument}
use comet_rag.Stores.{
  Error, collection_not_found, collection_schema_mismatch, dimension_mismatch, value_error, raised,
  interrupted, keyword_search_unavailable, hybrid_recall_failed, type_name, Result, ok, err, M,
  RetrievalStage, RetrievalDegradation, dense_stage, keyword_stage,
}

pub data SearchMode : Type 0 where
  dense keyword hybrid : SearchMode

pub data RecallChannel : Type 0 where
  dense_channel keyword_channel : RecallChannel

pub record SearchQuery (J : Type 0) : Type 0 where
  pub kb_id : String
  pub query : String
  pub top_k : ℕ
  pub fetch_k : Option ℕ
  pub filter : Option (Filter J)
  pub rerank : Bool
  pub mode : SearchMode

module _ {J : Type 0} where
  -- `effective_fetch_k`
  unfoldable pub effective_fetch_k : SearchQuery J → ℕ
  effective_fetch_k q = elim q.fetch_k [
    | some fetch_k ↦ max fetch_k q.top_k
    | none ↦ max (q.top_k * 4) 20
  ]

  -- `_normalize_filter`: `filter or None`
  unfoldable pub normalize_filter : Option (Filter J) → Option (Filter J)
  normalize_filter none = none
  normalize_filter (some []) = none
  normalize_filter (some (e ∷ es)) = some (e ∷ es)

pub record RecallResult (F J : Type 0) : Type 0 where
  pub chunks : List (RetrievedChunk F J)
  pub mode : SearchMode
  pub channels : List RecallChannel
  pub degradations : List RetrievalDegradation

-- What the service is made with, but for the degradation controller.
pub record RetrievalService (F J : Type 0) : Type 0 where
  pub aembed_query : String → M F J (List F)
  pub asearch : String → List F → ℤ → Option (Filter J) → M F J (List (SearchHit F J))
  pub keyword_search :
      Option (String → String → ℤ → Option (Filter J) → M F J (List (SearchHit F J)))
  pub knowledge_base : Option KnowledgeBaseService
  pub reranker : Option (String → List (RerankDocument J) → M F J (List (Ranked F)))

-- `_NON_DEGRADABLE_RECALL_ERRORS`, the built-in ones
abbrev pub non_degradable : List String
non_degradable =
    "AssertionError" ∷ "AttributeError" ∷ "KeyError" ∷ "MemoryError" ∷ "NotImplementedError"
    ∷ "TypeError" ∷ "ValueError" ∷ []

abbrev pub is_listed : String → Bool
is_listed name = any (λ n. n == name) non_degradable

-- `_must_propagate`
unfoldable pub must_propagate : Error → Bool
must_propagate (interrupted name) = true
must_propagate (collection_not_found kb_id) = true
must_propagate (collection_schema_mismatch kb_id reasons) = true
must_propagate (dimension_mismatch kb_id expected actual) = true
must_propagate (value_error text) = true
must_propagate (raised name bases) = is_listed name || any is_listed bases
must_propagate _ = false

-- `_channel_degradation`
unfoldable pub channel_degradation : RetrievalStage → Error → RetrievalDegradation
unfolding type_name
channel_degradation stage e = record {
  stage = stage;
  reason = "channel_unavailable";
  error_type = some (type_name e);
}

-- The exceptions of the fusion, whose `rrf_k` and names are fixed
abbrev pub fusion_error : Fusion.Error → Error
fusion_error Fusion.bad_rrf_k = value_error "rrf_k"
fusion_error Fusion.blank_channel = value_error "channel"
fusion_error (Fusion.key_error id) = raised "KeyError" ("LookupError" ∷ [])

module _ {F J : Type 0} (fl : Floats F) where
  abbrev pub dense_result : List RetrievalDegradation → List (SearchHit F J) → RecallResult F J
  dense_result degradations hits = record {
    chunks = dense_chunks 1 hits;
    mode = dense;
    channels = dense_channel ∷ [];
    degradations = degradations;
  }

  abbrev pub keyword_result : List RetrievalDegradation → List (SearchHit F J) → RecallResult F J
  keyword_result degradations hits = record {
    chunks = keyword_chunks 1 hits;
    mode = keyword;
    channels = keyword_channel ∷ [];
    degradations = degradations;
  }

  abbrev pub hybrid_result : Fusion.Result (List (FusedHit F J)) → Result (RecallResult F J)
  hybrid_result (Fusion.err e) = err (fusion_error e)
  hybrid_result (Fusion.ok hits) = ok (record {
    chunks = map fused_chunk hits;
    mode = hybrid;
    channels = dense_channel ∷ keyword_channel ∷ [];
    degradations = [];
  })

  -- After both channels have answered or failed and no error has to propagate
  abbrev pub joined :
      Result (List (SearchHit F J)) → Result (List (SearchHit F J)) → Result (RecallResult F J)
  joined (err d) (err k) = err (
      hybrid_recall_failed
        (channel_degradation dense_stage d ∷ channel_degradation keyword_stage k ∷ []))
  joined (err d) (ok ks) = ok (keyword_result (channel_degradation dense_stage d ∷ []) ks)
  joined (ok ds) (err k) = ok (dense_result (channel_degradation keyword_stage k ∷ []) ds)
  joined (ok ds) (ok ks) =
      hybrid_result (reciprocal_rank_fusion fl (("dense", ds) ∷ ("keyword", ks) ∷ []) default_rrf_k)

  -- The loop that raises what must propagate, the dense channel's first
  unfoldable pub join_channels :
      Result (List (SearchHit F J)) → Result (List (SearchHit F J)) → Result (RecallResult F J)
  unfolding must_propagate channel_degradation fused_chunk reciprocal_rank_fusion
  join_channels (err d) (err k) =
      if must_propagate d then err d else if must_propagate k then err k else joined (err d) (err k)
  join_channels (err d) (ok ks) = if must_propagate d then err d else joined (err d) (ok ks)
  join_channels (ok ds) (err k) = if must_propagate k then err k else joined (ok ds) (err k)
  join_channels (ok ds) (ok ks) = joined (ok ds) (ok ks)

  -- `gather(…, return_exceptions=True)` keeps an exception as a result
  abbrev pub caught : {A : Type 0} → M F J A → M F J (Result A)
  caught m = attempt m (λ a. pure (ok a)) (λ e. pure (err e))

  module _ (service : RetrievalService F J) where
    -- `_dense_hits`
    abbrev pub dense_hits : SearchQuery J → ℕ → Option (Filter J) → M F J (List (SearchHit F J))
    dense_hits q fetch_k filter = service.aembed_query q.query >>= λ embedding.
        service.asearch q.kb_id embedding (pos fetch_k) filter

    -- `_hybrid_recall`
    abbrev pub hybrid_recall :
        SearchQuery J
        → (String → String → ℤ → Option (Filter J) → M F J (List (SearchHit F J)))
        → ℕ
        → Option (Filter J)
        → M F J (RecallResult F J)
    hybrid_recall q keyword_search fetch_k filter = caught (dense_hits q fetch_k filter) >>= λ ds.
        caught (keyword_search q.kb_id q.query (pos fetch_k) filter) >>= λ ks.
        lift (join_channels ds ks)

    abbrev pub with_keywords :
        SearchQuery J
        → Option (String → String → ℤ → Option (Filter J) → M F J (List (SearchHit F J)))
        → ℕ
        → Option (Filter J)
        → M F J (RecallResult F J)
    with_keywords q none fetch_k filter = raise keyword_search_unavailable
    with_keywords q (some keyword_search) fetch_k filter = elim q.mode [
      | hybrid ↦ hybrid_recall q keyword_search fetch_k filter
      | _ ↦ keyword_search q.kb_id q.query (pos fetch_k) filter >>= λ hits.
          pure (keyword_result [] hits)
    ]

    abbrev pub recall_in : SearchQuery J → ℕ → Option (Filter J) → M F J (RecallResult F J)
    recall_in q fetch_k filter = elim q.mode [
      | dense ↦ dense_hits q fetch_k filter >>= λ hits. pure (dense_result [] hits)
      | _ ↦ with_keywords q service.keyword_search fetch_k filter
    ]

    -- The guard on the base's model, if the service has one
    abbrev pub guard : SearchQuery J → Option KnowledgeBaseService → M F J (Unit {0})
    guard q none = pure tt
    guard q (some knowledge_base) = resolve knowledge_base q.kb_id >> pure tt

    -- `_recall`
    unfoldable pub recall : SearchQuery J → M F J (RecallResult F J)
    unfolding effective_fetch_k normalize_filter join_channels resolve
    recall q =
        guard q service.knowledge_base
        >> recall_in q (effective_fetch_k q) (normalize_filter q.filter)
