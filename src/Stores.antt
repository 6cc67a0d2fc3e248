-- ===== src/Stores.antt =====
-- What the vector store and the repository of knowledge bases keep in memory, and the exceptions of
-- comet_rag/ports/vector_store.py and comet_rag/ports/knowledge_base.py with those that the services
-- over them meet.
use comet_rag.Prelude.{ℕ, ℤ, String, Bool, true, false, Option, List}
use comet_rag.Dict.{Dict}
use comet_rag.VectorStore.{VectorRecord}
use comet_rag.Effect
pub use comet_rag.Effect.{ok, err}

-- `_Collection`
pub record Collection (F J : Type 0) : Type 0 where
  pub dim : ℕ
  pub records : Dict (VectorRecord F J)

-- Times are numbers of ticks.
pub record KnowledgeBase : Type 0 where
  pub kb_id : String
  pub name : String
  pub embedding_model : String
  pub embedding_dim : ℤ
  pub description : Option String
  pub created_at : ℕ
  pub updated_at : ℕ

-- `InMemoryVectorStore._collections`, `InMemoryKnowledgeBaseRepository._rows`, and the clock
pub record Stores (F J : Type 0) : Type 0 where
  pub collections : Dict (Collection F J)
  pub rows : Dict KnowledgeBase
  pub clock : ℕ

-- `RetrievalStage` and `RetrievalDegradation` of comet_rag/services/retrieval.py.
pub data RetrievalStage : Type 0 where
  dense_stage keyword_stage reranker_stage : RetrievalStage

pub record RetrievalDegradation : Type 0 where
  pub stage : RetrievalStage
  pub reason : String
  pub error_type : Option String

-- The `code` of a `RetriableError` that comet_rag/services/ingestion.py raises.
pub data Code : Type 0 where
  document_upstream_transient overloaded : Code
  upstream : ℕ → Code
  transient : String → Code

-- `raised` is any other `Exception`, by its type's name and the names of the bases of that type;
-- `interrupted` is one that is no `Exception`, such as a cancellation.
pub data Error : Type 0 where
  collection_not_found : String → Error
  dimension_mismatch : String → ℕ → ℤ → Error
  collection_schema_mismatch : String → List String → Error
  knowledge_base_not_found : String → Error
  knowledge_base_exists : String → Error
  embedding_model_changed : String → String → String → Error
  value_error : String → Error
  keyword_search_unavailable : Error
  http_status_error : ℕ → Error
  retriable_error : Code → Error
  hybrid_recall_failed : List RetrievalDegradation → Error
  raised : String → List String → Error
  interrupted : String → Error

abbrev pub World : Type 0 → Type 0 → Type 0
World F J = Effect.World (Stores F J)

abbrev pub Result : Type 0 → Type 0
Result A = Effect.Result Error A

abbrev pub M : Type 0 → Type 0 → Type 0 → Type 0
M F J A = Effect.M (Stores F J) Error A

-- The state that a method finds once it has the lock.
abbrev pub turn : {F J : Type 0} → World F J → Stores F J
turn w = (Effect.wake w.others w.db).db

-- `type(exc).__name__`
unfoldable pub type_name : Error → String
type_name (collection_not_found kb_id) = "CollectionNotFound"
type_name (dimension_mismatch kb_id expected actual) = "DimensionMismatch"
type_name (collection_schema_mismatch kb_id reasons) = "CollectionSchemaMismatch"
type_name (knowledge_base_not_found kb_id) = "KnowledgeBaseNotFound"
type_name (knowledge_base_exists kb_id) = "KnowledgeBaseExists"
type_name (embedding_model_changed kb_id expected actual) = "EmbeddingModelChanged"
type_name (value_error text) = "ValueError"
type_name keyword_search_unavailable = "KeywordSearchUnavailable"
type_name (hybrid_recall_failed degradations) = "HybridRecallFailed"
type_name (http_status_error status) = "HTTPStatusError"
type_name (retriable_error code) = "RetriableError"
type_name (raised name bases) = name
type_name (interrupted name) = name

-- `isinstance(exc, Exception)`
unfoldable pub is_exception : Error → Bool
is_exception (interrupted name) = false
is_exception _ = true
