-- ===== src/Ingestion.antt =====
-- `_classify`, `_validate_extracted_text_size`, `_index` and `_drop_stale_tail` of
-- comet_rag/services/ingestion.py. Parameters are the ids of chunks (a hash of the source's id and
-- the number of the chunk), the embedding of a batch, what the context does to the task, and the
-- metadata values made of texts and numbers.
pub mod Index
pub mod Numbers
pub mod Whole
use comet_rag.Prelude.{
  ℕ, zero, suc, ◌+◌, ◌-◌, ℤ, pos, String, Bool, true, false, ◌||◌, Option, none, some, List, [],
  ◌∷◌, ◌++◌, ◌==◌, eqb, leb, ltb, if◌then◌else◌, length, take, drop, any,
}
use comet_rag.Dict.{Dict, lookup, insert}
use comet_rag.Effect.{pure, raise, lift, attempt, ◌>>=◌, ◌>>◌}
use comet_rag.Floats.{Floats}
use comet_rag.VectorStore.{Objects, VectorRecord, exactly}
use comet_rag.VectorStore.Memory.{aensure_collection, acount, aupsert, adelete}
use comet_rag.Knowledge.{KnowledgeBaseService, resolve}
use comet_rag.Stores.{
  Error, value_error, raised, http_status_error, retriable_error, Code, document_upstream_transient,
  overloaded, upstream, transient, is_exception, KnowledgeBase, Result, ok, err, M,
}

abbrev pub names_any : List String → String → Bool
names_any names name = any (λ n. n == name) names

-- `isinstance` of an exception by its type's name and its bases'
abbrev pub is_one_of : List String → String → List String → Bool
is_one_of names name bases = names_any names name || any (names_any names) bases

-- `_TRANSIENT`
abbrev pub transient_names : List String
transient_names =
    "TimeoutException" ∷ "NetworkError" ∷ "RemoteProtocolError" ∷ "ConnectionError" ∷ "TimeoutError"
    ∷ []

-- `_classify`
unfoldable pub classify : String → Error → Error
classify stage (raised name bases) =
    if is_one_of ("RetryableDocumentUpstreamError" ∷ []) name bases
    then retriable_error document_upstream_transient
    else if is_one_of ("Overloaded" ∷ []) name bases
    then retriable_error overloaded
    else if is_one_of transient_names name bases
    then retriable_error (transient stage)
    else raised name bases
classify stage (http_status_error status) =
    if leb 500 status || eqb status 429
    then retriable_error (upstream status)
    else http_status_error status
classify stage e = e

-- `_validate_extracted_text_size`, with the size of the text in UTF-8
abbrev pub over_limit : ℕ → Option ℕ → Result (Unit {0})
over_limit size none = ok tt
over_limit size (some limit) =
    if ltb limit size then err (raised "DocumentResourceLimitExceeded" []) else ok tt

unfoldable pub validate_extracted_text_size : Dict ℕ → ℕ → String → Result (Unit {0})
validate_extracted_text_size limits size file_type = over_limit size (lookup file_type limits)

-- What the context does to the task: `checkpoint`, `report` of so many chunks of so many, and
-- `put(chunks=None)`.
pub record Handle (F J : Type 0) : Type 0 where
  pub checkpoint : M F J (Unit {0})
  pub report : ℕ → ℕ → M F J (Unit {0})
  pub forget : M F J (Unit {0})

-- Metadata values
pub record Values (J : Type 0) : Type 0 where
  pub text : String → J
  pub number : ℕ → J

pub record IngestRequest (J : Type 0) : Type 0 where
  pub kb_id : String
  pub source : String
  pub metadata : Dict J

-- What the earlier stages left in the task's context.
pub record Context (J : Type 0) : Type 0 where
  pub chunks : List String
  pub source_id : String
  pub source : J
  pub file_type : String
  pub document_metadata : Dict J

pub record IngestOutcome : Type 0 where
  pub kb_id : String
  pub source_id : String
  pub file_type : String
  pub chunk_count : ℕ

-- `{**a, **b}`
unfoldable pub merged : {V : Type 0} → Dict V → Dict V → Dict V
merged a [] = a
merged a ((k, v) ∷ b) = merged (insert k v a) b

module _ {F J : Type 0} (fl : Floats F) (objects : Objects J) (values : Values J)
    (chunk_id : String → ℕ → String) where
  -- `base_metadata`
  unfoldable pub base_metadata : IngestRequest J → Context J → Dict J
  unfolding merged
  base_metadata request context = merged (merged context.document_metadata request.metadata) (
      ("kb_id", values.text request.kb_id)
      ∷ ("source", context.source)
      ∷ ("source_id", values.text context.source_id)
      ∷ ("file_type", values.text context.file_type)
      ∷ ("total_chunks", values.number (length context.chunks))
      ∷ [])

  abbrev pub chunk_record : String → Dict J → ℕ → String → List F → VectorRecord F J
  chunk_record source_id base index text embedding = record {
    id = chunk_id source_id index;
    text = text;
    embedding = embedding;
    metadata = insert "chunk_index" (values.number index) base;
  }

  abbrev pub cons_record :
      VectorRecord F J → Result (List (VectorRecord F J)) → Result (List (VectorRecord F J))
  cons_record r (err e) = err e
  cons_record r (ok rs) = ok (r ∷ rs)

  -- `records`: `zip(…, strict=True)` refuses another number of embeddings
  unfoldable pub records_of :
      String → Dict J → ℕ → List String → List (List F) → Result (List (VectorRecord F J))
  records_of source_id base start [] [] = ok []
  records_of source_id base start [] (e ∷ es) = err (value_error "zip")
  records_of source_id base start (t ∷ ts) [] = err (value_error "zip")
  records_of source_id base start (t ∷ ts) (e ∷ es) =
      cons_record (chunk_record source_id base start t e)
        (records_of source_id base (start + 1) ts es)

  -- The ids from one number of a chunk on, so many
  abbrev pub ids_from : String → ℕ → ℕ → List String
  ids_from source_id start zero = []
  ids_from source_id start (suc n) = chunk_id source_id start ∷ ids_from source_id (suc start) n

  -- `_drop_stale_tail`
  unfoldable pub drop_stale_tail : String → String → ℕ → ℕ → M F J (Unit {0})
  drop_stale_tail kb_id source_id new_count previous =
      if leb previous new_count
      then pure tt
      else (adelete fl objects kb_id (some (ids_from source_id new_count (previous - new_count)))
            none
          >>= λ n. pure tt)

  module _ (handle : Handle F J) (embed : List String → M F J (List (List F))) where
    abbrev pub write_window :
        String → String → Dict J → ℕ → ℕ → List String → List (List F) → M F J ℕ
    write_window kb_id source_id base start total batch embeddings =
        lift (records_of source_id base start batch embeddings) >>= λ records.
        aupsert kb_id records >>= λ ids.
        handle.report (start + length records) total >>= λ u. pure (start + length records)

    -- The loop over the windows, one round of fuel for each, with the number of chunks written
    unfoldable pub index_windows : ℕ → ℕ → String → String → Dict J → ℕ → ℕ → List String → M F J ℕ
    unfolding records_of
    index_windows zero window kb_id source_id base total start chunks = pure start
    index_windows (suc fuel) window kb_id source_id base total start [] = pure start
    index_windows (suc fuel) window kb_id source_id base total start (c ∷ cs) =
        handle.checkpoint >>= λ u. embed (take window (c ∷ cs)) >>= λ embeddings.
        write_window kb_id source_id base start total (take window (c ∷ cs)) embeddings
        >>= λ written.
            index_windows fuel window kb_id source_id base total written (drop window (c ∷ cs))

    abbrev pub index_all : ℕ → String → Context J → Dict J → M F J ℕ
    index_all window kb_id context base =
        if eqb window 0
        then raise (value_error "range")
        else index_windows (length context.chunks) window kb_id context.source_id base
            (length context.chunks) 0 context.chunks

    -- The body of `try`
    abbrev pub index_body : ℕ → IngestRequest J → Context J → KnowledgeBase → M F J ℕ
    index_body window request context kb =
        aensure_collection request.kb_id kb.embedding_dim >>= λ u.
        acount fl objects request.kb_id
          (some (("source_id", exactly (values.text context.source_id)) ∷ []))
        >>= λ previous.
            index_all window request.kb_id context (base_metadata request context) >>= λ written.
            drop_stale_tail request.kb_id context.source_id (length context.chunks) previous
            >>= λ v. pure written

    -- `except Exception`
    abbrev pub reclassified : {A : Type 0} → Error → M F J A
    reclassified e = if is_exception e then raise (classify "indexing" e) else raise e

    -- `_index`, with the batch size of the configuration
    unfoldable pub index :
        KnowledgeBaseService → ℕ → IngestRequest J → Context J → M F J IngestOutcome
    unfolding base_metadata index_windows drop_stale_tail classify is_exception
    index service window request context = resolve service request.kb_id >>= λ kb.
        attempt (index_body window request context kb)
          (λ written. handle.forget >>= λ u. pure (record {
            kb_id = request.kb_id;
            source_id = context.source_id;
            file_type = context.file_type;
            chunk_count = written;
          }))
          reclassified
