-- ===== src/Ingestion/Whole.antt =====
-- `_index` as a whole, when nobody interrupts it.
use comet_rag.Prelude.{
  ℕ, suc, ◌-◌, ◌≤◌, ◌<◌, pos, String, ◌≡◌, ◌≢◌, sym, ap, ◌∙◌, none, some, List, [], ◌∷◌, arith,
  eq_iff, ltb, length, map, keep, get_elem?, get_elem-beyond, get_elem-within, Bool-cases, inl, inr,
}
use comet_rag.Dict.{Dict, lookup, values}
use comet_rag.Effect.{pure, raise, lift, atomic, pause, ◌>>=◌}
use comet_rag.Effect.Runs.{quiet, bind_returns, attempt_returns}
use comet_rag.Floats.{Floats}
use comet_rag.VectorStore.{Objects, VectorRecord, exactly}
use comet_rag.VectorStore.Memory.{aensure_collection, acount, require_collection, passes}
use comet_rag.Knowledge.{KnowledgeBaseService, arequire, assert_model_matches, aget, resolve}
use comet_rag.Ingestion.{
  Values, IngestRequest, Context, IngestOutcome, base_metadata, index_windows, index_all,
  index_body, drop_stale_tail, index,
}
use comet_rag.Ingestion.Index.{Got, idle, chunk_records, windows-Got}
use comet_rag.Stores.{Stores, Collection, KnowledgeBase, ok, M}
use comet_rag.Ingestion.Numbers.{
  record_at, latest-chunk_records, latest-elsewhere, ids_from-inside, ids_from-elsewhere,
  trim-quiet, Trimmed,
}

module _ {F J : Type 0} (fl : Floats F) (objects : Objects J) (values_of : Values J)
    (chunk_id : String → ℕ → String) (vector : String → List F) where
  module _ (dim window : ℕ) (service : KnowledgeBaseService) (request : IngestRequest J)
      (context : Context J) (d : Stores F J) (row : KnowledgeBase) (c : Collection F J) where
    -- How many records of the source the collection had.
    abbrev pub previous_count : ℕ
    previous_count = length (
        keep
          (passes fl objects
            (some (("source_id", exactly (values_of.text context.source_id)) ∷ [])))
          (values c.records))

    resolve-quiet :
        lookup request.kb_id d.rows ≡ some row
        → row.embedding_model ≡ service.model
        → resolve service request.kb_id (quiet d) ≡ (ok row, quiet d)
    unfolding resolve arequire assert_model_matches aget pure raise lift atomic pause ◌>>=◌
    resolve-quiet there model =
        ground (arith, there, model, eq_iff row.embedding_model service.model)

    ensure-quiet :
        row.embedding_dim ≡ pos (suc dim)
        → lookup request.kb_id d.collections ≡ some c
        → c.dim ≡ suc dim
        → aensure_collection request.kb_id row.embedding_dim (quiet d) ≡ (ok tt, quiet d)
    unfolding aensure_collection raise atomic pause ◌>>=◌
    ensure-quiet edim there cdim = ground (arith, there, edim, cdim)

    count-quiet :
        lookup request.kb_id d.collections ≡ some c
        → acount fl objects request.kb_id
            (some (("source_id", exactly (values_of.text context.source_id)) ∷ []))
            (quiet d)
          ≡ (ok previous_count, quiet d)
    unfolding acount require_collection atomic pause ◌>>=◌
    count-quiet there = ground (arith, there)

    -- What an indexing that returned has left: under the id of each
    -- number the chunk of that number, if there is one, and what was there under all other ids.
    pub record Indexed (e : Stores F J) : Type 0 where
      pub after : Collection F J
      pub there : lookup request.kb_id e.collections ≡ some after
      pub chunks :
          (i : ℕ)
          → lookup (chunk_id context.source_id i) after.records
            ≡ record_at fl objects values_of chunk_id vector context.source_id
                (base_metadata fl objects values_of chunk_id request context)
                i
                (get_elem? context.chunks i)
      pub others :
          (k : String)
          → ((i : ℕ) → chunk_id context.source_id i ≢ k)
          → lookup k after.records ≡ lookup k c.records

    module _
        (distinct : (i j : ℕ) → chunk_id context.source_id i ≡ chunk_id context.source_id j → i ≡ j)
        (numbered : (i : ℕ)
          → previous_count ≤ i
          → lookup (chunk_id context.source_id i) c.records ≡ none)
        (e f : Stores F J) where
      abbrev base : Dict J
      base = base_metadata fl objects values_of chunk_id request context

      abbrev written : List (VectorRecord F J)
      written =
          chunk_records fl objects values_of chunk_id vector context.source_id base 0 context.chunks

      chunk-left :
          (g : Got request.kb_id written d c e)
          → (t : Trimmed fl objects values_of chunk_id vector context.source_id base distinct
              request.kb_id
              (length context.chunks)
              (previous_count - length context.chunks)
              g.after
              f)
          → (i : ℕ)
          → lookup (chunk_id context.source_id i) t.after.records
            ≡ record_at fl objects values_of chunk_id vector context.source_id base i
                (get_elem? context.chunks i)
      chunk-left g t i =
          let id = chunk_id context.source_id i in
          let latest_of =
            latest-chunk_records fl objects values_of chunk_id vector context.source_id base
              distinct i 0 i context.chunks (omega arith) in
          let inside =
            ids_from-inside fl objects values_of chunk_id vector context.source_id base distinct i
              (length context.chunks) (previous_count - length context.chunks) in
          elim (Bool-cases (ltb i (length context.chunks))) [
            | inl y ↦
                let here = get_elem-within i context.chunks (ground (arith, y)) in
                ground (arith, y, here.1, latest_of, inside, t.records id, g.records id)
            | inr n ↦
                let beyond = get_elem-beyond i context.chunks (ground (arith, n)) in
                ground (arith, n, beyond, latest_of, inside, t.records id, g.records id, numbered i)
          ]

    abbrev embed_texts : List String → M F J (List (List F))
    embed_texts batch = pure (map vector batch)

    abbrev pub outcome : IngestOutcome
    outcome = record {
      kb_id = request.kb_id;
      source_id = context.source_id;
      file_type = context.file_type;
      chunk_count = length context.chunks;
    }

    body-quiet :
        (e f : Stores F J)
        → 0 < window
        → lookup request.kb_id d.collections ≡ some c
        → aensure_collection request.kb_id row.embedding_dim (quiet d) ≡ (ok tt, quiet d)
        → index_windows fl objects values_of chunk_id idle embed_texts
            (length context.chunks)
            window
            request.kb_id
            context.source_id
            (base_metadata fl objects values_of chunk_id request context)
            (length context.chunks)
            0
            context.chunks
            (quiet d)
          ≡ (ok (length context.chunks), quiet e)
        → drop_stale_tail fl objects values_of chunk_id request.kb_id context.source_id
            (length context.chunks)
            previous_count
            (quiet e)
          ≡ (ok tt, quiet f)
        → index_body fl objects values_of chunk_id idle embed_texts window request context row
            (quiet d)
          ≡ (ok (length context.chunks), quiet f)
    unfolding pure
    body-quiet e f w there ensured windows trimmed =
        bind_returns (aensure_collection request.kb_id row.embedding_dim) _ (quiet d) (quiet d) tt
          ensured
        ∙ bind_returns
            (acount fl objects request.kb_id
              (some (("source_id", exactly (values_of.text context.source_id)) ∷ [])))
            _ (quiet d) (quiet d) previous_count (count-quiet there)
        ∙ bind_returns
            (index_all fl objects values_of chunk_id idle embed_texts window request.kb_id context
              (base_metadata fl objects values_of chunk_id request context))
            _ (quiet d) (quiet e) (length context.chunks) (ground (arith, w, windows))
        ∙ bind_returns
            (drop_stale_tail fl objects values_of chunk_id request.kb_id context.source_id
              (length context.chunks) previous_count)
            _ (quiet e) (quiet f) tt trimmed

    index-quiet :
        (f : Stores F J)
        → resolve service request.kb_id (quiet d) ≡ (ok row, quiet d)
        → index_body fl objects values_of chunk_id idle embed_texts window request context row
            (quiet d)
          ≡ (ok (length context.chunks), quiet f)
        → index fl objects values_of chunk_id idle embed_texts service window request context
            (quiet d)
          ≡ (ok outcome, quiet f)
    unfolding index pure ◌>>=◌
    index-quiet f resolved body =
        bind_returns (resolve service request.kb_id) _ (quiet d) (quiet d) row resolved
        ∙ attempt_returns
            (index_body fl objects values_of chunk_id idle embed_texts window request context row) _
            _ (quiet d) (quiet f) (length context.chunks) body

    -- Nobody interrupts, and the embedding gives each text a vector, all of one dimension that is
    -- not zero. If the base is there with the service's model and this dimension, and so is its
    -- collection; the window is not empty; chunk ids of the source with different numbers differ;
    -- and the collection has no record under the id of any number from the count of the source's
    -- records on; then `_index` returns the outcome with the number of chunks. Afterwards the
    -- collection has, under the id of each number, the record of the chunk of that number, and none
    -- where there is no such chunk, however many an earlier version had; what is under other ids
    -- is as it was.
    pub index-Indexed :
        lookup request.kb_id d.rows ≡ some row
        → row.embedding_model ≡ service.model
        → row.embedding_dim ≡ pos (suc dim)
        → lookup request.kb_id d.collections ≡ some c
        → c.dim ≡ suc dim
        → ((t : String) → length (vector t) ≡ suc dim)
        → 0 < window
        → ((i j : ℕ) → chunk_id context.source_id i ≡ chunk_id context.source_id j → i ≡ j)
        → ((i : ℕ) → previous_count ≤ i → lookup (chunk_id context.source_id i) c.records ≡ none)
        → (e : Stores F J) × (index fl objects values_of chunk_id idle
              (λ batch. pure (map vector batch))
              service
              window
              request
              context
              (quiet d)
            ≡ (ok outcome, quiet e))
          × Indexed e
    index-Indexed there model edim coll cdim vdim w distinct numbered =
        let s = context.source_id in
        let base = base_metadata fl objects values_of chunk_id request context in
        let g =
          windows-Got fl objects values_of chunk_id vector s base request.kb_id
            (length context.chunks) (length context.chunks) window 0 context.chunks d c
            (omega arith) w coll (λ t. vdim t ∙ sym cdim) in
        let t =
          trim-quiet fl objects values_of chunk_id vector s base distinct request.kb_id
            (length context.chunks) previous_count g.0 g.2.after g.2.there in
        (
          t.0,
          index-quiet t.0 (resolve-quiet there model) (
              body-quiet g.0 t.0 w coll (ensure-quiet edim coll cdim)
                (g.1 ∙ ap (λ n. (ok n, quiet g.0)) (omega arith)) t.1),
          record {
            after = t.2.after;
            there = t.2.there;
            chunks = chunk-left distinct numbered g.0 t.0 g.2 t.2;
            others = λ k h. ground (
              arith,
              t.2.records k,
              g.2.records k,
              latest-elsewhere fl objects values_of chunk_id vector s base distinct k 0
                  context.chunks h,
              ids_from-elsewhere fl objects values_of chunk_id vector s base distinct k
                  (length context.chunks) (previous_count - length context.chunks) h,
            );
          },
        )
