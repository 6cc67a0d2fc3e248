-- ===== src/Retrieval/Rerank.antt =====
-- `_rerank` of comet_rag/services/retrieval.py: the candidates in the order of the reranker, or as
-- they are if it fails or its answer does not fit them.
use comet_rag.Prelude.{
  ℕ, suc, ◌-◌, ℤ, pos, negsuc, String, Bool, true, false, ◌&&◌, Option, none, some, List, [], ◌∷◌,
  ltb, eqb, if◌then◌else◌, length, map, sort, ◌==◌, get_elem?,
}
use comet_rag.Dict.{Dict}
use comet_rag.Effect.{pure, raise, lift, attempt, ◌>>=◌}
use comet_rag.Retrieval.Chunks.{RetrievedChunk}
use comet_rag.Stores.{
  Error, raised, is_exception, value_error, type_name, Result, ok, err, M, RetrievalDegradation,
  reranker_stage,
}

-- `RankedDocument`, whose document is not read
pub record Ranked (F : Type 0) : Type 0 where
  pub index : ℤ
  pub score : F

pub record RerankDocument (J : Type 0) : Type 0 where
  pub id : String
  pub content : String
  pub metadata : Dict J

-- `a < b` and `a == b` of integers
abbrev pub int_lt : ℤ → ℤ → Bool
int_lt (pos a) (pos b) = ltb a b
int_lt (pos a) (negsuc b) = false
int_lt (negsuc a) (pos b) = true
int_lt (negsuc a) (negsuc b) = ltb b a

abbrev pub int_eq : ℤ → ℤ → Bool
int_eq (pos a) (pos b) = eqb a b
int_eq (pos a) (negsuc b) = false
int_eq (negsuc a) (pos b) = false
int_eq (negsuc a) (negsuc b) = eqb a b

-- `list == list(range(start, start + n))`, for a list of n
unfoldable pub counts_from : ℕ → List ℤ → Bool
counts_from start [] = true
counts_from start (i ∷ is) = let rest = counts_from (suc start) is in int_eq i (pos start) && rest

module _ {A : Type 0} where
  -- `xs[i]`: a negative index counts from the end; none for an `IndexError`
  abbrev pub at : List A → ℤ → Option A
  at xs (pos i) = get_elem? xs i
  at xs (negsuc i) = if ltb i (length xs) then get_elem? xs (length xs - suc i) else none

abbrev pub both : {A : Type 0} → Option A → Option (List A) → Option (List A)
both none rest = none
both (some x) none = none
both (some x) (some xs) = some (x ∷ xs)

-- The chunks, whether they were reranked, and why not.
abbrev pub Reranked : Type 0 → Type 0 → Type 0
Reranked F J = List (RetrievedChunk F J) × Bool × Option RetrievalDegradation

module _ {F J : Type 0} where
  abbrev pub rerank_document : RetrievedChunk F J → RerankDocument J
  rerank_document c = record { id = c.id; content = c.text; metadata = c.metadata }

  -- `RerankDocument.__post_init__`: an empty text is refused
  abbrev pub documents_of : List (RetrievedChunk F J) → Result (List (RerankDocument J))
  documents_of [] = ok []
  documents_of (c ∷ cs) =
      let rest = documents_of cs in
      if c.text == ""
      then err (value_error "content")
      else elim rest [ err e ↦ err e | ok ds ↦ ok (rerank_document c ∷ ds) ]

  abbrev pub rescored_one : F → Option (RetrievedChunk F J) → Option (RetrievedChunk F J)
  rescored_one score none = none
  rescored_one score (some c) = some (record c { score = score })

  -- `rescored`; none for an index that is out of range
  unfoldable pub rescored :
      List (RetrievedChunk F J) → List (Ranked F) → Option (List (RetrievedChunk F J))
  rescored candidates [] = some []
  rescored candidates (item ∷ items) =
      both (rescored_one item.score (at candidates item.index)) (rescored candidates items)

  abbrev pub fallback : List (RetrievedChunk F J) → String → Option String → Reranked F J
  fallback candidates reason error_type = (
    candidates,
    false,
    some (record { stage = reranker_stage; reason = reason; error_type = error_type }),
  )

  abbrev pub reordered : Option (List (RetrievedChunk F J)) → Result (Reranked F J)
  reordered none = err (raised "IndexError" ("LookupError" ∷ []))
  reordered (some chunks) = ok (chunks, true, none)

  unfoldable pub align : List (RetrievedChunk F J) → List (Ranked F) → Result (Reranked F J)
  unfolding counts_from rescored
  align candidates ranked =
      if eqb (length ranked) (length candidates)
      then if counts_from 0 (sort int_lt (map (λ (r : Ranked F). r.index) ranked))
        then reordered (rescored candidates ranked)
        else ok (fallback candidates "result_index_mismatch" none)
      else ok (fallback candidates "result_count_mismatch" none)

  -- `except Exception`
  abbrev pub rerank_failed : List (RetrievedChunk F J) → Error → M F J (Reranked F J)
  rerank_failed candidates e =
      if is_exception e
      then pure (fallback candidates "request_failed" (some (type_name e)))
      else raise e

  unfoldable pub rerank :
      (String → List (RerankDocument J) → M F J (List (Ranked F)))
      → String
      → List (RetrievedChunk F J)
      → M F J (Reranked F J)
  unfolding align type_name is_exception
  rerank arank query candidates =
      attempt (lift (documents_of candidates) >>= arank query)
        (λ ranked. lift (align candidates ranked)) (rerank_failed candidates)
