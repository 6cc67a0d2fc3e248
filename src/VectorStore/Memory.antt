-- ===== src/VectorStore/Memory.antt =====
-- `InMemoryVectorStore` of comet_rag/infrastructure/persistence/vector_store/memory.py. Each method
-- waits for the lock and then works on the collections alone; what a search computes after it works
-- on copies. Records are values here.
use comet_rag.Prelude.{
  ℕ, ℤ, pos, positive, take_to, String, Bool, true, false, Option, none, some, List, [], ◌∷◌, ◌==◌,
  eqb, if◌then◌else◌, length, keep, map, sort,
}
use comet_rag.Dict.{Dict, lookup, insert, erase, values, keys}
use comet_rag.Effect.{raise, lift, atomic, pause, ◌>>=◌, ◌>>◌}
use comet_rag.Floats.{Floats}
use comet_rag.Floats.Ranking.{ranks_before}
use comet_rag.VectorStore.{Objects, VectorRecord, SearchHit, Filter, matches_filter}
use comet_rag.VectorStore.Cosine.{cosine_similarity}
use comet_rag.VectorStore.Keywords.{Term, tokenize, bm25_score}
use comet_rag.Stores.{
  Stores, Collection, collection_not_found, dimension_mismatch, value_error, Result, ok, err, M,
}

module _ {F J : Type 0} where
  -- `_require`
  unfoldable pub require_collection : String → Stores F J → Result (Collection F J)
  require_collection kb_id d = elim (lookup kb_id d.collections) [
    | none ↦ err (collection_not_found kb_id)
    | some c ↦ ok c
  ]

  -- With the collection, or with its error and nothing changed
  abbrev pub with_collection :
      {A : Type 0}
      → String
      → (Collection F J → Result A × Stores F J)
      → Stores F J
      → Result A × Stores F J
  with_collection kb_id f d = elim (require_collection kb_id d) [ ok c ↦ f c | err e ↦ (err e, d) ]

  abbrev pub put_collection : String → Collection F J → Stores F J → Stores F J
  put_collection kb_id c d = record d { collections = insert kb_id c d.collections }

  -- `aensure_collection`
  abbrev pub ensure_locked : String → ℕ → Stores F J → Result (Unit {0}) × Stores F J
  ensure_locked kb_id dim d = elim (lookup kb_id d.collections) [
    | none ↦ (ok tt, put_collection kb_id (record { dim = dim; records = [] }) d)
    | some existing ↦
        if eqb existing.dim dim
        then (ok tt, d)
        else (err (dimension_mismatch kb_id existing.dim (pos dim)), d)
  ]

  abbrev pub ensure_positive : String → Option ℕ → M F J (Unit {0})
  ensure_positive kb_id none = raise (value_error "dim")
  ensure_positive kb_id (some dim) = pause >> atomic (ensure_locked kb_id dim)

  unfoldable pub aensure_collection : String → ℤ → M F J (Unit {0})
  aensure_collection kb_id dim = ensure_positive kb_id (positive dim)

  -- The length of the first embedding that is not of the dimension
  abbrev pub misfit : ℕ → List (VectorRecord F J) → Option ℕ
  misfit dim [] = none
  misfit dim (r ∷ rs) =
      let rest = misfit dim rs in
      if eqb (length r.embedding) dim then rest else some (length r.embedding)

  abbrev pub write_all : List (VectorRecord F J) → Dict (VectorRecord F J) → Dict (VectorRecord F J)
  write_all [] records = records
  write_all (r ∷ rs) records = write_all rs (insert r.id r records)

  abbrev pub upsert_into :
      String
      → List (VectorRecord F J)
      → Stores F J
      → Collection F J
      → Result (List String) × Stores F J
  upsert_into kb_id rs d c = elim (misfit c.dim rs) [
    | some actual ↦ (err (dimension_mismatch kb_id c.dim (pos actual)), d)
    | none ↦ (
      ok (map (λ r. r.id) rs),
      put_collection kb_id (record c { records = write_all rs c.records }) d,
    )
  ]

  -- `aupsert`
  unfoldable pub aupsert : String → List (VectorRecord F J) → M F J (List String)
  unfolding require_collection
  aupsert kb_id rs = pause >> atomic (λ d. with_collection kb_id (upsert_into kb_id rs d) d)

  -- `adrop_collection`
  unfoldable pub adrop_collection : String → M F J (Unit {0})
  adrop_collection kb_id =
      pause >> atomic (λ d. (ok tt, record d { collections = erase kb_id d.collections }))

abbrev pub dedupe : List String → List String
dedupe [] = []
dedupe (k ∷ ks) = let rest = dedupe ks in k ∷ keep (λ j. if j == k then false else true) rest

abbrev pub erase_all {ℓ} : {V : Type ℓ} → List String → Dict V → Dict V
erase_all [] d = d
erase_all (k ∷ ks) d = erase_all ks (erase k d)

module _ {F J : Type 0} (fl : Floats F) (objects : Objects J) where
  abbrev pub hit_of : VectorRecord F J → F → SearchHit F J
  hit_of r score = record { id = r.id; text = r.text; score = score; metadata = r.metadata }

  abbrev pub by_score : SearchHit F J → SearchHit F J → Bool
  by_score = ranks_before fl (λ hit. hit.score) (λ hit. hit.id)

  abbrev pub passes : Option (Filter J) → VectorRecord F J → Bool
  passes filter r = matches_filter objects r.metadata filter

  -- The candidates that a search copies under the lock
  abbrev pub candidates_in :
      String → List F → Option (Filter J) → Collection F J → Result (List (VectorRecord F J))
  candidates_in kb_id query filter c =
      if eqb (length query) c.dim
      then ok (keep (passes filter) (values c.records))
      else err (dimension_mismatch kb_id c.dim (pos (length query)))

  abbrev pub cons_hit :
      VectorRecord F J → Option F → Result (List (SearchHit F J)) → Result (List (SearchHit F J))
  cons_hit r none rest = err (value_error "zip")
  cons_hit r (some score) (err e) = err e
  cons_hit r (some score) (ok hits) = ok (hit_of r score ∷ hits)

  -- `scored`
  abbrev pub score_all : List F → List (VectorRecord F J) → Result (List (SearchHit F J))
  score_all query [] = ok []
  score_all query (r ∷ rs) =
      cons_hit r (cosine_similarity fl query r.embedding) (score_all query rs)

  abbrev pub best : ℤ → Result (List (SearchHit F J)) → Result (List (SearchHit F J))
  best top_k (err e) = err e
  best top_k (ok hits) = ok (take_to top_k (sort by_score hits))

  abbrev pub search_locked :
      String
      → List F
      → Option (Filter J)
      → Stores F J
      → Result (List (VectorRecord F J)) × Stores F J
  search_locked kb_id query filter d =
      with_collection kb_id (λ c. (candidates_in kb_id query filter c, d)) d

  -- `asearch`
  unfoldable pub asearch : String → List F → ℤ → Option (Filter J) → M F J (List (SearchHit F J))
  unfolding require_collection cosine_similarity
  asearch kb_id query top_k filter =
      pause >> atomic (search_locked kb_id query filter) >>= λ candidates.
      lift (best top_k (score_all query candidates))

  -- The hits of the records that have a score and pass the filter
  abbrev pub keyword_hits :
      (VectorRecord F J → Option F)
      → Option (Filter J)
      → List (VectorRecord F J)
      → List (SearchHit F J)
  keyword_hits score filter [] = []
  keyword_hits score filter (r ∷ rs) =
      let rest = keyword_hits score filter rs in
      elim (score r) [ none ↦ rest | some s ↦ if passes filter r then hit_of r s ∷ rest else rest ]

  module _ (as_set : List Term → List Term) where
    abbrev pub keywords_found :
        String → Option ℕ → Option (Filter J) → String → M F J (List (SearchHit F J))
    keywords_found kb_id none filter query = raise (value_error "top_k")
    keywords_found kb_id (some top_k) filter query =
        pause
        >> atomic (λ d. with_collection kb_id (λ c. (ok (values c.records), d)) d)
        >>= λ records. lift (
            best (pos top_k)
              (ok (keyword_hits (bm25_score fl as_set records (tokenize query)) filter records)))

    -- `asearch_keywords`
    unfoldable pub asearch_keywords :
        String → String → ℤ → Option (Filter J) → M F J (List (SearchHit F J))
    unfolding require_collection tokenize bm25_score
    asearch_keywords kb_id query top_k filter = keywords_found kb_id (positive top_k) filter query

  -- `targets`: a set of the ids, or all the keys
  abbrev pub targets_in : Option (List String) → Dict (VectorRecord F J) → List String
  targets_in none records = keys records
  targets_in (some ids) records = dedupe ids

  abbrev pub is_doomed : Option (Filter J) → Dict (VectorRecord F J) → String → Bool
  is_doomed filter records key = elim (lookup key records) [
    | none ↦ false
    | some r ↦ passes filter r
  ]

  abbrev pub doomed_in :
      Option (List String) → Option (Filter J) → Dict (VectorRecord F J) → List String
  doomed_in ids filter records = keep (is_doomed filter records) (targets_in ids records)

  abbrev pub delete_from :
      String
      → Option (List String)
      → Option (Filter J)
      → Stores F J
      → Collection F J
      → Result ℕ × Stores F J
  delete_from kb_id ids filter d c =
      let doomed = doomed_in ids filter c.records in
      (
        ok (length doomed),
        put_collection kb_id (record c { records = erase_all doomed c.records }) d,
      )

  abbrev pub delete_locked :
      String → Option (List String) → Option (Filter J) → Stores F J → Result ℕ × Stores F J
  delete_locked kb_id ids filter d = with_collection kb_id (delete_from kb_id ids filter d) d

  -- `adelete`
  unfoldable pub adelete : String → Option (List String) → Option (Filter J) → M F J ℕ
  unfolding require_collection
  adelete kb_id none none = raise (value_error "ids and filter")
  adelete kb_id (some ids) filter = pause >> atomic (delete_locked kb_id (some ids) filter)
  adelete kb_id none (some filter) = pause >> atomic (delete_locked kb_id none (some filter))

  -- `acount`
  unfoldable pub acount : String → Option (Filter J) → M F J ℕ
  unfolding require_collection
  acount kb_id filter =
      pause
      >> atomic (λ d.
        with_collection kb_id (λ c. (ok (length (keep (passes filter) (values c.records))), d)) d)
