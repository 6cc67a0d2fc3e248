-- ===== src/VectorStore/Search.antt =====
-- What `asearch` returns.
use mathlib.Core.List.{Perm}
use comet_rag.Prelude.{
  ℕ, suc, pos, min, String, ◌≡◌, refl, sym, ap, ◌∙◌, subst, Option, none, some, List, [], ◌∷◌, ◌++◌,
  arith, length, take, drop, map, keep, All, sort, sort-perm, length-sort, take-append-drop,
  length-take, if-elim,
}
use comet_rag.Dict.{Dict, lookup, values}
use comet_rag.Dict.Keys.{All-lookup}
use comet_rag.Effect.{pause, atomic, lift, ◌>>=◌}
use comet_rag.Floats.{Floats, IsOrdered}
use comet_rag.Floats.Ranking.{IsRanked, sort-IsRanked}
use comet_rag.VectorStore.{Objects, VectorRecord, SearchHit, Filter}
use comet_rag.VectorStore.Cosine.{sums, cosine_similarity}
use comet_rag.VectorStore.Memory.{
  require_collection, hit_of, by_score, passes, score_all, best, asearch,
}
use comet_rag.VectorStore.Sound.{WellFormed, IsSound, Fits}
use comet_rag.Stores.{Collection, ok, World, turn}

module _ {F : Type 0} (fl : Floats F) where
  sums_total :
      (xs ys : List F) (dot na nb : F)
      → length xs ≡ length ys
      → (s : F × F × F) × (sums fl xs ys dot na nb ≡ some s)
  sums_total [] [] dot na nb e = ((dot, na, nb), refl)
  sums_total [] (y ∷ ys) dot na nb e = absurd (omega (arith, e))
  sums_total (x ∷ xs) [] dot na nb e = absurd (omega (arith, e))
  sums_total (x ∷ xs) (y ∷ ys) dot na nb e = sums_total xs ys _ _ _ (omega (arith, e))

  -- The similarity of two vectors of one length.
  unfoldable pub similarity : List F → List F → F
  similarity a b = elim (cosine_similarity fl a b) [ none ↦ fl.zero | some s ↦ s ]

  similarity_lem :
      (a b : List F) → length a ≡ length b → cosine_similarity fl a b ≡ some (similarity a b)
  unfolding cosine_similarity similarity
  similarity_lem a b e = let s = sums_total a b fl.zero fl.zero fl.zero e in ground (arith, s.1)

module _ {F J : Type 0} (fl : Floats F) (objects : Objects J) where
  keep-Fits :
      (dim : ℕ) (filter : Option (Filter J)) (records : Dict (VectorRecord F J))
      → All (Fits dim) records
      → All (λ r. length r.embedding ≡ dim) (keep (passes fl objects filter) (values records))
  keep-Fits dim filter [] h = tt
  keep-Fits dim filter ((k, r) ∷ records) h =
      let rest = keep-Fits dim filter records h.1 in
      if-elim (All (λ (x : VectorRecord F J). length x.embedding ≡ dim))
        (passes fl objects filter r) (r ∷ keep (passes fl objects filter) (values records))
        (keep (passes fl objects filter) (values records)) (λ e. (h.0.1, rest)) (λ e. rest)

  -- A record as a search scores it.
  abbrev pub scored_hit : List F → VectorRecord F J → SearchHit F J
  scored_hit query r = hit_of fl objects r (similarity fl query r.embedding)

  score_all_lem :
      (query : List F) (rs : List (VectorRecord F J))
      → All (λ r. length r.embedding ≡ length query) rs
      → score_all fl objects query rs ≡ ok (map (scored_hit query) rs)
  score_all_lem query [] h = refl
  score_all_lem query (r ∷ rs) h =
      ground (arith, similarity_lem fl query r.embedding (sym h.0), score_all_lem query rs h.1)

  length-map :
      (f : VectorRecord F J → SearchHit F J) (rs : List (VectorRecord F J))
      → length (map f rs) ≡ length rs
  length-map f [] = refl
  length-map f (r ∷ rs) = ap suc (length-map f rs)

  -- A search among records whose embeddings have the query's length.
  best-IsRanked :
      (query : List F) (k : ℕ) (rs : List (VectorRecord F J))
      → IsOrdered fl
      → All (λ r. length r.embedding ≡ length query) rs
      → (hits : List (SearchHit F J)) × (rest : List (SearchHit F J)) × (best fl objects
            (pos k)
            (score_all fl objects query rs)
          ≡ ok hits)
        × Perm (hits ++ rest) (map (scored_hit query) rs)
        × IsRanked fl (λ hit. hit.score) (λ hit. hit.id) (hits ++ rest)
        × (length hits ≡ min k (length rs))
  best-IsRanked query k rs order fits =
      let all = map (scored_hit query) rs in
      let sorted = sort (by_score fl objects) all in
      let whole = take-append-drop k sorted in
      (
        take k sorted,
        drop k sorted,
        ap (best fl objects (pos k)) (score_all_lem query rs fits),
        subst (λ l. Perm l all) (sym whole) (sort-perm (by_score fl objects) all),
        subst (IsRanked fl (λ (hit : SearchHit F J). hit.score) (λ hit. hit.id)) (sym whole)
            (sort-IsRanked fl (λ hit. hit.score) (λ hit. hit.id) order all),
        length-take k sorted
            ∙ ap (min k) (length-sort (by_score fl objects) all ∙ length-map (scored_hit query) rs),
      )

  -- If scores are ordered as numbers are, the store is well formed when the search has the lock, the
  -- collection is there and the query has its dimension, then `asearch` with a `top_k` that is not
  -- negative returns hits; with the others they are the records that pass the filter, each scored
  -- by its similarity to the query, in one ranking that starts with the hits; and there are `top_k`
  -- hits, or as many as records pass.
  pub asearch_lem :
      IsOrdered fl
      → (w : World F J) (kb_id : String) (query : List F) (k : ℕ) (filter : Option (Filter J))
        (c : Collection F J)
      → WellFormed (turn w)
      → lookup kb_id (turn w).collections ≡ some c
      → length query ≡ c.dim
      → (hits : List (SearchHit F J)) × (rest : List (SearchHit F J)) × ((asearch fl objects kb_id
            query
            (pos k)
            filter
            w).0
          ≡ ok hits)
        × Perm
            (hits ++ rest)
            (map (scored_hit query) (keep (passes fl objects filter) (values c.records)))
        × IsRanked fl (λ hit. hit.score) (λ hit. hit.id) (hits ++ rest)
        × (length hits ≡ min k (length (keep (passes fl objects filter) (values c.records))))
  unfolding asearch ◌>>=◌ pause atomic lift require_collection
  asearch_lem order w kb_id query k filter c wf there dim =
      let sound = All-lookup (λ e. IsSound e.1) kb_id c (turn w).collections there wf.sound in
      let passing = keep (passes fl objects filter) (values c.records) in
      let fits : All (λ (r : VectorRecord F J). length r.embedding ≡ length query) passing =
        subst (λ n. All (λ (r : VectorRecord F J). length r.embedding ≡ n) passing) (sym dim)
          (keep-Fits c.dim filter c.records sound.fits) in
      let r = best-IsRanked query k passing order fits in
      (r.0, r.1, ground (arith, there, dim, r.2), r.3, r.4, r.5)
