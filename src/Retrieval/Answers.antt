-- ===== src/Retrieval/Answers.antt =====
-- What `search` answers, of the chunks that it has recalled.
use mathlib.Core.List.{Perm}
use mathlib.Core.List.Perm
use comet_rag.Prelude.{
  min, String, ◌≡◌, refl, sym, ap, ◌∙◌, subst, Bool, true, false, ◌&&◌, Option, none, some, List,
  [], ◌∷◌, ◌++◌, arith, if◌then◌else◌, length, take, drop, map, take-append-drop, length-take,
  Bool-cases, inl, inr,
}
use comet_rag.Effect.{pure, raise, lift, attempt, proceed, ◌>>=◌}
use comet_rag.Effect.Runs.{bind_inv}
use comet_rag.Floats.{Floats}
use comet_rag.Retrieval.{
  RetrievalResult, Allowance, result_of, with_degradation, ranked_result, ranked_by, ranked,
  search_within,
}
use comet_rag.Retrieval.Chunks.{RetrievedChunk}
use comet_rag.Retrieval.Rerank.{
  Ranked, RerankDocument, Reranked, documents_of, align, rerank_failed, rerank, fallback,
}
use comet_rag.Retrieval.Recall.{SearchQuery, RecallResult, RetrievalService, recall}
use comet_rag.Retrieval.Alignment.{body, align_lem, length-perm, length-map}
use comet_rag.Stores.{
  Error, is_exception, type_name, Result, ok, err, World, M, RetrievalDegradation,
}

module _ {F J : Type 0} where
  -- A reranking that is one of the candidates, and these themselves where it was not done.
  abbrev pub Rearranges : List (RetrievedChunk F J) → Reranked F J → Type 0
  Rearranges candidates r =
      Perm (map body r.0) (map body candidates) × (r.1 ≡ false → r.0 ≡ candidates)

  align-Rearranges :
      (candidates : List (RetrievedChunk F J)) (items : List (Ranked F)) (r : Reranked F J)
      → align candidates items ≡ ok r
      → Rearranges candidates r
  align-Rearranges candidates items r e =
      let a = align_lem candidates items in
      let same : a.0 ≡ r = cc in subst (Rearranges candidates) same (a.2, a.4)

  failed-Rearranges :
      (candidates : List (RetrievedChunk F J)) (e : Error) (w : World F J) (r : Reranked F J)
      → (rerank_failed candidates e w).0 ≡ ok r
      → Rearranges candidates r
  unfolding pure raise
  failed-Rearranges candidates e w r h = elim (Bool-cases (is_exception e)) [
    | inl t ↦
        let same : fallback candidates "request_failed" (some (type_name e)) ≡ r =
          ground (arith, t, h) in
        subst (Rearranges candidates) same (Perm.refl (map body candidates), λ u. refl)
    | inr f ↦ absurd (ground (arith, f, h))
  ]

  rerank-Rearranges :
      (arank : String → List (RerankDocument J) → M F J (List (Ranked F))) (query : String)
      (candidates : List (RetrievedChunk F J)) (w : World F J) (r : Reranked F J)
      → (rerank arank query candidates w).0 ≡ ok r
      → Rearranges candidates r
  unfolding rerank attempt lift
  rerank-Rearranges arank query candidates w r e =
      split ((lift (documents_of candidates) >>= arank query) w).0 _ e
    where
      split :
          (o : Result (List (Ranked F))) (v : World F J)
          → (proceed (λ items. lift (align candidates items)) (rerank_failed candidates) o v).0
            ≡ ok r
          → Rearranges candidates r
      split (ok items) v e = align-Rearranges candidates items r e
      split (err x) v e = failed-Rearranges candidates x v r e

map-append : {A B : Type 0} (f : A → B) (xs ys : List A) → map f (xs ++ ys) ≡ map f xs ++ map f ys
map-append f [] ys = refl
map-append f (x ∷ xs) ys = ap (◌∷◌ (f x)) (map-append f xs ys)

module _ {F J : Type 0} where
  -- What an answer says of the chunks that were recalled.
  pub record Answers (a : Allowance) (q : SearchQuery J) (recalled : RecallResult F J)
      (r : RetrievalResult F J) : Type 0 where
    pub size : length r.chunks ≡ min a.top_k (length recalled.chunks)
    pub fetched : r.fetched ≡ length recalled.chunks
    pub effective : r.effective_top_k ≡ a.top_k
    pub level : r.degraded ≡ a.level
    pub mode : r.mode ≡ recalled.mode
    pub rest : List (RetrievedChunk F J)
    pub chosen : Perm (map body (r.chunks ++ rest)) (map body recalled.chunks)
    pub unranked : r.reranked ≡ false → r.chunks ≡ take a.top_k recalled.chunks
    pub allowed : r.reranked ≡ true → q.rerank && a.allow_rerank ≡ true

module _ {F J : Type 0} (fl : Floats F) (service : RetrievalService F J) (a : Allowance)
    (q : SearchQuery J) (recalled : RecallResult F J) where
  result-Answers :
      (chunks : List (RetrievedChunk F J)) (done : Bool) (ds : List RetrievalDegradation)
      → Rearranges recalled.chunks (chunks, done, none)
      → (done ≡ true → q.rerank && a.allow_rerank ≡ true)
      → Answers a q recalled (result_of fl service a recalled chunks done ds)
  result-Answers chunks done ds r may = record {
    size =
        length-take a.top_k chunks
        ∙ ap (min a.top_k)
            (sym (length-map body chunks) ∙ length-perm r.0 ∙ length-map body recalled.chunks);
    fetched = refl;
    effective = refl;
    level = refl;
    mode = refl;
    rest = drop a.top_k chunks;
    chosen =
        subst (λ l. Perm (map body l) (map body recalled.chunks))
          (sym (take-append-drop a.top_k chunks)) r.0;
    unranked = λ e. ap (take a.top_k) (r.1 e);
    allowed = may;
  }

  ranked_by-Answers :
      (arank : Option (String → List (RerankDocument J) → M F J (List (Ranked F)))) (w : World F J)
      (r : RetrievalResult F J)
      → ((f : String → List (RerankDocument J) → M F J (List (Ranked F)))
          → arank ≡ some f
          → q.rerank && a.allow_rerank ≡ true)
      → (ranked_by fl service a q recalled arank w).0 ≡ ok r
      → Answers a q recalled r
  unfolding pure
  ranked_by-Answers none w r may e =
      let same : result_of fl service a recalled recalled.chunks false recalled.degradations ≡ r =
        cc in
      subst (Answers a q recalled) same (
        result-Answers recalled.chunks false recalled.degradations
          (Perm.refl (map body recalled.chunks), λ t. refl) (λ t. absurd (cc)))
  ranked_by-Answers (some arank) w r may e =
      bind_inv (λ o. (x : RetrievalResult F J) → o.0 ≡ ok x → Answers a q recalled x)
        (rerank arank q.query recalled.chunks) (λ x. pure (ranked_result fl service a recalled x)) w
        e
        (λ x returned t y u.
          let same : ranked_result fl service a recalled x ≡ y = cc in
          subst (Answers a q recalled) same (
            result-Answers x.0 x.1 (with_degradation fl service recalled.degradations x.2)
              (rerank-Rearranges arank q.query recalled.chunks w x returned)
              (λ done. may arank refl)))
        r e

  allowed_by :
      (b : Bool) (arank : Option (String → List (RerankDocument J) → M F J (List (Ranked F))))
      (f : String → List (RerankDocument J) → M F J (List (Ranked F)))
      → (if b then arank else none) ≡ some f
      → b ≡ true
  allowed_by true arank f e = refl
  allowed_by false arank f e = absurd (cc)

  ranked-Answers :
      (chunks : List (RetrievedChunk F J)) (w : World F J) (r : RetrievalResult F J)
      → recalled.chunks ≡ chunks
      → (ranked fl service a q recalled chunks w).0 ≡ ok r
      → Answers a q recalled r
  unfolding pure
  ranked-Answers [] w r none_there e =
      let same : result_of fl service a recalled [] false recalled.degradations ≡ r = cc in
      subst (Answers a q recalled) same (
        result-Answers [] false recalled.degradations
          (
            subst (λ l. Perm (map body []) (map body l)) (sym none_there) (Perm.refl []),
            λ t. sym none_there,
          )
          (λ t. absurd (cc)))
  ranked-Answers (c ∷ cs) w r there e =
      ranked_by-Answers (if q.rerank && a.allow_rerank then service.reranker else none) w r
        (allowed_by (q.rerank && a.allow_rerank) service.reranker) e

module _ {F J : Type 0} (fl : Floats F) (service : RetrievalService F J) where
  -- Where a search returns, its recall returned. The answer has as many chunks as the allowance
  -- lets, or as were recalled; they are recalled chunks, each at most as often as it was recalled,
  -- and nothing but their scores may differ; where it was not reranked they are the first ones as
  -- they were recalled; it is reranked only if the query and the load both let it; and it tells
  -- the number that was recalled, the `top_k` and the level that hold, and the mode of the recall.
  pub search_within-Answers :
      (a : Allowance) (q : SearchQuery J) (w : World F J) (r : RetrievalResult F J)
      → (search_within fl service a q w).0 ≡ ok r
      → (recalled : RecallResult F J) × ((recall fl service q w).0 ≡ ok recalled)
        × Answers a q recalled r
  unfolding search_within
  search_within-Answers a q w r e =
      bind_inv
        (λ o.
          (x : RetrievalResult F J)
          → o.0 ≡ ok x
          → (recalled : RecallResult F J) × ((recall fl service q w).0 ≡ ok recalled)
            × Answers a q recalled x)
        (recall fl service q) (λ recalled. ranked fl service a q recalled recalled.chunks) w e
        (λ recalled returned t x u.
          (recalled, returned, ranked-Answers fl service a q recalled recalled.chunks _ x refl u))
        r e
