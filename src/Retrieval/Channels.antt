-- ===== src/Retrieval/Channels.antt =====
-- When a hybrid recall answers, and what a reranker that fails costs.
use comet_rag.Prelude.{
  String, ◌≡◌, refl, ap, Bool, true, false, ◌&&◌, ◌||◌, some, List, [], ◌∷◌, arith, is_blank,
  is_space, if-true,
}
use comet_rag.Effect.{raise, pure, lift, attempt, proceed, ◌>>=◌}
use comet_rag.Floats.{Floats, IsOrdered}
use comet_rag.VectorStore.{SearchHit}
use comet_rag.Fusion.Outcome.{reciprocal_rank_fusion_lem}
use comet_rag.Retrieval.Chunks.{RetrievedChunk}
use comet_rag.Retrieval.Rerank.{
  Ranked, RerankDocument, Reranked, documents_of, align, rerank_failed, rerank, fallback,
}
use comet_rag.Retrieval.Recall.{must_propagate, hybrid_result, joined, join_channels}
use comet_rag.Retrieval.Alignment.{align_lem}
use comet_rag.Stores.{Error, is_exception, type_name, Result, ok, err, World, M}

module _ {A : Type 0} where
  abbrev pub failed : Result A → Bool
  failed (ok a) = false
  failed (err e) = true

  abbrev pub propagates : Result A → Bool
  propagates (ok a) = false
  propagates (err e) = must_propagate e

module _ {F J : Type 0} (fl : Floats F) (order : IsOrdered fl) where
  fused : (ds ks : List (SearchHit F J)) → failed (joined fl (ok ds) (ok ks)) ≡ false
  unfolding is_blank is_space
  fused ds ks =
      let r =
        reciprocal_rank_fusion_lem fl order (("dense", ds) ∷ ("keyword", ks) ∷ []) 59
          (refl, (refl, tt)) in
      ap (λ o. failed (hybrid_result fl o)) r.1

  -- If scores are ordered as numbers are, the joined recall of two channels fails exactly if an
  -- error of one of them has to propagate or both of them fail: one channel is enough.
  pub join_channels-failed :
      (ds ks : Result (List (SearchHit F J)))
      → failed (join_channels fl ds ks) ≡ propagates ds || propagates ks || (failed ds && failed ks)
  unfolding join_channels
  join_channels-failed (err d) (err k) = ground arith
  join_channels-failed (err d) (ok ks) = ground arith
  join_channels-failed (ok ds) (err k) = ground arith
  join_channels-failed (ok ds) (ok ks) = fused ds ks

module _ {F J : Type 0} where
  -- Where `arank` is not interrupted, a reranking returns, whatever else the reranker does.
  pub rerank_returns :
      (arank : String → List (RerankDocument J) → M F J (List (Ranked F))) (query : String)
      (candidates : List (RetrievedChunk F J)) (w : World F J)
      → ((e : Error)
          → ((lift (documents_of candidates) >>= arank query) w).0 ≡ err e
          → is_exception e ≡ true)
      → (r : Reranked F J) × ((rerank arank query candidates w).0 ≡ ok r)
  unfolding rerank attempt lift pure raise
  rerank_returns arank query candidates w calm =
      split ((lift (documents_of candidates) >>= arank query) w).0 _ calm
    where
      split :
          (o : Result (List (Ranked F))) (v : World F J)
          → ((e : Error) → o ≡ err e → is_exception e ≡ true)
          → (r : Reranked F J) × ((proceed
                (λ items. lift (align candidates items))
                (rerank_failed candidates)
                o
                v).0
              ≡ ok r)
      split (ok items) v calm = let a = align_lem candidates items in (a.0, a.1)
      split (err e) v calm = (
        fallback candidates "request_failed" (some (type_name e)),
        ap (λ (m : M F J (Reranked F J)). (m v).0) (if-true (is_exception e) _ _ (calm e refl)),
      )
