-- ===== src/Retrieval/Chunks.antt =====
-- The chunks of comet_rag/services/retrieval.py, made from the hits of either channel or of both.
use comet_rag.Prelude.{ℕ, ◌+◌, String, Option, none, some, List, [], ◌∷◌}
use comet_rag.Dict.{Dict, lookup}
use comet_rag.VectorStore.{SearchHit}
use comet_rag.Fusion.{FusedHit, RankContribution}

pub record RetrievedChunk (F J : Type 0) : Type 0 where
  pub id : String
  pub text : String
  pub score : F
  pub metadata : Dict J
  pub vector_score : Option F
  pub keyword_score : Option F
  pub fusion_score : Option F
  pub vector_rank : Option ℕ
  pub keyword_rank : Option ℕ

module _ {F J : Type 0} where
  abbrev pub dense_chunk : ℕ → SearchHit F J → RetrievedChunk F J
  dense_chunk rank hit = record {
    id = hit.id;
    text = hit.text;
    score = hit.score;
    metadata = hit.metadata;
    vector_score = some hit.score;
    keyword_score = none;
    fusion_score = none;
    vector_rank = some rank;
    keyword_rank = none;
  }

  -- `_dense_chunks`, with the rank of the first hit
  abbrev pub dense_chunks : ℕ → List (SearchHit F J) → List (RetrievedChunk F J)
  dense_chunks rank [] = []
  dense_chunks rank (hit ∷ hits) = dense_chunk rank hit ∷ dense_chunks (rank + 1) hits

  abbrev pub keyword_chunk : ℕ → SearchHit F J → RetrievedChunk F J
  keyword_chunk rank hit = record {
    id = hit.id;
    text = hit.text;
    score = hit.score;
    metadata = hit.metadata;
    vector_score = none;
    keyword_score = some hit.score;
    fusion_score = none;
    vector_rank = none;
    keyword_rank = some rank;
  }

  -- `_keyword_chunks`
  abbrev pub keyword_chunks : ℕ → List (SearchHit F J) → List (RetrievedChunk F J)
  keyword_chunks rank [] = []
  keyword_chunks rank (hit ∷ hits) = keyword_chunk rank hit ∷ keyword_chunks (rank + 1) hits

abbrev pub score_of : {F : Type 0} → Option (RankContribution F) → Option F
score_of none = none
score_of (some c) = some c.score

abbrev pub rank_of : {F : Type 0} → Option (RankContribution F) → Option ℕ
rank_of none = none
rank_of (some c) = some c.rank

module _ {F J : Type 0} where
  -- `_fused_chunk`
  unfoldable pub fused_chunk : FusedHit F J → RetrievedChunk F J
  fused_chunk hit = record {
    id = hit.id;
    text = hit.text;
    score = hit.score;
    metadata = hit.metadata;
    vector_score = score_of (lookup "dense" hit.contributions);
    keyword_score = score_of (lookup "keyword" hit.contributions);
    fusion_score = some hit.score;
    vector_rank = rank_of (lookup "dense" hit.contributions);
    keyword_rank = rank_of (lookup "keyword" hit.contributions);
  }
