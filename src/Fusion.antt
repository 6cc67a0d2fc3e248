-- ===== src/Fusion.antt =====
-- `reciprocal_rank_fusion` of comet_rag/engines/retrieval/fusion.py. That `rrf_k` is an int and not a
-- bool is its type.
pub mod Loop
pub mod Outcome
use comet_rag.Prelude.{
  ℕ, ◌+◌, ℤ, pos, positive, String, Bool, true, false, Option, none, some, List, [], ◌∷◌, ◌==◌,
  if◌then◌else◌, any, is_blank, sort,
}
use comet_rag.Dict.{Dict, lookup, insert}
use comet_rag.Floats.{Floats}
use comet_rag.Floats.Ranking.{ranks_before}
use comet_rag.VectorStore.{SearchHit}

pub record RankContribution (F : Type 0) : Type 0 where
  pub rank : ℕ
  pub score : F

pub record FusedHit (F J : Type 0) : Type 0 where
  pub id : String
  pub text : String
  pub score : F
  pub metadata : Dict J
  pub contributions : Dict (RankContribution F)

-- The exceptions: the two that the code raises, and the `KeyError` of a missing key.
pub data Error : Type 0 where
  bad_rrf_k blank_channel : Error
  key_error : String → Error

pub data Result (A : Type 0) : Type 0 where
  ok : A → Result A
  err : Error → Result A

-- `representatives`, `scores` and `contributions`
pub record Fusion (F J : Type 0) : Type 0 where
  pub representatives : Dict (SearchHit F J)
  pub scores : Dict F
  pub contributions : Dict (Dict (RankContribution F))

abbrev pub empty_fusion : {F J : Type 0} → Fusion F J
empty_fusion = record { representatives = []; scores = []; contributions = [] }

abbrev pub default_rrf_k : ℤ
default_rrf_k = pos 60

-- `d.setdefault(k, v)`, which leaves `d` with a value under `k`
unfoldable pub setdefault {ℓ} : {V : Type ℓ} → String → V → Dict V → Dict V
setdefault k v d = elim (lookup k d) [ none ↦ insert k v d | some w ↦ d ]

-- `d.get(k, v)`
abbrev pub get_or {ℓ} : {V : Type ℓ} → V → Option V → V
get_or v none = v
get_or v (some w) = w

abbrev pub with_first : {A : Type 0} → Result A → Result (List A) → Result (List A)
with_first (err e) rest = err e
with_first (ok x) (err e) = err e
with_first (ok x) (ok xs) = ok (x ∷ xs)

module _ {F J : Type 0} (fl : Floats F) where
  -- The part of the loop's body behind `seen.add`
  unfoldable pub count_hit : ℕ → String → ℕ → SearchHit F J → Fusion F J → Fusion F J
  unfolding setdefault
  count_hit rrf_k channel rank hit st = record {
    representatives = setdefault hit.id hit st.representatives;
    scores =
        insert hit.id
          (fl.add (get_or fl.zero (lookup hit.id st.scores))
            (fl.div fl.one (fl.of_nat (rrf_k + rank))))
          st.scores;
    contributions =
        insert hit.id
          (insert channel (record { rank = rank; score = hit.score })
            (get_or [] (lookup hit.id st.contributions)))
          st.contributions;
  }

  -- `for rank, hit in enumerate(hits, start=rank)`
  unfoldable pub fuse_hits :
      ℕ → String → ℕ → List String → List (SearchHit F J) → Fusion F J → Fusion F J
  unfolding count_hit
  fuse_hits rrf_k channel rank seen [] st = st
  fuse_hits rrf_k channel rank seen (hit ∷ hits) st =
      let old = any (λ i. i == hit.id) seen in
      fuse_hits rrf_k channel (rank + 1) (if old then seen else hit.id ∷ seen) hits
        (if old then st else count_hit rrf_k channel rank hit st)

  -- `for channel, hits in channels.items()`
  unfoldable pub fuse_channels : ℕ → Dict (List (SearchHit F J)) → Fusion F J → Result (Fusion F J)
  unfolding fuse_hits
  fuse_channels rrf_k [] st = ok st
  fuse_channels rrf_k ((channel, hits) ∷ channels) st =
      let rest = fuse_channels rrf_k channels (fuse_hits rrf_k channel 1 [] hits st) in
      if is_blank channel then err blank_channel else rest

  -- `fused`, with `representatives[hit_id]` and `contributions[hit_id]`
  abbrev pub fused_hit :
      String
      → F
      → Option (SearchHit F J)
      → Option (Dict (RankContribution F))
      → Result (FusedHit F J)
  fused_hit id score none contributions = err (key_error id)
  fused_hit id score (some hit) none = err (key_error id)
  fused_hit id score (some hit) (some contributions) = ok (record {
    id = id;
    text = hit.text;
    score = score;
    metadata = hit.metadata;
    contributions = contributions;
  })

  unfoldable pub fused_hits : Fusion F J → Dict F → Result (List (FusedHit F J))
  fused_hits st [] = ok []
  fused_hits st ((id, score) ∷ rest) =
      with_first (fused_hit id score (lookup id st.representatives) (lookup id st.contributions))
        (fused_hits st rest)

  abbrev pub by_rank : FusedHit F J → FusedHit F J → Bool
  by_rank = ranks_before fl (λ hit. hit.score) (λ hit. hit.id)

  abbrev pub sorted_hits : Result (List (FusedHit F J)) → Result (List (FusedHit F J))
  sorted_hits (err e) = err e
  sorted_hits (ok hits) = ok (sort by_rank hits)

  abbrev pub hits_of : Result (Fusion F J) → Result (List (FusedHit F J))
  hits_of (err e) = err e
  hits_of (ok st) = sorted_hits (fused_hits st st.scores)

  abbrev pub fuse : Dict (List (SearchHit F J)) → Option ℕ → Result (List (FusedHit F J))
  fuse channels none = err bad_rrf_k
  fuse channels (some rrf_k) = hits_of (fuse_channels rrf_k channels empty_fusion)

  unfoldable pub reciprocal_rank_fusion :
      Dict (List (SearchHit F J)) → ℤ → Result (List (FusedHit F J))
  unfolding fuse_channels fused_hits
  reciprocal_rank_fusion channels rrf_k = fuse channels (positive rrf_k)
