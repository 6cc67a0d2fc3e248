-- ===== src/Fusion/Outcome.antt =====
-- What `reciprocal_rank_fusion` returns.
use comet_rag.Prelude.{
  ℕ, suc, ◌+◌, pos, String, ◌≡◌, refl, ap, ◌∙◌, true, false, Option, none, some, List, [], ◌∷◌,
  arith, eq_iff, any, is_blank, All, if-elim, sort,
}
use comet_rag.Dict.{Dict, lookup, lookup-empty}
use comet_rag.Dict.Keys.{IsDistinct, insert-IsDistinct, lookup-entry}
use comet_rag.Keyed.{find_key, IsDistinctBy, find_key-sort, sort-IsDistinctBy}
use comet_rag.Floats.{Floats, IsOrdered}
use comet_rag.Floats.Ranking.{IsRanked, sort-IsRanked}
use comet_rag.VectorStore.{SearchHit}
use comet_rag.Fusion.{
  FusedHit, Fusion, ok, err, blank_channel, empty_fusion, count_hit, fuse_hits, fuse_channels,
  fused_hit, fused_hits, with_first, by_rank, hits_of, reciprocal_rank_fusion,
}
use comet_rag.Fusion.Loop.{expected_hit, contribute, first_rank, Shows, fuse_hits-Shows}

module _ {F J : Type 0} (fl : Floats F) where
  fuse_hits-IsDistinct :
      (k : ℕ) (channel : String) (rank : ℕ) (seen : List String) (hits : List (SearchHit F J))
      (st : Fusion F J)
      → IsDistinct st.scores
      → IsDistinct (fuse_hits fl k channel rank seen hits st).scores
  unfolding fuse_hits count_hit
  fuse_hits-IsDistinct k channel rank seen [] st d = d
  fuse_hits-IsDistinct k channel rank seen (hit ∷ hits) st d =
      fuse_hits-IsDistinct k channel (rank + 1) _ hits _ (
        if-elim (λ (s : Fusion F J). IsDistinct s.scores) _ st (count_hit fl k channel rank hit st)
          (λ e. d) (λ e. insert-IsDistinct hit.id _ st.scores d))

  -- The channels that the loop gets through.
  abbrev pub AreNamed : Dict (List (SearchHit F J)) → Type 0
  AreNamed = All (λ c. is_blank c.0 ≡ false)

  record Fused (k : ℕ) (channels : Dict (List (SearchHit F J))) (st : Fusion F J)
      (o : String → Option (FusedHit F J)) : Type 0 where
    result : Fusion F J
    returns : fuse_channels fl k channels st ≡ ok result
    distinct : IsDistinct result.scores
    shows : (id : String) → Shows id result (expected_hit fl k id channels (o id))

  fuse_channels-Fused :
      (k : ℕ) (channels : Dict (List (SearchHit F J))) (st : Fusion F J)
      (o : String → Option (FusedHit F J))
      → AreNamed channels
      → IsDistinct st.scores
      → ((id : String) → Shows id st (o id))
      → Fused k channels st o
  unfolding fuse_channels expected_hit
  fuse_channels-Fused k [] st o named d shows = record {
    result = st;
    returns = refl;
    distinct = d;
    shows = shows;
  }
  fuse_channels-Fused k ((channel, hits) ∷ channels) st o named d shows =
      let next = fuse_hits fl k channel 1 [] hits st in
      let rest =
        fuse_channels-Fused k channels next
          (λ id. contribute fl k channel (o id) (first_rank id 1 hits)) named.1
          (fuse_hits-IsDistinct k channel 1 [] hits st d)
          (λ id. fuse_hits-Shows fl k channel id 1 [] hits st (o id) (shows id)) in
      record {
        result = rest.result;
        returns = ground (arith, named.0, rest.returns);
        distinct = rest.distinct;
        shows = rest.shows;
      }

  -- The entries of `scores` become the hits that the ids show.
  module _ (st : Fusion F J) (o : String → Option (FusedHit F J))
      (shows : (id : String) → Shows id st (o id)) where
    abbrev found : String → Option F → Option (FusedHit F J)
    found id none = none
    found id (some score) = o id

    entry_lem :
        (id : String) (score : F) (e : Option (FusedHit F J))
        → Shows id st e
        → lookup id st.scores ≡ some score
        → (f : FusedHit F J) × (fused_hit fl id score
              (lookup id st.representatives)
              (lookup id st.contributions)
            ≡ ok f)
          × (e ≡ some f)
          × (f.id ≡ id)
    entry_lem id score none h e = absurd (cc)
    entry_lem id score (some f) h e = (f, built, refl, h.0)
      where
        built :
            fused_hit fl id score (lookup id st.representatives) (lookup id st.contributions) ≡ ok f
        built = ground (arith, h, e)

    fused_hits_lem :
        (es : Dict F)
        → IsDistinct es
        → All (λ e. lookup e.0 st.scores ≡ some e.1) es
        → (hits : List (FusedHit F J)) × (fused_hits fl st es ≡ ok hits)
          × ((id : String) → find_key (λ hit. hit.id) id hits ≡ found id (lookup id es))
          × IsDistinctBy (λ hit. hit.id) hits
    unfolding fused_hits find_key lookup
    fused_hits_lem [] d a = ([], refl, λ id. refl, tt)
    fused_hits_lem ((id, score) ∷ es) d a =
        let first = entry_lem id score (o id) (shows id) a.0 in
        let rest = fused_hits_lem es d.1 a.1 in
        let f = first.0 in
        (
          f ∷ rest.0,
          ap (λ r. with_first r (fused_hits fl st es)) first.1 ∙ ap (with_first (ok f)) rest.1,
          (λ j. ground (arith, rest.2 j, first.2, first.3, eq_iff f.id j, eq_iff id j)),
          (rest.2 f.id ∙ ap (λ i. found f.id (lookup i es)) first.3 ∙ ap (found f.id) d.0, rest.3),
        )

    found_all : (id : String) → found id (lookup id st.scores) ≡ o id
    found_all id = shown (o id) (shows id)
      where
        shown :
            (e : Option (FusedHit F J))
            → Shows id st e
            → elim (lookup id st.scores) as (λ s. Option (FusedHit F J)) [
              | none ↦ none
              | some s ↦ e
            ]
              ≡ e
        shown none h = ground (arith, h.0)
        shown (some f) h = ground (arith, h.1)

  empty_shows : (id : String) → Shows id (empty_fusion {F = F} {J = J}) none
  empty_shows id = (lookup-empty id, lookup-empty id, lookup-empty id)

  -- If scores are ordered as numbers are, `rrf_k` is positive and no channel's name is blank, the
  -- fusion returns. Its hits are ranked by score, then id; no two of them have one id; and the hit
  -- of each id is the one that the channels that have the id make of it, each by its first hit of
  -- that id and by the rank of that hit, with no hit for an id that no channel has.
  pub reciprocal_rank_fusion_lem :
      IsOrdered fl
      → (channels : Dict (List (SearchHit F J))) (k : ℕ) → AreNamed channels
      → (hits : List (FusedHit F J)) × (reciprocal_rank_fusion fl channels (pos (suc k)) ≡ ok hits)
        × IsRanked fl (λ hit. hit.score) (λ hit. hit.id) hits
        × IsDistinctBy (λ hit. hit.id) hits
        × ((id : String)
            → find_key (λ hit. hit.id) id hits ≡ expected_hit fl (suc k) id channels none)
  unfolding reciprocal_rank_fusion
  reciprocal_rank_fusion_lem order channels k named =
      let f = fuse_channels-Fused (suc k) channels empty_fusion (λ id. none) named tt empty_shows in
      let st = f.result in
      let o = λ (id : String). expected_hit fl (suc k) id channels none in
      let listed =
        fused_hits_lem st o f.shows st.scores f.distinct (lookup-entry st.scores f.distinct) in
      let hits = listed.0 in
      (
        sort (by_rank fl) hits,
        ground (arith, f.returns, listed.1),
        sort-IsRanked fl (λ hit. hit.score) (λ hit. hit.id) order hits,
        sort-IsDistinctBy (λ hit. hit.id) (by_rank fl) hits listed.3,
        λ id.
            find_key-sort (λ hit. hit.id) (by_rank fl) id hits listed.3
            ∙ listed.2 id
            ∙ found_all st o f.shows id,
      )

  channels_refused :
      (k : ℕ) (channels : Dict (List (SearchHit F J))) (st : Fusion F J)
      → any (λ c. is_blank c.0) channels ≡ true
      → fuse_channels fl k channels st ≡ err blank_channel
  unfolding fuse_channels
  channels_refused k [] st b = absurd (cc)
  channels_refused k ((channel, hits) ∷ channels) st b =
      ground (arith, b, channels_refused k channels (fuse_hits fl k channel 1 [] hits st))

  -- A blank name among the channels is an error, at whatever place, for every positive `rrf_k`.
  pub reciprocal_rank_fusion_refused :
      (channels : Dict (List (SearchHit F J))) (k : ℕ)
      → any (λ c. is_blank c.0) channels ≡ true
      → reciprocal_rank_fusion fl channels (pos (suc k)) ≡ err blank_channel
  unfolding reciprocal_rank_fusion
  reciprocal_rank_fusion_refused channels k blank =
      ap (hits_of fl) (channels_refused (suc k) channels empty_fusion blank)
