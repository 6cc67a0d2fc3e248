-- ===== src/Fusion/Loop.antt =====
-- What the loop over the channels holds under one id: nothing, or the hit that the channels read so
-- far make of it.
use comet_rag.Prelude.{
  ℕ, ◌+◌, String, ◌≡◌, refl, Bool, true, false, Option, none, some, List, [], ◌∷◌, arith, ◌==◌,
  eq_iff, if◌then◌else◌, any, if-elim, subst, Bool-cases, inl, inr, ap, ◌∙◌,
}
use comet_rag.Dict.{Dict, lookup, insert, lookup-insert_own, lookup-insert_other}
use comet_rag.Floats.{Floats}
use comet_rag.VectorStore.{SearchHit}
use comet_rag.Fusion.{RankContribution, FusedHit, Fusion, setdefault, get_or, count_hit, fuse_hits}

module _ {F J : Type 0} where
  -- The first hit with an id, and its rank.
  unfoldable pub first_rank : String → ℕ → List (SearchHit F J) → Option (ℕ × SearchHit F J)
  first_rank id rank [] = none
  first_rank id rank (hit ∷ hits) =
      let rest = first_rank id (rank + 1) hits in if hit.id == id then some (rank, hit) else rest

module _ {F J : Type 0} (fl : Floats F) where
  -- What one channel adds to the fused hit of an id that it has at a rank.
  unfoldable pub contribute :
      ℕ → String → Option (FusedHit F J) → Option (ℕ × SearchHit F J) → Option (FusedHit F J)
  contribute k channel o none = o
  contribute k channel none (some (rank, hit)) = some (record {
    id = hit.id;
    text = hit.text;
    score = fl.add fl.zero (fl.div fl.one (fl.of_nat (k + rank)));
    metadata = hit.metadata;
    contributions = insert channel (record { rank = rank; score = hit.score }) [];
  })
  contribute k channel (some f) (some (rank, hit)) = some (record f {
    score = fl.add f.score (fl.div fl.one (fl.of_nat (k + rank)));
    contributions = insert channel (record { rank = rank; score = hit.score }) f.contributions;
  })

  -- The fused hit of an id: its rank in each channel that has it counts once.
  unfoldable pub expected_hit :
      ℕ → String → Dict (List (SearchHit F J)) → Option (FusedHit F J) → Option (FusedHit F J)
  unfolding first_rank contribute
  expected_hit k id [] o = o
  expected_hit k id ((channel, hits) ∷ channels) o =
      expected_hit k id channels (contribute k channel o (first_rank id 1 hits))

module _ {F J : Type 0} where
  abbrev pub Shows : String → Fusion F J → Option (FusedHit F J) → Type 0
  Shows id st none =
      (lookup id st.scores ≡ none)
      × (lookup id st.representatives ≡ none)
      × (lookup id st.contributions ≡ none)
  Shows id st (some f) =
      (f.id ≡ id)
      × (lookup id st.scores ≡ some f.score)
      × ((hit : SearchHit F J) × (lookup id st.representatives ≡ some hit)
          × (f.text ≡ hit.text)
          × (f.metadata ≡ hit.metadata))
      × (lookup id st.contributions ≡ some f.contributions)

module _ {ℓ} {V : Type ℓ} (k : String) (v : V) (d : Dict V) where
  setdefault-own : lookup k (setdefault k v d) ≡ some (get_or v (lookup k d))
  unfolding setdefault
  setdefault-own = ground (arith, lookup-insert_own k v d)

  setdefault-other : (j : String) → (k == j) ≡ false → lookup j (setdefault k v d) ≡ lookup j d
  unfolding setdefault
  setdefault-other j e = ground (arith, lookup-insert_other k v d j)

module _ {F J : Type 0} (fl : Floats F) (k : ℕ) (channel : String) (rank : ℕ) (hit : SearchHit F J)
    (st : Fusion F J) where
  counted :
      (o : Option (FusedHit F J))
      → Shows hit.id st o
      → Shows hit.id
          (count_hit fl k channel rank hit st)
          (contribute fl k channel o (some (rank, hit)))
  unfolding count_hit contribute
  counted none h = (
    refl,
    lookup-insert_own hit.id _ st.scores ∙ ap (λ s. some (fl.add (get_or fl.zero s) part)) h.0,
    (
      hit,
      setdefault-own hit.id hit st.representatives ∙ ap (λ r. some (get_or hit r)) h.1,
      refl,
      refl,
    ),
    lookup-insert_own hit.id _ st.contributions
        ∙ ap (λ c. some (insert channel mark (get_or [] c))) h.2,
  )
    where
      part : F
      part = fl.div fl.one (fl.of_nat (k + rank))

      mark : RankContribution F
      mark = record { rank = rank; score = hit.score }
  counted (some f) h = (
    h.0,
    lookup-insert_own hit.id _ st.scores ∙ ap (λ s. some (fl.add (get_or fl.zero s) part)) h.1,
    (
      h.2.0,
      setdefault-own hit.id hit st.representatives ∙ ap (λ r. some (get_or hit r)) h.2.1,
      h.2.2,
      h.2.3,
    ),
    lookup-insert_own hit.id _ st.contributions
        ∙ ap (λ c. some (insert channel mark (get_or [] c))) h.3,
  )
    where
      part : F
      part = fl.div fl.one (fl.of_nat (k + rank))

      mark : RankContribution F
      mark = record { rank = rank; score = hit.score }

  not_counted :
      (id : String) (o : Option (FusedHit F J))
      → (hit.id == id) ≡ false
      → Shows id st o
      → Shows id (count_hit fl k channel rank hit st) o
  unfolding count_hit
  not_counted id none e h = (
    lookup-insert_other hit.id _ st.scores id e ∙ h.0,
    setdefault-other hit.id hit st.representatives id e ∙ h.1,
    lookup-insert_other hit.id _ st.contributions id e ∙ h.2,
  )
  not_counted id (some f) e h = (
    h.0,
    lookup-insert_other hit.id _ st.scores id e ∙ h.1,
    (h.2.0, setdefault-other hit.id hit st.representatives id e ∙ h.2.1, h.2.2, h.2.3),
    lookup-insert_other hit.id _ st.contributions id e ∙ h.3,
  )

  count_hit-Shows :
      (id : String) (o : Option (FusedHit F J))
      → Shows id st o
      → Shows id
          (count_hit fl k channel rank hit st)
          (if hit.id == id then contribute fl k channel o (some (rank, hit)) else o)
  count_hit-Shows id o h =
      if-elim (Shows id (count_hit fl k channel rank hit st)) (hit.id == id)
        (contribute fl k channel o (some (rank, hit))) o
        (λ e.
          let same : hit.id ≡ id = (eq_iff hit.id id).0 e in
          subst
            (λ i.
              Shows i st o
              → Shows i (count_hit fl k channel rank hit st)
                  (contribute fl k channel o (some (rank, hit))))
            same (counted o) h)
        (λ e. not_counted id o e h)

abbrev pub in_seen : String → List String → Bool
in_seen i = any (λ s. s == i)

in_seen-eq :
    (i id : String) (seen : List String) → (i == id) ≡ true → in_seen i seen ≡ in_seen id seen
in_seen-eq i id seen e = ap (λ j. in_seen j seen) ((eq_iff i id).0 e)

module _ {F J : Type 0} (fl : Floats F) (k : ℕ) (channel id : String) where
  abbrev pub after_hits :
      ℕ → List String → List (SearchHit F J) → Option (FusedHit F J) → Option (FusedHit F J)
  after_hits rank seen hits o =
      if in_seen id seen then o else contribute fl k channel o (first_rank id rank hits)

  repeated :
      (rank : ℕ) (seen : List String) (hit : SearchHit F J) (hits : List (SearchHit F J))
      (o : Option (FusedHit F J))
      → in_seen hit.id seen ≡ true
      → after_hits (rank + 1) seen hits o ≡ after_hits rank seen (hit ∷ hits) o
  unfolding first_rank
  repeated rank seen hit hits o e = ground (arith, e, in_seen-eq hit.id id seen)

  fresh :
      (rank : ℕ) (seen : List String) (hit : SearchHit F J) (hits : List (SearchHit F J))
      (o : Option (FusedHit F J))
      → in_seen hit.id seen ≡ false
      → after_hits
          (rank + 1)
          (hit.id ∷ seen)
          hits
          (if hit.id == id then contribute fl k channel o (some (rank, hit)) else o)
        ≡ after_hits rank seen (hit ∷ hits) o
  unfolding first_rank
  fresh rank seen hit hits o e = ground (arith, e, in_seen-eq hit.id id seen)

  pub fuse_hits-Shows :
      (rank : ℕ) (seen : List String) (hits : List (SearchHit F J)) (st : Fusion F J)
      (o : Option (FusedHit F J))
      → Shows id st o
      → Shows id (fuse_hits fl k channel rank seen hits st) (after_hits rank seen hits o)
  unfolding fuse_hits first_rank contribute
  fuse_hits-Shows rank seen [] st o h =
      if-elim (Shows id st) (in_seen id seen) o o (λ e. h) (λ e. h)
  fuse_hits-Shows rank seen (hit ∷ hits) st o h =
      let counted_st = count_hit fl k channel rank hit st in
      let again = fuse_hits-Shows (rank + 1) seen hits st o h in
      let further =
        fuse_hits-Shows (rank + 1) (hit.id ∷ seen) hits counted_st
          (if hit.id == id then contribute fl k channel o (some (rank, hit)) else o)
          (count_hit-Shows fl k channel rank hit st id o h) in
      elim (Bool-cases (in_seen hit.id seen)) [
        | inl e ↦ rw e (subst (Shows id _) (repeated rank seen hit hits o e) again)
        | inr e ↦ rw e (subst (Shows id _) (fresh rank seen hit hits o e) further)
      ]
