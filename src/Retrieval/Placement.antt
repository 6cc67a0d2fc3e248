-- ===== src/Retrieval/Placement.antt =====
-- Where `_rerank` puts each candidate when it uses the reranker's answer.
use comet_rag.Prelude.{
  ℕ, zero, suc, ℤ, pos, negsuc, ◌≡◌, refl, sym, ◌∙◌, ap, subst, true, Option, none, some, List, [],
  ◌∷◌, arith, eqb→eq, if-elim, map, sort, put_in, All, get_elem?, Bool,
}
use comet_rag.Retrieval.Chunks.{RetrievedChunk}
use comet_rag.Retrieval.Rerank.{
  Ranked, int_lt, int_eq, counts_from, at, both, rescored_one, rescored,
}

pub int_eq_lem : (i : ℤ) (n : ℕ) → int_eq i (pos n) ≡ true → i ≡ pos n
int_eq_lem (pos m) n e = ap pos (eqb→eq m n e)
int_eq_lem (negsuc m) n e = absurd (cc)

abbrev IsNatural : ℤ → Type 0
IsNatural i = (n : ℕ) × (i ≡ pos n)

counts_from-IsNatural : (start : ℕ) (is : List ℤ) → counts_from start is ≡ true → All IsNatural is
unfolding counts_from
counts_from-IsNatural start [] e = tt
counts_from-IsNatural start (i ∷ is) e = (
  (start, int_eq_lem i start (ground (arith, e))),
  counts_from-IsNatural (suc start) is (ground (arith, e)),
)

module _ {A : Type 0} (P : A → Type 0) (before : A → A → Bool) where
  put_in-All : (x : A) (ys : List A) → All P (put_in before x ys) → P x × All P ys
  unfolding put_in
  put_in-All x [] ps = ps
  put_in-All x (y ∷ ys) ps =
      if-elim (λ (l : List A). All P l → P x × All P (y ∷ ys)) (before y x) (y ∷ put_in before x ys)
        (x ∷ y ∷ ys) (λ e qs. let r = put_in-All x ys qs.1 in (r.0, (qs.0, r.1))) (λ e qs. qs) ps

  sort-All : (xs : List A) → All P (sort before xs) → All P xs
  unfolding sort
  sort-All [] ps = tt
  sort-All (x ∷ xs) ps = let r = put_in-All x (sort before xs) ps in (r.0, sort-All xs r.1)

module _ {F J : Type 0} (candidates : List (RetrievedChunk F J)) where
  -- The j-th chunk is the candidate that the j-th item names, with the item's score.
  abbrev pub Placed : List (Ranked F) → List (RetrievedChunk F J) → Type 0
  Placed items chunks =
      (j : ℕ) (x : Ranked F)
      → get_elem? items j ≡ some x
      → (i : ℕ) × (c : RetrievedChunk F J) × (x.index ≡ pos i)
        × (get_elem? candidates i ≡ some c)
        × (get_elem? chunks j ≡ some (record c { score = x.score }))

  abbrev elem_of : ℕ → Option (List (RetrievedChunk F J)) → Option (RetrievedChunk F J)
  elem_of j none = none
  elem_of j (some cs) = get_elem? cs j

  both-eq-some :
      (score : F) (o : Option (RetrievedChunk F J)) (rest : Option (List (RetrievedChunk F J)))
      (chunks : List (RetrievedChunk F J))
      → both (rescored_one score o) rest ≡ some chunks
      → (c : RetrievedChunk F J) × (cs : List (RetrievedChunk F J)) × (o ≡ some c)
        × (rest ≡ some cs)
        × (some (record c { score = score } ∷ cs) ≡ some chunks)
  both-eq-some score none rest chunks e = absurd (cc)
  both-eq-some score (some c) none chunks e = absurd (cc)
  both-eq-some score (some c) (some cs) chunks e = (c, cs, refl, refl, e)

  rescored-Placed :
      (items : List (Ranked F)) (chunks : List (RetrievedChunk F J))
      → All IsNatural (map (λ (r : Ranked F). r.index) items)
      → rescored candidates items ≡ some chunks
      → Placed items chunks
  unfolding rescored
  rescored-Placed [] chunks ns e j x h = absurd (cc)
  rescored-Placed (item ∷ items) chunks ns e zero x h =
      let (c, cs, here, rest, made) =
        both-eq-some item.score (at candidates item.index) (rescored candidates items) chunks e in
      let same : item ≡ x = cc in
      subst
        (λ (y : Ranked F).
          (i : ℕ) × (c : RetrievedChunk F J) × (y.index ≡ pos i)
          × (get_elem? candidates i ≡ some c)
          × (get_elem? chunks zero ≡ some (record c { score = y.score })))
        same
        (ns.0.0, c, ns.0.1, ap (at candidates) (sym ns.0.1) ∙ here, sym (ap (elem_of zero) made))
  rescored-Placed (item ∷ items) chunks ns e (suc j) x h =
      let (c, cs, here, rest, made) =
        both-eq-some item.score (at candidates item.index) (rescored candidates items) chunks e in
      let (i, b, named, there, placed) = rescored-Placed items cs ns.1 rest j x h in
      (i, b, named, there, sym (ap (elem_of (suc j)) made) ∙ placed)

  pub reordered-Placed :
      (items : List (Ranked F)) (chunks : List (RetrievedChunk F J))
      → counts_from 0 (sort int_lt (map (λ (r : Ranked F). r.index) items)) ≡ true
      → rescored candidates items ≡ some chunks
      → Placed items chunks
  reordered-Placed items chunks counts e =
      let is = map (λ (r : Ranked F). r.index) items in
      rescored-Placed items chunks
        (sort-All IsNatural int_lt is (counts_from-IsNatural 0 (sort int_lt is) counts)) e
