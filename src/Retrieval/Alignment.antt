-- ===== src/Retrieval/Alignment.antt =====
-- What `_rerank` makes of the candidates when the reranker answers.
use mathlib.Core.List
use mathlib.Core.Option.{Option-elim}
use mathlib.Core.List.{Perm}
use mathlib.Core.List.Perm
use native.Mathlib.Nat.{ℕ_set}
use comet_rag.Prelude.{
  get_elem?, ℕ, zero, suc, ◌≤◌, ℤ, pos, String, ◌≡◌, refl, sym, ap, ◌∙◌, subst, true, false, Option,
  none, some, List, [], ◌∷◌, ◌++◌, arith, eqb, eqb→eq, length, map, sort, sort-perm, length-sort,
  Bool-cases, inl, inr, if-true, if-false, append_assoc,
}
use comet_rag.Dict.{Dict}
use comet_rag.Retrieval.Chunks.{RetrievedChunk}
use comet_rag.Retrieval.Placement.{int_eq_lem, Placed, reordered-Placed}
use comet_rag.Retrieval.Rerank.{
  Ranked, int_lt, counts_from, at, rescored, Reranked, fallback, reordered, align,
}
use comet_rag.Stores.{ok}

-- The positions of n elements.
abbrev pub positions : ℕ → ℕ → List ℤ
positions start zero = []
positions start (suc n) = pos start ∷ positions (suc start) n

counts_from_lem :
    (start : ℕ) (is : List ℤ) → counts_from start is ≡ true → is ≡ positions start (length is)
unfolding counts_from
counts_from_lem start [] e = refl
counts_from_lem start (i ∷ is) e =
    ground (arith, e, int_eq_lem i start, counts_from_lem (suc start) is)

module _ {A : Type 0} where
  at-length : (front xs : List A) (x : A) → get_elem? (front ++ x ∷ xs) (length front) ≡ some x
  at-length [] xs x = refl
  at-length (y ∷ front) xs x = at-length front xs x

  length-snoc : (front : List A) (x : A) → length (front ++ x ∷ []) ≡ suc (length front)
  length-snoc [] x = refl
  length-snoc (y ∷ front) x = ap suc (length-snoc front x)

  at-positions :
      (front xs : List A)
      → map (at (front ++ xs)) (positions (length front) (length xs)) ≡ map some xs
  at-positions front [] = refl
  at-positions front (x ∷ xs) =
      let rest = at-positions (front ++ x ∷ []) xs in
      let tail : map (at (front ++ x ∷ xs)) (positions (suc (length front)) (length xs))
          ≡ map some xs =
        subst (λ n. map (at (front ++ x ∷ xs)) (positions n (length xs)) ≡ map some xs)
          (length-snoc front x)
          (subst (λ l. map (at l) (positions (length (front ++ x ∷ [])) (length xs)) ≡ map some xs)
            (append_assoc front (x ∷ []) xs) rest) in
      λ i. at-length front xs x i ∷ tail i

  abbrev somes : List (Option A) → List A
  somes = List.filter_map (λ (o : Option A). o)

  somes-map : (xs : List A) → somes (map some xs) ≡ xs
  unfolding List.filter_map Option-elim
  somes-map [] = refl
  somes-map (x ∷ xs) = ap (◌∷◌ x) (somes-map xs)

  length-somes : (os : List (Option A)) → length (somes os) ≤ length os
  unfolding List.filter_map Option-elim
  length-somes [] = omega arith
  length-somes (none ∷ os) = omega (arith, length-somes os)
  length-somes (some x ∷ os) = omega (arith, length-somes os)

  all_some : (os : List (Option A)) → length (somes os) ≡ length os → os ≡ map some (somes os)
  unfolding List.filter_map Option-elim
  all_some [] e = refl
  all_some (none ∷ os) e = absurd (omega (arith, e, length-somes os))
  all_some (some x ∷ os) e = ap (◌∷◌ (some x)) (all_some os (omega (arith, e)))

-- What a reranking leaves of a chunk: all but the score.
abbrev pub Body : Type 0 → Type 0 → Type 0
Body F J = String × String × Dict J × Option F × Option F × Option F × Option ℕ × Option ℕ

module _ {F J : Type 0} where
  abbrev pub body : RetrievedChunk F J → Body F J
  body c = (
    c.id, c.text, c.metadata, c.vector_score, c.keyword_score, c.fusion_score, c.vector_rank,
    c.keyword_rank,
  )

  -- Every index that is in range gives the chunk at it, with the reranker's score.
  rescored_lem :
      (candidates : List (RetrievedChunk F J)) (items : List (Ranked F))
      (ys : List (RetrievedChunk F J))
      → map (λ (r : Ranked F). at candidates r.index) items ≡ map some ys
      → (chunks : List (RetrievedChunk F J)) × (rescored candidates items ≡ some chunks)
        × (map body chunks ≡ map body ys)
        × (map (λ (c : RetrievedChunk F J). c.score) chunks ≡ map (λ (r : Ranked F). r.score) items)
  unfolding rescored
  rescored_lem candidates [] [] e = ([], refl, refl, refl)
  rescored_lem candidates [] (y ∷ ys) e = absurd (cc)
  rescored_lem candidates (item ∷ items) [] e = absurd (cc)
  rescored_lem candidates (item ∷ items) (y ∷ ys) e =
      let rest = rescored_lem candidates items ys (cc) in
      let first : at candidates item.index ≡ some y = cc in
      (
        record y { score = item.score } ∷ rest.0,
        ground (arith, first, rest.1),
        ap (◌∷◌ (body y)) rest.2,
        ap (◌∷◌ item.score) rest.3,
      )

module _ {A : Type 0} where
  length-foldr : (xs : List A) → List.foldr (λ (x : A) (n : ℕ). suc n) 0 xs ≡ length xs
  length-foldr [] = refl
  length-foldr (x ∷ xs) = ap suc (length-foldr xs)

  pub length-perm : {xs ys : List A} → Perm xs ys → length xs ≡ length ys
  length-perm {xs} {ys} p =
      sym (length-foldr xs)
      ∙ Perm.foldr-eq ℕ_set (λ (x : A) (n : ℕ). suc n) (λ a b n. refl) p 0
      ∙ length-foldr ys

module _ {A B C : Type 0} where
  map-map : (f : A → B) (g : B → C) (xs : List A) → map g (map f xs) ≡ map (λ x. g (f x)) xs
  map-map f g [] = refl
  map-map f g (x ∷ xs) = ap (◌∷◌ (g (f x))) (map-map f g xs)

module _ {A B : Type 0} where
  pub length-map : (f : A → B) (xs : List A) → length (map f xs) ≡ length xs
  length-map f [] = refl
  length-map f (x ∷ xs) = ap suc (length-map f xs)

module _ {F J : Type 0} (candidates : List (RetrievedChunk F J)) (items : List (Ranked F)) where
  abbrev indexes : List ℤ
  indexes = map (λ (r : Ranked F). r.index) items

  picked :
      length items ≡ length candidates
      → counts_from 0 (sort int_lt indexes) ≡ true
      → Perm (map some candidates) (map (λ (r : Ranked F). at candidates r.index) items)
  picked same counts =
      let n = length-sort int_lt indexes ∙ length-map (λ (r : Ranked F). r.index) items ∙ same in
      let sorted : sort int_lt indexes ≡ positions 0 (length candidates) =
        counts_from_lem 0 (sort int_lt indexes) counts ∙ ap (positions 0) n in
      let p : Perm (positions 0 (length candidates)) indexes =
        subst (λ l. Perm l indexes) sorted (sort-perm int_lt indexes) in
      let q : Perm (map (at candidates) (positions 0 (length candidates)))
          (map (at candidates) indexes) =
        Perm.map (at candidates) p in
      subst (λ l. Perm (map some candidates) l)
        (map-map (λ (r : Ranked F). r.index) (at candidates) items)
        (subst (λ l. Perm l (map (at candidates) indexes)) (at-positions [] candidates) q)

  aligned :
      length items ≡ length candidates
      → counts_from 0 (sort int_lt indexes) ≡ true
      → (chunks : List (RetrievedChunk F J)) × (rescored candidates items ≡ some chunks)
        × Perm (map body chunks) (map body candidates)
        × (map (λ (c : RetrievedChunk F J). c.score) chunks ≡ map (λ (r : Ranked F). r.score) items)
  aligned same counts =
      let os = map (λ (r : Ranked F). at candidates r.index) items in
      let p = picked same counts in
      let ys = somes os in
      let q : Perm candidates ys =
        subst (λ l. Perm l ys) (somes-map candidates)
          (Perm.filter_map (λ (o : Option (RetrievedChunk F J)). o) p) in
      let full : length ys ≡ length os =
        sym (length-perm q)
        ∙ sym same
        ∙ sym (length-map (λ (r : Ranked F). at candidates r.index) items) in
      let r = rescored_lem candidates items ys (all_some os full) in
      (
        r.0,
        r.1,
        subst (λ l. Perm l (map body candidates)) (sym r.2) (Perm.symm (Perm.map body q)),
        r.3,
      )

  -- Whatever the reranker answers, no index of the answer raises an error, and the chunks that come
  -- back are the candidates, each once, but for scores. Where the answer is used, the chunks have the
  -- answer's scores in its order, and for each item of the answer the chunk at its position is the
  -- candidate at the item's index, with the item's score. Where it is not, they are as they were.
  pub align_lem :
      (r : Reranked F J) × (align candidates items ≡ ok r)
      × Perm (map body r.0) (map body candidates)
      × (r.1 ≡ true
          → map (λ (c : RetrievedChunk F J). c.score) r.0 ≡ map (λ (x : Ranked F). x.score) items)
      × (r.1 ≡ false → r.0 ≡ candidates)
      × (r.1 ≡ true → Placed candidates items r.0)
  unfolding align
  align_lem = elim (Bool-cases (eqb (length items) (length candidates))) [
    | inr e ↦ (
      fallback candidates "result_count_mismatch" none,
      if-false (eqb (length items) (length candidates)) _ _ e,
      Perm.refl (map body candidates),
      λ t. absurd (cc),
      λ t. refl,
      λ t. absurd (cc),
    )
    | inl e ↦ elim (Bool-cases (counts_from 0 (sort int_lt indexes))) [
      | inr f ↦ (
        fallback candidates "result_index_mismatch" none,
        if-true (eqb (length items) (length candidates)) _ _ e
            ∙ if-false (counts_from 0 (sort int_lt indexes)) _ _ f,
        Perm.refl (map body candidates),
        λ t. absurd (cc),
        λ t. refl,
        λ t. absurd (cc),
      )
      | inl f ↦
          let a = aligned (eqb→eq (length items) (length candidates) e) f in
          (
            (a.0, true, none),
            if-true (eqb (length items) (length candidates)) _ _ e
                ∙ if-true (counts_from 0 (sort int_lt indexes)) _ _ f
                ∙ ap reordered a.1,
            a.2,
            λ t. a.3,
            λ t. absurd (cc),
            λ t. reordered-Placed candidates items a.0 f a.1,
          )
    ]
  ]
