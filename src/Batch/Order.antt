-- ===== src/Batch/Order.antt =====
-- The vectors come in the order of the documents.
use comet_rag.Prelude.{
  ℕ, zero, suc, ◌≤◌, ◌<◌, ◌≡◌, refl, ap, sym, ◌∙◌, Option, some, List, [], ◌∷◌, ◌++◌, arith, map,
  eqb, if-true, if-false, length, take, drop, take-append-drop, length-drop,
}
use comet_rag.Batch.{
  ok, blocks, plan, flatten, joined, both, embed_all, join_results, embed_blocks, embed_documents,
}

module _ {D : Type 0} where
  flatten-blocks :
      (fuel limit : ℕ) (documents : List D)
      → 0 < limit
      → length documents ≤ fuel
      → flatten (blocks fuel limit documents) ≡ documents
  unfolding flatten blocks
  flatten-blocks zero limit [] some_limit enough = refl
  flatten-blocks zero limit (d ∷ ds) some_limit enough = absurd (omega arith)
  flatten-blocks (suc fuel) limit [] some_limit enough = refl
  flatten-blocks (suc fuel) limit (d ∷ ds) some_limit enough =
      ap (λ r. take limit (d ∷ ds) ++ r)
        (flatten-blocks fuel limit (drop limit (d ∷ ds)) some_limit
          (omega (arith, length-drop limit (d ∷ ds))))
      ∙ take-append-drop limit (d ∷ ds)

module _ {D V : Type 0} where
  map-append : (v : D → V) (xs ys : List D) → map v (xs ++ ys) ≡ map v xs ++ map v ys
  map-append v [] ys = refl
  map-append v (x ∷ xs) ys = ap (◌∷◌ (v x)) (map-append v xs ys)

  length-map : (v : D → V) (xs : List D) → length (map v xs) ≡ length xs
  length-map v [] = refl
  length-map v (x ∷ xs) = ap suc (length-map v xs)

  flatten-map : (v : D → V) (bs : List (List D)) → flatten (map (map v) bs) ≡ map v (flatten bs)
  unfolding flatten
  flatten-map v [] = refl
  flatten-map v (b ∷ bs) =
      ap (λ r. map v b ++ r) (flatten-map v bs) ∙ sym (map-append v b (flatten bs))

  embed_all-map :
      (v : D → V) (embed_batch : List D → Option (List V)) (bs : List (List D))
      → ((b : List D) → embed_batch b ≡ some (map v b))
      → embed_all embed_batch bs ≡ some (map (map v) bs)
  unfolding embed_all
  embed_all-map v embed_batch [] pointwise = refl
  embed_all-map v embed_batch (b ∷ bs) pointwise =
      ap (λ o. both o (embed_all embed_batch bs)) (pointwise b)
      ∙ ap (both (some (map v b))) (embed_all-map v embed_batch bs pointwise)

  joined-map :
      (v : D → V) (bs : List (List D)) (n : ℕ)
      → length (flatten bs) ≡ n
      → joined (map (map v) bs) n ≡ ok (map v (flatten bs))
  unfolding joined
  joined-map v bs n count =
      if-true (eqb (length (flatten (map (map v) bs))) n) _ _
        (ground (arith, flatten-map v bs, length-map v (flatten bs), ap length (flatten-map v bs)))
      ∙ ap ok (flatten-map v bs)

-- If the model gives each block the vectors of its documents, one for each and in their order, then
-- for any positive batch limit and any positive width `embed_documents` returns the vectors of all
-- the documents in their order, however they were cut into blocks.
pub embed_documents-map :
    {D V : Type 0} (v : D → V) (embed_batch : List D → Option (List V))
    (batch_limit max_concurrency : ℕ) (documents : List D)
    → ((block : List D) → embed_batch block ≡ some (map v block))
    → 0 < batch_limit
    → 0 < max_concurrency
    → embed_documents embed_batch batch_limit max_concurrency documents ≡ ok (map v documents)
unfolding embed_documents plan flatten
embed_documents-map {D} {V} v embed_batch batch_limit max_concurrency documents pointwise some_limit
      wide =
    let bs = blocks (length documents) batch_limit documents in
    let whole = flatten-blocks (length documents) batch_limit documents some_limit (omega arith) in
    ap (embed_blocks embed_batch (length documents)) (
      if-false (eqb max_concurrency 0) _ _ (ground arith)
      ∙ if-false (eqb batch_limit 0) _ _ (ground arith))
    ∙ joins bs whole
  where
    joins :
        (bs : List (List D))
        → flatten bs ≡ documents
        → embed_blocks embed_batch (length documents) (ok bs) ≡ ok (map v documents)
    joins [] whole = ap (λ ds. ok (map v ds)) whole
    joins (b ∷ bs) whole =
        ap (join_results (length documents)) (embed_all-map v embed_batch (b ∷ bs) pointwise)
        ∙ joined-map v (b ∷ bs) (length documents) (ap length whole)
        ∙ ap (λ ds. ok (map v ds)) whole
