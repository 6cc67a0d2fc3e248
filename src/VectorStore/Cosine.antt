-- ===== src/VectorStore/Cosine.antt =====
-- `cosine_similarity` of comet_rag/infrastructure/persistence/vector_store/memory.py.
use comet_rag.Prelude.{Option, none, some, List, [], ◌∷◌, if◌then◌else◌}
use comet_rag.Floats.{Floats}

module _ {F : Type 0} (fl : Floats F) where
  -- The sums of `cosine_similarity`; none where `zip(…, strict=True)` finds two lengths
  abbrev pub sums : List F → List F → F → F → F → Option (F × F × F)
  sums [] [] dot na nb = some (dot, na, nb)
  sums [] (y ∷ ys) dot na nb = none
  sums (x ∷ xs) [] dot na nb = none
  sums (x ∷ xs) (y ∷ ys) dot na nb =
      sums xs ys (fl.add dot (fl.mul x y)) (fl.add na (fl.mul x x)) (fl.add nb (fl.mul y y))

  abbrev pub cosine_of : F × F × F → F
  cosine_of (dot, na, nb) =
      if fl.same na fl.zero
      then fl.zero
      else if fl.same nb fl.zero
      then fl.zero
      else fl.div dot (fl.mul (fl.sqrt na) (fl.sqrt nb))

  unfoldable pub cosine_similarity : List F → List F → Option F
  cosine_similarity a b = elim (sums a b fl.zero fl.zero fl.zero) [
    | none ↦ none
    | some s ↦ some (cosine_of s)
  ]
