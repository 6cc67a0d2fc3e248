-- ===== src/Chunker/Slices.antt =====
-- The pieces of a fixed size that `_split_by_characters` cuts.
use comet_rag.Prelude.{
  ℕ, zero, suc, ◌≤◌, ◌<◌, ◌≡◌, refl, ap, ◌∙◌, List, [], ◌∷◌, ◌++◌, arith, length, take, drop,
  length-take, length-drop, take-append-drop, All,
}
use comet_rag.Chunker.Strings.{Text, concat}
use comet_rag.Chunker.{Splitter, slices, split_by_characters}

-- Each piece has at most so many characters.
abbrev pub Fits : ℕ → List Text → Type 0
Fits size pieces = All (λ piece. length piece ≤ size) pieces

slices-Fits : (fuel size : ℕ) (text : Text) → Fits size (slices fuel size text)
unfolding slices
slices-Fits zero size text = tt
slices-Fits (suc fuel) size [] = tt
slices-Fits (suc fuel) size (c ∷ text) =
    (omega (arith, length-take size (c ∷ text)), slices-Fits fuel size (drop size (c ∷ text)))

concat-slices :
    (fuel size : ℕ) (text : Text)
    → 0 < size
    → length text ≤ fuel
    → concat (slices fuel size text) ≡ text
unfolding slices
concat-slices zero size [] some_size enough = refl
concat-slices zero size (c ∷ text) some_size enough = absurd (omega arith)
concat-slices (suc fuel) size [] some_size enough = refl
concat-slices (suc fuel) size (c ∷ text) some_size enough =
    ap (λ r. take size (c ∷ text) ++ r)
      (concat-slices fuel size (drop size (c ∷ text)) some_size
        (omega (arith, length-drop size (c ∷ text))))
    ∙ take-append-drop size (c ∷ text)

pub split_by_characters-Fits :
    (s : Splitter) (text : Text) → Fits s.chunk_size (split_by_characters s text)
unfolding split_by_characters
split_by_characters-Fits s text = slices-Fits (length text) s.chunk_size text

pub concat-split_by_characters :
    (s : Splitter) (text : Text) → 0 < s.chunk_size → concat (split_by_characters s text) ≡ text
unfolding split_by_characters
concat-split_by_characters s text some_size =
    concat-slices (length text) s.chunk_size text some_size (omega arith)
