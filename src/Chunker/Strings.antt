-- ===== src/Chunker/Strings.antt =====
-- Python's `str` as the list of its code points, with `in`, `split` and `join` for a separator that
-- is not empty, as comet_rag/engines/chunkers/base_chunker.py uses them.
use comet_rag.Prelude.{
  ℕ, zero, suc, ◌-◌, ◌≡◌, refl, ap, ◌∙◌, Bool, true, false, ◌&&◌, List, [], ◌∷◌, ◌++◌, arith, eqb,
  if◌then◌else◌, length, drop, Bool-cases, inl, inr, if-true, if-false,
}

abbrev pub Text : Type 0
Text = List ℕ

unfoldable pub starts : Text → Text → Bool
starts [] text = true
starts (s ∷ sep) [] = false
starts (s ∷ sep) (c ∷ text) = let rest = starts sep text in eqb s c && rest

-- `separator in text`
unfoldable pub occurs : Text → Text → Bool
unfolding starts
occurs sep [] = starts sep []
occurs sep (c ∷ text) = let rest = occurs sep text in if starts sep (c ∷ text) then true else rest

abbrev pub prepend : ℕ → List Text → List Text
prepend c [] = (c ∷ []) ∷ []
prepend c (part ∷ parts) = (c ∷ part) ∷ parts

-- The parts from the leftmost occurrences on; so many characters ahead belong to a separator that
-- was found.
unfoldable pub cut : Text → ℕ → Text → List Text
unfolding starts
cut sep k [] = [] ∷ []
cut sep (suc k) (c ∷ text) = cut sep k text
cut sep zero (c ∷ text) =
    let found = cut sep (length sep - 1) text in
    let rest = cut sep 0 text in if starts sep (c ∷ text) then [] ∷ found else prepend c rest

-- `text.split(separator)`
unfoldable pub split : Text → Text → List Text
unfolding cut
split sep text = cut sep 0 text

-- `separator.join(parts)`
unfoldable pub join : Text → List Text → Text
join sep [] = []
join sep (part ∷ []) = part
join sep (part ∷ next ∷ parts) = part ++ sep ++ join sep (next ∷ parts)

abbrev pub concat : List Text → Text
concat [] = []
concat (part ∷ parts) = part ++ concat parts

starts-drop : (sep text : Text) → starts sep text ≡ true → sep ++ drop (length sep) text ≡ text
unfolding starts
starts-drop [] text h = refl
starts-drop (s ∷ sep) [] h = cc
starts-drop (s ∷ sep) (c ∷ text) h = ground (arith, starts-drop sep text)

join-prepend :
    (sep : Text) (c : ℕ) (parts : List Text) → join sep (prepend c parts) ≡ c ∷ join sep parts
unfolding join
join-prepend sep c [] = refl
join-prepend sep c (p ∷ []) = refl
join-prepend sep c (p ∷ q ∷ ps) = refl

HasPart : List Text → Type 0
HasPart [] = ⊥
HasPart (part ∷ parts) = Unit

cut-HasPart : (sep : Text) (k : ℕ) (text : Text) → HasPart (cut sep k text)
unfolding HasPart cut
cut-HasPart sep k [] = tt
cut-HasPart sep (suc k) (c ∷ text) = cut-HasPart sep k text
cut-HasPart sep zero (c ∷ text) =
    elim (starts sep (c ∷ text))
      as (λ b.
        HasPart (if b then [] ∷ cut sep (length sep - 1) text else prepend c (cut sep 0 text))) [
          | true ↦ tt
          | false ↦ prepend-HasPart c (cut sep 0 text)
        ]
  where
    prepend-HasPart : (c : ℕ) (parts : List Text) → HasPart (prepend c parts)
    prepend-HasPart c [] = tt
    prepend-HasPart c (part ∷ parts) = tt

join-empty :
    (sep : Text) (parts : List Text) → HasPart parts → join sep ([] ∷ parts) ≡ sep ++ join sep parts
unfolding HasPart join
join-empty sep [] h = absurd h
join-empty sep (part ∷ parts) h = refl

join-cut :
    (s : ℕ) (sep : Text) (k : ℕ) (text : Text) → join (s ∷ sep) (cut (s ∷ sep) k text) ≡ drop k text
unfolding cut join
join-cut s sep zero [] = refl
join-cut s sep (suc k) [] = refl
join-cut s sep (suc k) (c ∷ text) = join-cut s sep k text
join-cut s sep zero (c ∷ text) = elim (Bool-cases (starts (s ∷ sep) (c ∷ text))) [
  | inl here ↦
      ap (join (s ∷ sep)) (if-true (starts (s ∷ sep) (c ∷ text)) _ _ here)
      ∙ join-empty (s ∷ sep) (cut (s ∷ sep) (suc (length sep) - 1) text)
          (cut-HasPart (s ∷ sep) (suc (length sep) - 1) text)
      ∙ ap (λ rest. (s ∷ sep) ++ rest) (join-cut s sep (suc (length sep) - 1) text ∙ drop_one)
      ∙ starts-drop (s ∷ sep) (c ∷ text) here
  | inr on ↦
      ap (join (s ∷ sep)) (if-false (starts (s ∷ sep) (c ∷ text)) _ _ on)
      ∙ join-prepend (s ∷ sep) c (cut (s ∷ sep) 0 text)
      ∙ ap (◌∷◌ c) (join-cut s sep 0 text)
]
  where
    drop_one : drop (suc (length sep) - 1) text ≡ drop (length sep) text
    drop_one = ap (λ n. drop n text) (omega arith)

-- Joining the parts of a text by the separator it was split at gives the text.
pub join-split : (s : ℕ) (sep text : Text) → join (s ∷ sep) (split (s ∷ sep) text) ≡ text
unfolding split
join-split s sep text = join-cut s sep 0 text
