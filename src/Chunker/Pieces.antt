-- ===== src/Chunker/Pieces.antt =====
-- `_split_text_with_separator` loses nothing when it keeps the separators.
use comet_rag.Prelude.{
  ℕ, ◌≡◌, refl, ap, sym, ◌∙◌, Bool, true, false, ◌&&◌, List, [], ◌∷◌, ◌++◌, map, if◌then◌else◌,
  append_assoc, append-nil, if-false, neither,
}
use comet_rag.Chunker.Strings.{Text, starts, occurs, cut, prepend, split, join, concat, join-split}
use comet_rag.Chunker.{
  Splitter, prefixed, suffixed, extend_last, add_part, split_text_with_separator,
}

pub concat-append : (xs ys : List Text) → concat (xs ++ ys) ≡ concat xs ++ concat ys
concat-append [] ys = refl
concat-append (x ∷ xs) ys =
    ap (λ r. x ++ r) (concat-append xs ys) ∙ sym (append_assoc x (concat xs) (concat ys))

concat-singles : (text : Text) → concat (map (λ c. c ∷ []) text) ≡ text
concat-singles [] = refl
concat-singles (c ∷ text) = ap (◌∷◌ c) (concat-singles text)

-- The separator before each part but the first.
rest_joined : Text → List Text → Text
rest_joined sep [] = []
rest_joined sep (p ∷ ps) = sep ++ (p ++ rest_joined sep ps)

join-rest : (sep p : Text) (ps : List Text) → join sep (p ∷ ps) ≡ p ++ rest_joined sep ps
unfolding join rest_joined
join-rest sep p [] = sym (append-nil p)
join-rest sep p (q ∷ ps) =
    append_assoc p sep (join sep (q ∷ ps)) ∙ ap (λ r. p ++ (sep ++ r)) (join-rest sep q ps)

concat-map : (sep : Text) (ps : List Text) → concat (map (λ p. sep ++ p) ps) ≡ rest_joined sep ps
unfolding rest_joined
concat-map sep [] = refl
concat-map sep (p ∷ ps) =
    append_assoc sep p (concat (map (λ p. sep ++ p) ps))
    ∙ ap (λ r. sep ++ (p ++ r)) (concat-map sep ps)

concat-prefixed : (sep : Text) (parts : List Text) → concat (prefixed sep parts) ≡ join sep parts
unfolding prefixed join
concat-prefixed sep [] = refl
concat-prefixed sep ([] ∷ parts) = concat-map sep parts ∙ sym (join-rest sep [] parts)
concat-prefixed sep ((c ∷ p) ∷ parts) =
    ap (λ r. (c ∷ p) ++ r) (concat-map sep parts) ∙ sym (join-rest sep (c ∷ p) parts)

concat-extend_last :
    (sep s : Text) (splits : List Text)
    → concat (extend_last sep (s ∷ splits)) ≡ concat (s ∷ splits) ++ sep
unfolding extend_last
concat-extend_last sep s [] = append-nil (s ++ sep) ∙ ap (λ r. r ++ sep) (sym (append-nil s))
concat-extend_last sep s (t ∷ splits) =
    ap (λ r. s ++ r) (concat-extend_last sep t splits)
    ∙ sym (append_assoc s (concat (t ∷ splits)) sep)

concat-add_part :
    (sep part : Text) (splits : List Text)
    → concat (add_part sep part splits) ≡ concat splits ++ (part ++ sep)
concat-add_part sep (c ∷ p) splits =
    concat-append splits (((c ∷ p) ++ sep) ∷ [])
    ∙ ap (λ r. concat splits ++ r) (append-nil ((c ∷ p) ++ sep))
concat-add_part sep [] (s ∷ splits) = concat-extend_last sep s splits
concat-add_part sep [] [] = append-nil sep

concat-suffixed :
    (sep : Text) (splits parts : List Text)
    → concat (suffixed sep splits parts) ≡ concat splits ++ join sep parts
unfolding suffixed join
concat-suffixed sep splits [] = sym (append-nil (concat splits))
concat-suffixed sep splits ([] ∷ []) = sym (append-nil (concat splits))
concat-suffixed sep splits ((c ∷ p) ∷ []) =
    concat-append splits ((c ∷ p) ∷ []) ∙ ap (λ r. concat splits ++ r) (append-nil (c ∷ p))
concat-suffixed sep splits (p ∷ q ∷ parts) =
    concat-suffixed sep (add_part sep p splits) (q ∷ parts)
    ∙ ap (λ r. r ++ join sep (q ∷ parts)) (concat-add_part sep p splits)
    ∙ append_assoc (concat splits) (p ++ sep) (join sep (q ∷ parts))

concat-prepend : (c : ℕ) (parts : List Text) → concat (prepend c parts) ≡ c ∷ concat parts
concat-prepend c [] = refl
concat-prepend c (p ∷ ps) = refl

concat-cut : (sep text : Text) → occurs sep text ≡ false → concat (cut sep 0 text) ≡ text
unfolding occurs cut
concat-cut sep [] h = refl
concat-cut sep (c ∷ text) h =
    let (no_start, no_rest) = neither (starts sep (c ∷ text)) (occurs sep text) h in
    ap concat (if-false (starts sep (c ∷ text)) _ _ no_start)
    ∙ concat-prepend c (cut sep 0 text)
    ∙ ap (◌∷◌ c) (concat-cut sep text no_rest)

choose :
    (kept found at_start : Bool) (x y z : List Text) (t : Text)
    → kept ≡ true
    → (found ≡ true → (concat x ≡ t) × (concat y ≡ t))
    → (found ≡ false → concat z ≡ t)
    → concat (if kept && found then if at_start then x else y else z) ≡ t
choose true true true x y z t h f g = (f refl).0
choose true true false x y z t h f g = (f refl).1
choose true false a x y z t h f g = g refl
choose false found a x y z t h f g = absurd cc

-- With `keep_separator`, the splits that `_split_text_with_separator` makes of a text, for any
-- separator and in either mode, are the text again when they are put one after the other.
pub concat-split_text_with_separator :
    (s : Splitter) (text separator : Text)
    → s.keep_separator ≡ true
    → concat (split_text_with_separator s text separator) ≡ text
unfolding split_text_with_separator split
concat-split_text_with_separator s text [] kept = concat-singles text
concat-split_text_with_separator s text (c ∷ sep) kept =
    let parts = split (c ∷ sep) text in
    choose s.keep_separator (occurs (c ∷ sep) text) s.keep_separator_at_start _ _ _ text kept
      (λ _. (
        concat-prefixed (c ∷ sep) parts ∙ join-split c sep text,
        concat-suffixed (c ∷ sep) [] parts ∙ join-split c sep text,
      ))
      (λ missing. concat-cut (c ∷ sep) text missing)
