-- ===== src/Chunker/Whole.antt =====
-- With separators kept and no overlap, the chunks are the text again.
use comet_rag.Prelude.{
  ℕ, ◌+◌, ◌<◌, ◌≡◌, inl, inr, refl, ap, sym, ◌∙◌, Bool, true, false, not, ◌&&◌, ◌||◌, List, [], ◌∷◌,
  ◌++◌, arith, ltb, leb, if◌then◌else◌, if-elim, length, append_assoc, append-nil,
}
use comet_rag.Chunker.Strings.{Text, join, occurs, concat}
use comet_rag.Chunker.Slices.{concat-split_by_characters}
use comet_rag.Chunker.Pieces.{concat-append, concat-split_text_with_separator}
use comet_rag.Chunker.Merge.{IsMeasured, HasRoom, push-IsMeasured, shrink-Measured}
use comet_rag.Chunker.{
  Splitter, is_empty, cost, Window, shrink, emit, len_to_add, push, merge_from, merge_splits, flush,
  split_text_with_separator, collect, split_level, split_by_characters, split_text_from, split_text,
  last_of,
}

join-concat : (xs : List Text) → join [] xs ≡ concat xs
unfolding join
join-concat [] = refl
join-concat (x ∷ []) = sym (append-nil x)
join-concat (x ∷ y ∷ xs) =
    append_assoc x [] (join [] (y ∷ xs)) ∙ ap (λ r. x ++ r) (join-concat (y ∷ xs))

length-zero : (x : Text) → length x ≡ 0 → x ≡ []
length-zero [] h = refl
length-zero (c ∷ x) h = absurd (omega arith)

concat-snoc : (xs : List Text) (x : Text) → concat (xs ++ x ∷ []) ≡ concat xs ++ x
concat-snoc xs x = concat-append xs (x ∷ []) ∙ ap (λ r. concat xs ++ r) (append-nil x)

concat-emit : (doc : Text) (docs : List Text) → concat (emit doc docs) ≡ concat docs ++ doc
concat-emit [] docs = sym (append-nil (concat docs))
concat-emit (c ∷ doc) docs = concat-snoc docs (c ∷ doc)

module _ (s : Splitter) (kept : s.keep_separator ≡ true) (no_overlap : s.chunk_overlap ≡ 0) where
  no_cost : cost s [] ≡ length {A = ℕ} []
  no_cost = costs s.keep_separator
    where
      costs : (k : Bool) → (if k then 0 else length {A = ℕ} []) ≡ length {A = ℕ} []
      costs true = refl
      costs false = refl

  room-concat :
      (n : ℕ) (w : Window)
      → IsMeasured s [] no_cost w
      → HasRoom s [] no_cost n w
      → concat w.current_doc ≡ []
  room-concat n w h (inl e) = ap concat e
  room-concat n w h (inr (_, le)) =
      sym (join-concat w.current_doc) ∙ length-zero (join [] w.current_doc) (omega arith)

  merge_from-concat :
      (splits : List Text) (w : Window) (docs : List Text)
      → IsMeasured s [] no_cost w
      → concat (merge_from s [] splits w docs)
        ≡ (concat docs ++ concat w.current_doc) ++ concat splits
  unfolding merge_from
  merge_from-concat [] w docs h =
      concat-emit (join (if s.keep_separator then [] else []) w.current_doc) docs
      ∙ ap (λ r. concat docs ++ r)
          (ap (λ k. join (if k then [] else []) w.current_doc) kept ∙ join-concat w.current_doc)
      ∙ sym (append-nil (concat docs ++ concat w.current_doc))
  merge_from-concat (split ∷ splits) w docs h =
      let n = len_to_add s [] w.current_doc split in
      let w' = shrink s [] n w.current_doc w.total in
      let (m, room) = shrink-Measured s [] no_cost n w.current_doc w.total h in
      let before = concat docs ++ concat w.current_doc in
      if-elim (λ chunks. concat chunks ≡ before ++ (split ++ concat splits))
        (ltb s.chunk_size (w.total + n) && not (is_empty w.current_doc)) _ _
        (λ _.
          merge_from-concat splits (push s [] split w') (emit (join [] w.current_doc) docs)
            (push-IsMeasured s [] no_cost split w' m)
          ∙ ap (λ r. (r ++ concat (w'.current_doc ++ split ∷ [])) ++ concat splits)
              (concat-emit (join [] w.current_doc) docs
                ∙ ap (λ r. concat docs ++ r) (join-concat w.current_doc))
          ∙ ap (λ r. (before ++ r) ++ concat splits)
              (concat-snoc w'.current_doc split ∙ ap (λ r. r ++ split) (room-concat n w' m room))
          ∙ append_assoc before split (concat splits))
        (λ _.
          merge_from-concat splits (push s [] split w) docs (push-IsMeasured s [] no_cost split w h)
          ∙ ap (λ r. (concat docs ++ r) ++ concat splits) (concat-snoc w.current_doc split)
          ∙ ap (λ r. r ++ concat splits)
              (sym (append_assoc (concat docs) (concat w.current_doc) split))
          ∙ append_assoc before split (concat splits))

  concat-merge_splits : (splits : List Text) → concat (merge_splits s splits []) ≡ concat splits
  unfolding merge_splits join
  concat-merge_splits splits =
      merge_from-concat splits (record { current_doc = []; total = 0 }) [] refl

  concat-flush :
      (good final : List Text) → concat (flush s [] good final) ≡ concat final ++ concat good
  concat-flush [] final = sym (append-nil (concat final))
  concat-flush (g ∷ good) final =
      concat-append final (merge_splits s (g ∷ good) [])
      ∙ ap (λ r. concat final ++ r) (concat-merge_splits (g ∷ good))

  abbrev Whole : (Text → List Text) → Type 0
  Whole f = (t : Text) → concat (f t) ≡ t

  concat-collect :
      (deeper : Text → List Text) (splits good final : List Text)
      → Whole deeper
      → concat (collect s [] deeper splits good final)
        ≡ (concat final ++ concat good) ++ concat splits
  unfolding collect
  concat-collect deeper [] good final deep =
      concat-flush good final ∙ sym (append-nil (concat final ++ concat good))
  concat-collect deeper (split ∷ splits) good final deep =
      let before = concat final ++ concat good in
      if-elim (λ chunks. concat chunks ≡ before ++ (split ++ concat splits))
        (leb (length split) s.chunk_size) _ _
        (λ _.
          concat-collect deeper splits (good ++ split ∷ []) final deep
          ∙ ap (λ r. (concat final ++ r) ++ concat splits) (concat-snoc good split)
          ∙ ap (λ r. r ++ concat splits) (sym (append_assoc (concat final) (concat good) split))
          ∙ append_assoc before split (concat splits))
        (λ _.
          concat-collect deeper splits [] (flush s [] good final ++ deeper split) deep
          ∙ ap (λ r. r ++ concat splits)
              (append-nil (concat (flush s [] good final ++ deeper split))
                ∙ concat-append (flush s [] good final) (deeper split)
                ∙ ap (λ r. r ++ concat (deeper split)) (concat-flush good final)
                ∙ ap (λ r. before ++ r) (deep split))
          ∙ append_assoc before split (concat splits))

  split_level-Whole :
      (sep : Text) (deeper : Text → List Text) → Whole deeper → Whole (split_level s sep deeper)
  unfolding split_level
  split_level-Whole sep deeper deep text =
      ap
        (λ (k : Bool).
          concat
            (collect s (if k then [] else sep) deeper (split_text_with_separator s text sep) [] []))
        kept
      ∙ concat-collect deeper (split_text_with_separator s text sep) [] [] deep
      ∙ concat-split_text_with_separator s text sep kept

  module _ (some_size : 0 < s.chunk_size) where
    by_characters : Whole (split_by_characters s)
    by_characters text = concat-split_by_characters s text some_size

    split_text_from-Whole :
        (fallback : Text) (separators : List Text) → Whole (split_text_from s fallback separators)
    unfolding split_text_from
    split_text_from-Whole fallback [] text = split_level-Whole fallback _ by_characters text
    split_text_from-Whole fallback (sep ∷ []) text =
        if-elim (λ chunks. concat chunks ≡ text) (is_empty sep || occurs sep text) _ _
          (λ _. split_level-Whole sep _ by_characters text)
          (λ _. split_level-Whole fallback _ by_characters text)
    split_text_from-Whole fallback (sep ∷ next ∷ rest) text =
        if-elim (λ chunks. concat chunks ≡ text) (is_empty sep) _ _
          (λ _. split_level-Whole sep _ by_characters text)
          (λ _.
            if-elim (λ chunks. concat chunks ≡ text) (occurs sep text) _ _
              (λ _.
                split_level-Whole sep _ (split_text_from-Whole (last_of next rest) (next ∷ rest))
                  text)
              (λ _. split_text_from-Whole fallback (next ∷ rest) text))

-- A splitter that keeps separators, has no overlap and a size above 0 loses and repeats nothing:
-- the chunks of any text, put one after the other, are that text, whatever its separators are and
-- wherever it puts them.
pub concat-split_text :
    (s : Splitter) (text : Text)
    → s.keep_separator ≡ true
    → s.chunk_overlap ≡ 0
    → 0 < s.chunk_size
    → concat (split_text s text) ≡ text
unfolding split_text
concat-split_text s text kept no_overlap some_size =
    split_text_from-Whole s kept no_overlap some_size _ s.separators text
