-- ===== src/Chunker/Bound.antt =====
-- No chunk is longer than the size asked for.
use comet_rag.Prelude.{
  ℕ, ◌+◌, ◌≤◌, ◌≡◌, inl, inr, refl, ap, Bool, true, false, not, ◌&&◌, ◌||◌, List, [], ◌∷◌, ◌++◌,
  arith, ltb, leb, if◌then◌else◌, if-elim, length, All-append,
}
use comet_rag.Chunker.Strings.{Text, join, occurs}
use comet_rag.Chunker.Slices.{Fits, split_by_characters-Fits}
use comet_rag.Chunker.Merge.{IsMeasured, HasRoom, push-IsMeasured, shrink-Measured}
use comet_rag.Chunker.{
  Splitter, is_empty, cost, Window, shrink, emit, len_to_add, push, merge_from, merge_splits, flush,
  collect, split_level, split_text_from, split_text, last_of,
}

emit-Fits :
    (n : ℕ) (doc : Text) (docs : List Text) → length doc ≤ n → Fits n docs → Fits n (emit doc docs)
emit-Fits n doc docs le fits =
    if-elim (Fits n) (is_empty doc) _ _ (λ _. fits)
      (λ _. All-append (λ piece. length piece ≤ n) docs (doc ∷ []) fits (le, tt))

module _ (s : Splitter) (sep : Text) (same : (if s.keep_separator then [] else sep) ≡ sep) where
  glued : cost s sep ≡ length sep
  glued = costs s.keep_separator same
    where
      costs :
          (k : Bool) → (if k then [] else sep) ≡ sep → (if k then 0 else length sep) ≡ length sep
      costs true e = ap length e
      costs false e = refl

  emptied :
      (split : Text) (current : List Text) (total : ℕ)
      → total ≡ length (join sep current)
      → current ≡ []
      → length split ≤ s.chunk_size
      → total + length split + (if is_empty current then 0 else cost s sep) ≤ s.chunk_size
  unfolding join
  emptied split [] total h e small = omega arith
  emptied split (d ∷ rest) total h e small = absurd cc

  push-room :
      (split : Text) (n : ℕ) (w : Window)
      → IsMeasured s sep glued w
      → HasRoom s sep glued n w
      → n ≡ length split + cost s sep
      → length split ≤ s.chunk_size
      → (push s sep split w).total ≤ s.chunk_size
  unfolding join
  push-room split n w h (inl nothing) e small = emptied split w.current_doc w.total h nothing small
  push-room split n w h (inr (room, _)) e small = room_for (is_empty w.current_doc)
    where
      room_for : (b : Bool) → w.total + length split + (if b then 0 else cost s sep) ≤ s.chunk_size
      room_for true = omega arith
      room_for false = omega arith

  push-fits :
      (split : Text) (w : Window)
      → IsMeasured s sep glued w
      → ltb s.chunk_size (w.total + len_to_add s sep w.current_doc split)
          && not (is_empty w.current_doc)
        ≡ false
      → length split ≤ s.chunk_size
      → (push s sep split w).total ≤ s.chunk_size
  unfolding join
  push-fits split w h b small = free w.current_doc w.total h b
    where
      free :
          (current : List Text) (total : ℕ)
          → total ≡ length (join sep current)
          → ltb s.chunk_size (total + len_to_add s sep current split) && not (is_empty current)
            ≡ false
          → total + length split + (if is_empty current then 0 else cost s sep) ≤ s.chunk_size
      free [] total h e = omega arith
      free (d ∷ rest) total h e = ground arith

  merge_from-Fits :
      (splits : List Text) (w : Window) (docs : List Text)
      → IsMeasured s sep glued w
      → w.total ≤ s.chunk_size
      → Fits s.chunk_size splits
      → Fits s.chunk_size docs
      → Fits s.chunk_size (merge_from s sep splits w docs)
  unfolding merge_from
  merge_from-Fits [] w docs h le small fits =
      emit-Fits s.chunk_size _ docs (omega (arith, ap (λ t. length (join t w.current_doc)) same))
        fits
  merge_from-Fits (split ∷ splits) w docs h le (first, small) fits =
      let n = len_to_add s sep w.current_doc split in
      let w' = shrink s sep n w.current_doc w.total in
      let (m, room) = shrink-Measured s sep glued n w.current_doc w.total h in
      if-elim (Fits s.chunk_size) (ltb s.chunk_size (w.total + n) && not (is_empty w.current_doc)) _
        _
        (λ full.
          merge_from-Fits splits (push s sep split w') (emit (join sep w.current_doc) docs)
            (push-IsMeasured s sep glued split w' m)
            (push-room split n w' m room (exact w.current_doc full) first) small
            (emit-Fits s.chunk_size _ docs (omega (arith, h)) fits))
        (λ free.
          merge_from-Fits splits (push s sep split w) docs (push-IsMeasured s sep glued split w h)
            (push-fits split w h free first) small fits)
    where
      exact :
          (current : List Text)
          → ltb s.chunk_size (w.total + len_to_add s sep current split) && not (is_empty current)
            ≡ true
          → len_to_add s sep current split ≡ length split + cost s sep
      exact [] e = absurd (ground arith)
      exact (d ∷ rest) e = refl

merge_splits-Fits :
    (s : Splitter) (sep : Text) (splits : List Text)
    → (if s.keep_separator then [] else sep) ≡ sep
    → Fits s.chunk_size splits
    → Fits s.chunk_size (merge_splits s splits sep)
unfolding merge_splits join
merge_splits-Fits s sep splits same small =
    merge_from-Fits s sep same splits (record { current_doc = []; total = 0 }) [] refl (omega arith)
      small tt

module _ (s : Splitter) (sep : Text) (same : (if s.keep_separator then [] else sep) ≡ sep) where
  flush-Fits :
      (good final : List Text)
      → Fits s.chunk_size good
      → Fits s.chunk_size final
      → Fits s.chunk_size (flush s sep good final)
  flush-Fits good final small fits =
      if-elim (Fits s.chunk_size) (is_empty good) _ _ (λ _. fits)
        (λ _.
          All-append (λ piece. length piece ≤ s.chunk_size) final _ fits
            (merge_splits-Fits s sep good same small))

  collect-Fits :
      (deeper : Text → List Text) (splits good final : List Text)
      → ((t : Text) → Fits s.chunk_size (deeper t))
      → Fits s.chunk_size good
      → Fits s.chunk_size final
      → Fits s.chunk_size (collect s sep deeper splits good final)
  unfolding collect
  collect-Fits deeper [] good final deep small fits = flush-Fits good final small fits
  collect-Fits deeper (split ∷ splits) good final deep small fits =
      if-elim (Fits s.chunk_size) (leb (length split) s.chunk_size) _ _
        (λ short.
          collect-Fits deeper splits (good ++ split ∷ []) final deep
            (All-append (λ piece. length piece ≤ s.chunk_size) good (split ∷ []) small
              (ground arith, tt))
            fits)
        (λ _. collect-Fits deeper splits [] _ deep tt (
          All-append (λ piece. length piece ≤ s.chunk_size) (flush s sep good final) (deeper split)
            (flush-Fits good final small fits) (deep split)))

glue_same :
    (k : Bool) (sep : Text) → (if k then [] else (if k then [] else sep)) ≡ (if k then [] else sep)
glue_same true sep = refl
glue_same false sep = refl

split_level-Fits :
    (s : Splitter) (sep : Text) (deeper : Text → List Text) (text : Text)
    → ((t : Text) → Fits s.chunk_size (deeper t))
    → Fits s.chunk_size (split_level s sep deeper text)
unfolding split_level
split_level-Fits s sep deeper text deep =
    collect-Fits s (if s.keep_separator then [] else sep) (glue_same s.keep_separator sep) deeper _
      [] [] deep tt tt

split_text_from-Fits :
    (s : Splitter) (fallback : Text) (separators : List Text) (text : Text)
    → Fits s.chunk_size (split_text_from s fallback separators text)
unfolding split_text_from
split_text_from-Fits s fallback [] text =
    split_level-Fits s fallback _ text (split_by_characters-Fits s)
split_text_from-Fits s fallback (sep ∷ []) text =
    if-elim (Fits s.chunk_size) (is_empty sep || occurs sep text) _ _
      (λ _. split_level-Fits s sep _ text (split_by_characters-Fits s))
      (λ _. split_level-Fits s fallback _ text (split_by_characters-Fits s))
split_text_from-Fits s fallback (sep ∷ next ∷ rest) text =
    if-elim (Fits s.chunk_size) (is_empty sep) _ _
      (λ _. split_level-Fits s sep _ text (split_by_characters-Fits s))
      (λ _.
        if-elim (Fits s.chunk_size) (occurs sep text) _ _
          (λ _.
            split_level-Fits s sep _ text
              (split_text_from-Fits s (last_of next rest) (next ∷ rest)))
          (λ _. split_text_from-Fits s fallback (next ∷ rest) text))

-- No chunk that `split_text` makes of any text is longer than `chunk_size`, whatever the
-- separators, the overlap and the way of keeping separators are.
pub split_text-Fits : (s : Splitter) (text : Text) → Fits s.chunk_size (split_text s text)
unfolding split_text
split_text-Fits s text = split_text_from-Fits s _ s.separators text
