-- ===== src/Samples/Chunker.antt =====
-- Short texts over the letters 1, 2 and 3 with the separators 2 and 3: runs of
-- comet_rag/engines/chunkers/base_chunker.py.
use comet_rag.Prelude.{◌≡◌, refl, true, false, [], ◌∷◌, arith}
use comet_rag.Chunker.Strings.{Text, starts, occurs, cut, split, join, concat, join-split}
use comet_rag.Chunker.Slices.{Fits}
use comet_rag.Chunker.Bound.{split_text-Fits}
use comet_rag.Chunker.Whole.{concat-split_text}
use comet_rag.Chunker.{
  Splitter, prefixed, suffixed, extend_last, split_text_with_separator, slices, split_by_characters,
  shrink, merge_from, merge_splits, collect, split_level, split_text_from, split_text,
}

abbrev three : Splitter
three = record {
  chunk_size = 3;
  chunk_overlap = 0;
  separators = (2 ∷ []) ∷ (3 ∷ []) ∷ [];
  keep_separator = true;
  keep_separator_at_start = false;
}

abbrev line : Text
line = 1 ∷ 2 ∷ 1 ∷ 1 ∷ 1 ∷ 3 ∷ 1 ∷ 2 ∷ 1 ∷ []

line_split :
    split_text three line
    ≡ (1 ∷ 2 ∷ []) ∷ (1 ∷ 1 ∷ 1 ∷ []) ∷ (3 ∷ []) ∷ (1 ∷ 2 ∷ []) ∷ (1 ∷ []) ∷ []
unfolding split_text split_text_from split_level collect merge_splits merge_from shrink
    split_by_characters slices split_text_with_separator suffixed prefixed extend_last split cut
    starts occurs join
line_split = refl

split_text-Fits_example : Fits 3 (split_text three line)
split_text-Fits_example = split_text-Fits three line

concat-split_text_example : concat (split_text three line) ≡ line
concat-split_text_example = concat-split_text three line refl refl (omega arith)

join-split_example : join (2 ∷ []) (split (2 ∷ []) line) ≡ line
join-split_example = join-split 2 [] line
