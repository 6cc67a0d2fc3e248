-- ===== src/Chunker.antt =====
-- The recursive splitter of comet_rag/engines/chunkers/base_chunker.py. A size is a number of code
-- points; the lengths that `_merge_splits` subtracts from its total are in that total.
pub mod Strings
pub mod Pieces
pub mod Slices
pub mod Merge
pub mod Bound
pub mod Whole
use comet_rag.Prelude.{
  ℕ, zero, suc, ◌+◌, ◌-◌, Bool, true, false, ◌&&◌, ◌||◌, not, Option, none, some, List, [], ◌∷◌,
  ◌++◌, map, ltb, leb, eqb, if◌then◌else◌, length, take, drop,
}
use comet_rag.Chunker.Strings.{Text, occurs, split, join}

pub record Splitter : Type 0 where
  pub chunk_size : ℕ
  pub chunk_overlap : ℕ
  pub separators : List Text
  pub keep_separator : Bool
  pub keep_separator_at_start : Bool

abbrev pub is_empty : {A : Type 0} → List A → Bool
is_empty [] = true
is_empty (x ∷ xs) = false

-- "\n\n", "\n", " ", ""
abbrev default_separators : List Text
default_separators = (10 ∷ 10 ∷ []) ∷ (10 ∷ []) ∷ (32 ∷ []) ∷ [] ∷ []

abbrev or_default : Option (List Text) → List Text
or_default none = default_separators
or_default (some separators) = separators

abbrev no_separators : Option (List Text) → Bool
no_separators none = false
no_separators (some separators) = is_empty separators

-- `__init__`; none for a `ValueError`
unfoldable pub new_splitter : ℕ → ℕ → Option (List Text) → Bool → Bool → Option Splitter
new_splitter chunk_size chunk_overlap separators keep_separator keep_separator_at_start =
    if eqb chunk_size 0 || leb chunk_size chunk_overlap || no_separators separators
    then none
    else some (record {
      chunk_size = chunk_size;
      chunk_overlap = chunk_overlap;
      separators = or_default separators;
      keep_separator = keep_separator;
      keep_separator_at_start = keep_separator_at_start;
    })

-- The separator in front of each part but the first.
unfoldable pub prefixed : Text → List Text → List Text
prefixed separator [] = []
prefixed separator (part ∷ parts) = if is_empty part then rest else part ∷ rest
  where
    rest : List Text
    rest = map (λ p. separator ++ p) parts

-- `splits[-1] += separator`
unfoldable pub extend_last : Text → List Text → List Text
extend_last separator [] = []
extend_last separator (s ∷ []) = (s ++ separator) ∷ []
extend_last separator (s ∷ t ∷ splits) = s ∷ extend_last separator (t ∷ splits)

abbrev pub add_part : Text → Text → List Text → List Text
add_part separator part splits =
    if not (is_empty part)
    then splits ++ (part ++ separator) ∷ []
    else if not (is_empty splits)
    then extend_last separator splits
    else separator ∷ []

-- The separator at the end of each part but the last.
unfoldable pub suffixed : Text → List Text → List Text → List Text
unfolding extend_last
suffixed separator splits [] = splits
suffixed separator splits (part ∷ []) = if is_empty part then splits else splits ++ part ∷ []
suffixed separator splits (part ∷ next ∷ parts) =
    suffixed separator (add_part separator part splits) (next ∷ parts)

-- `_split_text_with_separator`
unfoldable pub split_text_with_separator : Splitter → Text → Text → List Text
unfolding prefixed suffixed occurs split
split_text_with_separator s text separator =
    if is_empty separator
    then map (λ c. c ∷ []) text
    else if s.keep_separator && occurs separator text
    then if s.keep_separator_at_start
      then prefixed separator (split separator text)
      else suffixed separator [] (split separator text)
    else split separator text

-- `_split_by_characters`: at most one step for each character
unfoldable pub slices : ℕ → ℕ → Text → List Text
slices zero size text = []
slices (suc fuel) size text =
    let rest = slices fuel size (drop size text) in
    if is_empty text then [] else take size text ∷ rest

unfoldable pub split_by_characters : Splitter → Text → List Text
unfolding slices
split_by_characters s text = slices (length text) s.chunk_size text

-- What a separator costs between two splits of a window.
abbrev pub cost : Splitter → Text → ℕ
cost s separator = if s.keep_separator then 0 else length separator

pub record Window : Type 0 where
  pub current_doc : List Text
  pub total : ℕ

-- The inner loop of `_merge_splits`: splits leave on the left until a split of this length fits and
-- the rest is no longer than the overlap.
unfoldable pub shrink : Splitter → Text → ℕ → List Text → ℕ → Window
shrink s separator len_to_add [] total = record { current_doc = []; total = 0 }
shrink s separator len_to_add (removed ∷ rest) total =
    let smaller =
      shrink s separator len_to_add rest
        (total - length removed - (if is_empty rest then 0 else cost s separator)) in
    if ltb s.chunk_overlap total || ltb s.chunk_size (total + len_to_add)
    then smaller
    else record { current_doc = removed ∷ rest; total = total }

abbrev pub emit : Text → List Text → List Text
emit doc docs = if is_empty doc then docs else docs ++ doc ∷ []

abbrev pub len_to_add : Splitter → Text → List Text → Text → ℕ
len_to_add s separator current_doc split =
    length split + (if is_empty current_doc then 0 else cost s separator)

abbrev pub push : Splitter → Text → Text → Window → Window
push s separator split w = record {
  current_doc = w.current_doc ++ split ∷ [];
  total = w.total + length split + (if is_empty w.current_doc then 0 else cost s separator);
}

-- The loop of `_merge_splits`, and what follows it
unfoldable pub merge_from : Splitter → Text → List Text → Window → List Text → List Text
unfolding shrink join
merge_from s separator [] w docs =
    emit (join (if s.keep_separator then [] else separator) w.current_doc) docs
merge_from s separator (split ∷ splits) w docs =
    let n = len_to_add s separator w.current_doc split in
    let full =
      merge_from s separator splits
        (push s separator split (shrink s separator n w.current_doc w.total))
        (emit (join separator w.current_doc) docs) in
    let fits = merge_from s separator splits (push s separator split w) docs in
    if ltb s.chunk_size (w.total + n) && not (is_empty w.current_doc) then full else fits

-- `_merge_splits`
unfoldable pub merge_splits : Splitter → List Text → Text → List Text
unfolding merge_from
merge_splits s splits separator =
    merge_from s separator splits (record { current_doc = []; total = 0 }) []

abbrev pub flush : Splitter → Text → List Text → List Text → List Text
flush s merge_sep good_splits final_chunks =
    if is_empty good_splits
    then final_chunks
    else final_chunks ++ merge_splits s good_splits merge_sep

-- The loop of `_split_text` over the splits of one level; `deeper` splits one that is too large.
unfoldable pub collect :
    Splitter → Text → (Text → List Text) → List Text → List Text → List Text → List Text
unfolding merge_splits
collect s merge_sep deeper [] good_splits final_chunks = flush s merge_sep good_splits final_chunks
collect s merge_sep deeper (split ∷ splits) good_splits final_chunks =
    let small = collect s merge_sep deeper splits (good_splits ++ split ∷ []) final_chunks in
    let large =
      collect s merge_sep deeper splits []
        (flush s merge_sep good_splits final_chunks ++ deeper split) in
    if leb (length split) s.chunk_size then small else large

unfoldable pub split_level : Splitter → Text → (Text → List Text) → Text → List Text
unfolding split_text_with_separator collect
split_level s separator deeper text =
    collect s (if s.keep_separator then [] else separator) deeper
      (split_text_with_separator s text separator) [] []

abbrev pub last_of : Text → List Text → Text
last_of t [] = t
last_of t (u ∷ rest) = last_of u rest

-- `_split_text`, from the first separator that may still be in the text; `fallback` is the last of
-- all.
unfoldable pub split_text_from : Splitter → Text → List Text → Text → List Text
unfolding split_level split_by_characters occurs
split_text_from s fallback [] text = split_level s fallback (split_by_characters s) text
split_text_from s fallback (sep ∷ []) text =
    if is_empty sep || occurs sep text
    then split_level s sep (split_by_characters s) text
    else split_level s fallback (split_by_characters s) text
split_text_from s fallback (sep ∷ next ∷ rest) text =
    if is_empty sep
    then split_level s sep (split_by_characters s) text
    else if occurs sep text
    then split_level s sep (split_text_from s (last_of next rest) (next ∷ rest)) text
    else split_text_from s fallback (next ∷ rest) text

-- `split_text`
unfoldable pub split_text : Splitter → Text → List Text
unfolding split_text_from
split_text s text = split_text_from s (last_of [] s.separators) s.separators text

-- `BaseChunker.chunk`: Python's `str.isspace` of a character is a parameter.
unfoldable pub chunk : (ℕ → Bool) → Splitter → Text → List Text
unfolding split_text
chunk is_space s text = if all_space text then [] else split_text s text
  where
    all_space : Text → Bool
    all_space [] = true
    all_space (c ∷ cs) = let rest = all_space cs in is_space c && rest
