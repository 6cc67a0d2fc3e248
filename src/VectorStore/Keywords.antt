-- ===== src/VectorStore/Keywords.antt =====
-- The keyword scores of comet_rag/infrastructure/persistence/vector_store/memory.py: `_tokenize` and
-- `_bm25_scores`. The order in which Python walks a set of terms is a parameter.
use Prim.Native.Char.{code}
use Prim.Native.String.{[] as end, ◌∷◌ as ◌then◌}
use comet_rag.Prelude.{
  ℕ, ◌+◌, ◌-◌, String, Bool, true, false, ◌&&◌, ◌||◌, Option, none, some, List, [], ◌∷◌, leb, eqb,
  if◌then◌else◌, length, keep, map,
}
use comet_rag.Floats.{Floats}
use comet_rag.VectorStore.{VectorRecord}

-- A term as its code points.
abbrev pub Term : Type 0
Term = List ℕ

unfoldable pub same_term : Term → Term → Bool
same_term [] [] = true
same_term [] (d ∷ ds) = false
same_term (c ∷ cs) [] = false
same_term (c ∷ cs) (d ∷ ds) = let rest = same_term cs ds in eqb c d && rest

-- `[A-Za-z0-9_]`
abbrev pub is_word : ℕ → Bool
is_word c = (leb 65 c && leb c 90) || (leb 97 c && leb c 122) || (leb 48 c && leb c 57) || eqb c 95

-- `[\u3400-\u4dbf\u4e00-\u9fff]`
abbrev pub is_han : ℕ → Bool
is_han c = (leb 13312 c && leb c 19903) || (leb 19968 c && leb c 40959)

-- `casefold` on these characters
abbrev pub fold : ℕ → ℕ
fold c = if leb 65 c && leb c 90 then c + 32 else c

abbrev pub flush : Term → List Term → List Term
flush [] terms = terms
flush (c ∷ cs) terms = (c ∷ cs) ∷ terms

abbrev pub grow : ℕ → Term × List Term → Term × List Term
grow c (word, terms) =
    if is_word c
    then (fold c ∷ word, terms)
    else ([], if is_han c then (c ∷ []) ∷ flush word terms else flush word terms)

-- The word that a text starts with, and the terms after it.
unfoldable pub scan : String → Term × List Term
scan end = ([], [])
scan (c then s) = grow (code c) (scan s)

-- `_tokenize`
unfoldable pub tokenize : String → List Term
unfolding scan
tokenize text = let (word, terms) = scan text in flush word terms

-- `Counter(tokens)[term]`
unfoldable pub frequency : Term → List Term → ℕ
unfolding same_term
frequency term tokens = length (keep (same_term term) tokens)

unfoldable pub total_length : List (List Term) → ℕ
total_length [] = 0
total_length (tokens ∷ rest) = length tokens + total_length rest

module _ {F : Type 0} (fl : Floats F) (as_set : List Term → List Term) where
  abbrev pub bm25_k1 : F
  bm25_k1 = fl.literal 12 1

  abbrev pub bm25_b : F
  bm25_b = fl.literal 75 2

  -- `average_length or 1`
  abbrev pub or_one : F → F
  or_one x = if fl.same x fl.zero then fl.one else x

  -- `document_frequency[term]`
  unfoldable pub document_frequency : Term → List (List Term) → ℕ
  unfolding frequency
  document_frequency term documents =
      length (keep (λ tokens. leb 1 (frequency term tokens)) documents)

  -- What a term that occurs adds to a document's score.
  unfoldable pub term_score : ℕ → ℕ → ℕ → ℕ → F → F
  term_score count df tf size average =
      let inverse_frequency = fl.log (
        fl.add fl.one (
          fl.div (fl.add (fl.of_nat (count - df)) (fl.literal 5 1))
            (fl.add (fl.of_nat df) (fl.literal 5 1)))) in
      let normalization = fl.add (fl.of_nat tf) (
        fl.mul bm25_k1 (
          fl.add (fl.sub fl.one bm25_b)
            (fl.div (fl.mul bm25_b (fl.of_nat size)) (or_one average)))) in
      fl.div (fl.mul (fl.mul inverse_frequency (fl.of_nat tf)) (fl.add bm25_k1 fl.one))
        normalization

  -- The loop over the terms of the query
  unfoldable pub document_score : List (List Term) → F → List Term → List Term → F → F
  unfolding frequency document_frequency term_score
  document_score documents average tokens [] score = score
  document_score documents average tokens (term ∷ terms) score =
      let tf = frequency term tokens in
      document_score documents average tokens terms (
        if eqb tf 0
        then score
        else fl.add score (
            term_score (length documents) (document_frequency term documents) tf (length tokens)
              average))

  module _ {J : Type 0} where
    abbrev pub scored : List (List Term) → F → List Term → VectorRecord F J → Option F
    scored documents average terms r =
        let score = document_score documents average (tokenize r.text) terms fl.zero in
        if fl.below fl.zero score then some score else none

    -- `_bm25_scores(records, query_terms).get(record.id)` for a record of the list, whose ids are
    -- distinct
    unfoldable pub bm25_score : List (VectorRecord F J) → List Term → VectorRecord F J → Option F
    unfolding tokenize total_length document_score
    bm25_score records [] r = none
    bm25_score records (term ∷ terms) r =
        let documents = map (λ (d : VectorRecord F J). tokenize d.text) records in
        let average = fl.div (fl.of_nat (total_length documents)) (fl.of_nat (length documents)) in
        scored documents average (as_set (term ∷ terms)) r
