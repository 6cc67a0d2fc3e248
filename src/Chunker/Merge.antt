-- ===== src/Chunker/Merge.antt =====
-- `_merge_splits`: what it merges fits, and with no overlap nothing is lost or doubled.
use comet_rag.Prelude.{
  ℕ, ◌+◌, ◌-◌, ◌≤◌, ◌≡◌, ◌⊎◌, inl, inr, refl, Bool, true, false, ◌||◌, List, [], ◌∷◌, ◌++◌, arith,
  ltb, if◌then◌else◌, if-elim, length, length-append,
}
use comet_rag.Chunker.Strings.{Text, join}
use comet_rag.Chunker.{Splitter, is_empty, cost, Window, shrink, push}

length-both : (d sep x : Text) → length (d ++ sep ++ x) ≡ length d + length sep + length x
length-both d sep x = omega (arith, length-append (d ++ sep) x, length-append d sep)

length-join-push :
    (sep split : Text) (current : List Text)
    → length (join sep (current ++ split ∷ []))
      ≡ length (join sep current) + length split + (if is_empty current then 0 else length sep)
unfolding join
length-join-push sep split [] = omega arith
length-join-push sep split (d ∷ []) = omega (arith, length-both d sep split)
length-join-push sep split (d ∷ e ∷ rest) = omega (
  arith,
  length-both d sep (join sep (e ∷ (rest ++ split ∷ []))),
  length-both d sep (join sep (e ∷ rest)),
  length-join-push sep split (e ∷ rest),
)

length-join-pop :
    (sep d : Text) (rest : List Text)
    → length (join sep (d ∷ rest)) - length d - (if is_empty rest then 0 else length sep)
      ≡ length (join sep rest)
unfolding join
length-join-pop sep d [] = omega arith
length-join-pop sep d (e ∷ rest) = omega (arith, length-both d sep (join sep (e ∷ rest)))

module _ (s : Splitter) (sep : Text) (glued : cost s sep ≡ length sep) where
  -- The total of a window is its length when it is joined.
  abbrev pub IsMeasured : Window → Type 0
  IsMeasured w = w.total ≡ length (join sep w.current_doc)

  -- Nothing is left, or what is left is no longer than the overlap and a split of this length fits.
  abbrev pub HasRoom : ℕ → Window → Type 0
  HasRoom n w = (w.current_doc ≡ []) ⊎ ((w.total + n ≤ s.chunk_size) × (w.total ≤ s.chunk_overlap))

  pub push-IsMeasured : (split : Text) (w : Window) → IsMeasured w → IsMeasured (push s sep split w)
  push-IsMeasured split w h = h' (is_empty w.current_doc) (length-join-push sep split w.current_doc)
    where
      h' :
          (b : Bool)
          → length (join sep (w.current_doc ++ split ∷ []))
            ≡ length (join sep w.current_doc) + length split + (if b then 0 else length sep)
          → w.total + length split + (if b then 0 else cost s sep)
            ≡ length (join sep (w.current_doc ++ split ∷ []))
      h' true e = omega arith
      h' false e = omega arith

  pub shrink-Measured :
      (n : ℕ) (current : List Text) (total : ℕ)
      → total ≡ length (join sep current)
      → IsMeasured (shrink s sep n current total)
        × (((shrink s sep n current total).current_doc ≡ [])
            ⊎ (((shrink s sep n current total).total + n ≤ s.chunk_size)
                × ((shrink s sep n current total).total ≤ s.chunk_overlap)))
  unfolding shrink join
  shrink-Measured n [] total h = (refl, inl refl)
  shrink-Measured n (d ∷ rest) total h =
      if-elim (λ w. IsMeasured w × HasRoom n w)
        (ltb s.chunk_overlap total || ltb s.chunk_size (total + n)) _ _
        (λ _. shrink-Measured n rest _ (smaller (is_empty rest) (length-join-pop sep d rest)))
        (λ stop. (h, inr (stays stop)))
    where
      smaller :
          (b : Bool)
          → length (join sep (d ∷ rest)) - length d - (if b then 0 else length sep)
            ≡ length (join sep rest)
          → total - length d - (if b then 0 else cost s sep) ≡ length (join sep rest)
      smaller true e = omega arith
      smaller false e = omega arith

      stays :
          ltb s.chunk_overlap total || ltb s.chunk_size (total + n) ≡ false
          → (total + n ≤ s.chunk_size) × (total ≤ s.chunk_overlap)
      stays e = ground arith
