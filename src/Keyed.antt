-- ===== src/Keyed.antt =====
-- Lists whose elements carry a key. A stable sort finds the same element under a key as before, if
-- no two elements share one.
use comet_rag.Prelude.{
  String, ◌≡◌, refl, ◌∙◌, ap, Bool, Option, none, some, List, [], ◌∷◌, arith, ◌==◌, eq_iff,
  if◌then◌else◌, put_in, sort, if-elim,
}

module _ {A : Type 0} (key : A → String) where
  unfoldable pub find_key : String → List A → Option A
  find_key k [] = none
  find_key k (x ∷ xs) = let rest = find_key k xs in if key x == k then some x else rest

  abbrev pub IsDistinctBy : List A → Type 0
  IsDistinctBy [] = Unit
  IsDistinctBy (x ∷ xs) = (find_key (key x) xs ≡ none) × IsDistinctBy xs

  module _ (before : A → A → Bool) where
    pub find_key-put_in :
        (k : String) (x : A) (ys : List A)
        → find_key (key x) ys ≡ none
        → find_key k (put_in before x ys) ≡ find_key k (x ∷ ys)
    unfolding find_key put_in
    find_key-put_in k x [] h = refl
    find_key-put_in k x (y ∷ ys) h =
        ground (
          arith,
          eq_iff (key x) k,
          eq_iff (key y) k,
          eq_iff (key y) (key x),
          find_key-put_in k x ys,
        )

    put_in-IsDistinctBy :
        (x : A) (ys : List A)
        → find_key (key x) ys ≡ none
        → IsDistinctBy ys
        → IsDistinctBy (put_in before x ys)
    unfolding find_key put_in
    put_in-IsDistinctBy x [] h d = (refl, tt)
    put_in-IsDistinctBy x (y ∷ ys) h d =
        if-elim IsDistinctBy (before y x) (y ∷ put_in before x ys) (x ∷ y ∷ ys)
          (λ e. (
            ground (
              arith,
              eq_iff (key y) (key x),
              eq_iff (key x) (key y),
              find_key-put_in (key y) x ys,
              d.0,
            ),
            put_in-IsDistinctBy x ys (ground (arith, h)) d.1,
          ))
          (λ e. (h, d))

    pub find_key-sort :
        (k : String) (xs : List A) → IsDistinctBy xs → find_key k (sort before xs) ≡ find_key k xs
    unfolding find_key sort
    find_key-sort k [] d = refl
    find_key-sort k (x ∷ xs) d =
        find_key-put_in k x (sort before xs) (find_key-sort (key x) xs d.1 ∙ d.0)
        ∙ ap (λ o. if key x == k then some x else o) (find_key-sort k xs d.1)

    pub sort-IsDistinctBy : (xs : List A) → IsDistinctBy xs → IsDistinctBy (sort before xs)
    unfolding sort
    sort-IsDistinctBy [] d = tt
    sort-IsDistinctBy (x ∷ xs) d =
        put_in-IsDistinctBy x (sort before xs) (find_key-sort (key x) xs d.1 ∙ d.0)
          (sort-IsDistinctBy xs d.1)
