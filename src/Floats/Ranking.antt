-- ===== src/Floats/Ranking.antt =====
-- `sort(key=lambda h: (-h.score, h.id))`: the comparison of two such keys, and what its order is.
use comet_rag.Prelude.{
  ◌≡◌, String, Bool, false, arith, if◌then◌else◌, text_lt, text_lt_asym, text_le_trans, IsTotal,
  List, [], ◌∷◌, All, All-map, IsSorted, sort, sort-IsSorted,
}
use comet_rag.Floats.{Floats, IsOrdered}

module _ {F : Type 0} (fl : Floats F) {A : Type 0} (score : A → F) (id : A → String) where
  -- `(-x.score, x.id) < (-y.score, y.id)`: the first items that differ decide
  unfoldable pub ranks_before : A → A → Bool
  ranks_before x y =
      if fl.same (fl.neg (score x)) (fl.neg (score y))
      then text_lt (id x) (id y)
      else fl.below (fl.neg (score x)) (fl.neg (score y))

  -- What a reader expects of a ranking: no score below a later one, and ids in order where scores
  -- tie.
  abbrev pub RanksWith : A → A → Type 0
  RanksWith x y =
      (fl.below (score x) (score y) ≡ false)
      × (fl.below (score y) (score x) ≡ false → text_lt (id y) (id x) ≡ false)

  abbrev pub IsRanked : List A → Type 0
  IsRanked [] = Unit
  IsRanked (x ∷ xs) = All (RanksWith x) xs × IsRanked xs

  module _ (o : IsOrdered fl) where
    pub ranks_before-RanksWith : (x y : A) → ranks_before y x ≡ false → RanksWith x y
    unfolding ranks_before
    ranks_before-RanksWith x y h =
        let a = score x in
        let b = score y in
        ground (
          arith,
          h,
          (o.same_iff (fl.neg b) (fl.neg a)).0,
          (o.same_iff (fl.neg b) (fl.neg a)).1,
          o.below_neg a b,
          o.below_neg b a,
          o.below_asym a b,
        )

    pub ranks_before-IsTotal : IsTotal ranks_before
    unfolding ranks_before
    ranks_before-IsTotal = record {
      asym = λ x y h. ground (
        arith,
        h,
        (o.same_iff (fl.neg (score x)) (fl.neg (score y))).0,
        (o.same_iff (fl.neg (score x)) (fl.neg (score y))).1,
        (o.same_iff (fl.neg (score y)) (fl.neg (score x))).0,
        (o.same_iff (fl.neg (score y)) (fl.neg (score x))).1,
        o.below_asym (fl.neg (score x)) (fl.neg (score y)),
        text_lt_asym (id x) (id y),
      );
      trans = λ x y z h k.
          let a = fl.neg (score x) in
          let b = fl.neg (score y) in
          let c = fl.neg (score z) in
          ground (
            arith,
            h,
            k,
            (o.same_iff b a).0,
            (o.same_iff b a).1,
            (o.same_iff c b).0,
            (o.same_iff c b).1,
            (o.same_iff c a).0,
            o.below_trans a b c,
            o.below_trans b c a,
            o.below_trans c a b,
            text_le_trans (id x) (id y) (id z),
          );
    }

    sorted-IsRanked : (xs : List A) → IsSorted ranks_before xs → IsRanked xs
    sorted-IsRanked [] s = tt
    sorted-IsRanked (x ∷ xs) s = (All-map (ranks_before-RanksWith x) xs s.0, sorted-IsRanked xs s.1)

    pub sort-IsRanked : (xs : List A) → IsRanked (sort ranks_before xs)
    sort-IsRanked xs =
        sorted-IsRanked (sort ranks_before xs) (sort-IsSorted ranks_before ranks_before-IsTotal xs)
