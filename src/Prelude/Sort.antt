-- ===== src/Prelude/Sort.antt =====
-- Python's `sorted`: a stable sort by a test `before x y`, "the key of x is less than that of y".
-- The result has the same elements and is in order, if the test is that of a total order on keys.
use native.Mathlib.Omega.{arith}
use Prim.Native.Nat.{suc}
use mathlib.Core.Path.{◌≡◌, refl, ap, ◌∙◌}
use mathlib.Core.Bool.{Bool, true, false}
use mathlib.Core.List.{List, [], ◌∷◌, Perm}
use mathlib.Core.List.Perm
use comet_rag.Prelude.Tests.{if◌then◌else◌, if-elim}
use comet_rag.Prelude.Lists.{All, length}

module _ {ℓ} {A : Type ℓ} (before : A → A → Bool) where
  unfoldable pub put_in : A → List A → List A
  put_in x [] = x ∷ []
  put_in x (y ∷ ys) = let rest = put_in x ys in if before y x then y ∷ rest else x ∷ y ∷ ys

  unfoldable pub sort : List A → List A
  unfolding put_in
  sort [] = []
  sort (x ∷ xs) = put_in x (sort xs)

  -- No element comes before one that stands ahead of it.
  abbrev pub IsSorted : List A → Type 0
  IsSorted [] = Unit
  IsSorted (x ∷ xs) = All (λ y. before y x ≡ false) xs × IsSorted xs

  pub record IsTotal : Type ℓ where
    pub asym : (x y : A) → before x y ≡ true → before y x ≡ false
    pub trans : (x y z : A) → before y x ≡ false → before z y ≡ false → before z x ≡ false

  pub put_in-perm : (x : A) (ys : List A) → Perm (put_in x ys) (x ∷ ys)
  unfolding put_in
  put_in-perm x [] = Perm.refl (x ∷ [])
  put_in-perm x (y ∷ ys) =
      if-elim (λ l. Perm l (x ∷ y ∷ ys)) (before y x) (y ∷ put_in x ys) (x ∷ y ∷ ys)
        (λ e. Perm.trans (Perm.cons y (put_in-perm x ys)) (Perm.swap x y ys))
        (λ e. Perm.refl (x ∷ y ∷ ys))

  pub sort-perm : (xs : List A) → Perm (sort xs) xs
  unfolding sort
  sort-perm [] = Perm.refl []
  sort-perm (x ∷ xs) = Perm.trans (put_in-perm x (sort xs)) (Perm.cons x (sort-perm xs))

  pub All-put_in {κ} : (P : A → Type κ) (x : A) (ys : List A) → P x → All P ys → All P (put_in x ys)
  unfolding put_in
  All-put_in P x [] p ps = (p, tt)
  All-put_in P x (y ∷ ys) p ps =
      if-elim (All P) (before y x) (y ∷ put_in x ys) (x ∷ y ∷ ys)
        (λ e. (ps.0, All-put_in P x ys p ps.1)) (λ e. (p, ps))

  pub All-sort {κ} : (P : A → Type κ) (xs : List A) → All P xs → All P (sort xs)
  unfolding sort
  All-sort P [] ps = tt
  All-sort P (x ∷ xs) ps = All-put_in P x (sort xs) ps.0 (All-sort P xs ps.1)

  module _ (total : IsTotal) where
    after-All :
        (x y : A) (ys : List A)
        → before y x ≡ false
        → All (λ z. before z y ≡ false) ys
        → All (λ z. before z x ≡ false) ys
    after-All x y [] h a = tt
    after-All x y (z ∷ zs) h a = (total.trans x y z h a.0, after-All x y zs h a.1)

    put_in-IsSorted : (x : A) (ys : List A) → IsSorted ys → IsSorted (put_in x ys)
    unfolding put_in
    put_in-IsSorted x [] s = (tt, tt)
    put_in-IsSorted x (y ∷ ys) s =
        if-elim IsSorted (before y x) (y ∷ put_in x ys) (x ∷ y ∷ ys)
          (λ e. (
            All-put_in (λ z. before z y ≡ false) x ys (total.asym y x e) s.0,
            put_in-IsSorted x ys s.1,
          ))
          (λ e. ((e, after-All x y ys e s.0), s))

    pub sort-IsSorted : (xs : List A) → IsSorted (sort xs)
    unfolding sort
    sort-IsSorted [] = tt
    sort-IsSorted (x ∷ xs) = put_in-IsSorted x (sort xs) (sort-IsSorted xs)

  pub length-put_in : (x : A) (ys : List A) → length (put_in x ys) ≡ suc (length ys)
  unfolding put_in
  length-put_in x [] = refl
  length-put_in x (y ∷ ys) = ground (arith, length-put_in x ys)

  pub length-sort : (xs : List A) → length (sort xs) ≡ length xs
  unfolding sort
  length-sort [] = refl
  length-sort (x ∷ xs) = length-put_in x (sort xs) ∙ ap suc (length-sort xs)
