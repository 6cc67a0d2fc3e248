-- ===== src/Dict/Keys.antt =====
-- A `dict` has each key once: every operation keeps that, and then each entry is the one under its
-- key.
use comet_rag.Prelude.{
  String, ◌≡◌, refl, none, some, [], ◌∷◌, arith, ◌==◌, eq_iff, if-elim, All, length, suc, sym,
  subst, ap, Bool-cases, inl, inr,
}
use comet_rag.Dict.{Dict, lookup, insert, erase, lookup-insert, lookup-erase}

module _ {ℓ} {V : Type ℓ} where
  abbrev pub IsDistinct : Dict V → Type ℓ
  IsDistinct [] = Unit
  IsDistinct ((k, v) ∷ d) = (lookup k d ≡ none) × IsDistinct d

  pub insert-IsDistinct :
      (k : String) (v : V) (d : Dict V) → IsDistinct d → IsDistinct (insert k v d)
  unfolding lookup insert
  insert-IsDistinct k v [] h = (refl, tt)
  insert-IsDistinct k v ((j, w) ∷ d) h =
      if-elim IsDistinct (j == k) ((j, v) ∷ d) ((j, w) ∷ insert k v d) (λ e. h)
        (λ e. (
          ground (arith, eq_iff j k, eq_iff k j, lookup-insert k j v d),
          insert-IsDistinct k v d h.1,
        ))

  pub erase-IsDistinct : (k : String) (d : Dict V) → IsDistinct d → IsDistinct (erase k d)
  unfolding lookup erase
  erase-IsDistinct k [] h = tt
  erase-IsDistinct k ((j, w) ∷ d) h =
      if-elim IsDistinct (j == k) (erase k d) ((j, w) ∷ erase k d) (λ e. erase-IsDistinct k d h.1)
        (λ e. (ground (arith, lookup-erase k j d), erase-IsDistinct k d h.1))

  held_below :
      (k : String) (v : V) (d es : Dict V)
      → lookup k d ≡ none
      → All (λ e. lookup e.0 d ≡ some e.1) es
      → All (λ e. lookup e.0 ((k, v) ∷ d) ≡ some e.1) es
  unfolding lookup
  held_below k v d [] h a = tt
  held_below k v d ((j, w) ∷ es) h a =
      (ground (arith, eq_iff k j, h, a.0), held_below k v d es h a.1)

  pub lookup-entry : (d : Dict V) → IsDistinct d → All (λ e. lookup e.0 d ≡ some e.1) d
  unfolding lookup
  lookup-entry [] h = tt
  lookup-entry ((k, v) ∷ d) h =
      (ground (arith, eq_iff k k), held_below k v d d h.0 (lookup-entry d h.1))

module _ {ℓ κ} {V : Type ℓ} (P : String × V → Type κ) where
  pub All-insert : (k : String) (v : V) (d : Dict V) → P (k, v) → All P d → All P (insert k v d)
  unfolding insert
  All-insert k v [] p ps = (p, tt)
  All-insert k v ((j, w) ∷ d) p ps =
      if-elim (All P) (j == k) ((j, v) ∷ d) ((j, w) ∷ insert k v d)
        (λ e. (subst (λ i. P (i, v)) (sym ((eq_iff j k).0 e)) p, ps.1))
        (λ e. (ps.0, All-insert k v d p ps.1))

  pub All-erase : (k : String) (d : Dict V) → All P d → All P (erase k d)
  unfolding erase
  All-erase k [] ps = tt
  All-erase k ((j, w) ∷ d) ps =
      if-elim (All P) (j == k) (erase k d) ((j, w) ∷ erase k d) (λ e. All-erase k d ps.1)
        (λ e. (ps.0, All-erase k d ps.1))

  pub All-lookup : (k : String) (v : V) (d : Dict V) → lookup k d ≡ some v → All P d → P (k, v)
  unfolding lookup
  All-lookup k v [] e ps = absurd (cc)
  All-lookup k v ((j, w) ∷ d) e ps = elim (Bool-cases (j == k)) [
    | inl t ↦
        let same : w ≡ v = ground (arith, t, e) in
        subst (λ i. P (i, v)) ((eq_iff j k).0 t) (subst (λ u. P (j, u)) same ps.0)
    | inr f ↦ All-lookup k v d (ground (arith, f, e)) ps.1
  ]

module _ {ℓ} {V : Type ℓ} where
  pub erase_absent : (k : String) (d : Dict V) → lookup k d ≡ none → erase k d ≡ d
  unfolding lookup erase
  erase_absent k [] h = refl
  erase_absent k ((j, w) ∷ d) h = ground (arith, h, erase_absent k d)

  pub length-erase :
      (k : String) (d : Dict V) (v : V)
      → IsDistinct d
      → lookup k d ≡ some v
      → length d ≡ suc (length (erase k d))
  unfolding lookup erase
  length-erase k [] v h e = absurd (cc)
  length-erase k ((j, w) ∷ d) v h e = elim (Bool-cases (j == k)) [
    | inl t ↦
        let absent : lookup k d ≡ none = subst (λ i. lookup i d ≡ none) ((eq_iff j k).0 t) h.0 in
        let same = ap length (erase_absent k d absent) in ground (arith, t, same)
    | inr f ↦ ground (arith, f, e, length-erase k d v h.1)
  ]
