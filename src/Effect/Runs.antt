-- ===== src/Effect/Runs.antt =====
-- What a successful run of a chain says of its parts: to show something of the run's end, show it
-- of the last part's end, from the returns of the parts before.
use comet_rag.Prelude.{◌⊎◌, inl, inr, ap, [], ◌≡◌, ◌≢◌, refl}
use comet_rag.Effect.{
  World, Result, ok, err, M, proceed, pure, raise, lift, pause, atomic, attempt, ◌>>=◌, ◌>>◌,
}

module _ {S E A B : Type 0} (P : Result E B × World S → Type 0) {b : B} where
  proceed_inv :
      (f : A → M S E B) (g : E → M S E B) (r : Result E A) (v : World S)
      → ((e : E) → (g e v).0 ≢ ok b)
      → (proceed f g r v).0 ≡ ok b
      → ((a : A) → r ≡ ok a → (f a v).0 ≡ ok b → P (f a v))
      → P (proceed f g r v)
  proceed_inv f g (ok a) v n h k = k a refl h
  proceed_inv f g (err e) v n h k = absurd (n e h)

  pub bind_inv :
      (m : M S E A) (f : A → M S E B) (w : World S)
      → ((m >>= f) w).0 ≡ ok b
      → ((a : A) → (m w).0 ≡ ok a → (f a (m w).1).0 ≡ ok b → P (f a (m w).1))
      → P ((m >>= f) w)
  unfolding ◌>>=◌ raise
  bind_inv m f w h k = proceed_inv f raise (m w).0 (m w).1 (λ e x. cc) h k

  -- Where the handler never returns, a return is the body's.
  pub attempt_inv :
      (m : M S E A) (f : A → M S E B) (g : E → M S E B) (w : World S)
      → ((e : E) → (g e (m w).1).0 ≢ ok b)
      → (attempt m f g w).0 ≡ ok b
      → ((a : A) → (m w).0 ≡ ok a → (f a (m w).1).0 ≡ ok b → P (f a (m w).1))
      → P (attempt m f g w)
  unfolding attempt
  attempt_inv m f g w n h k = proceed_inv f g (m w).0 (m w).1 n h k

  pub lift_inv :
      (r : Result E A) (f : A → M S E B) (w : World S)
      → ((lift r >>= f) w).0 ≡ ok b
      → ((a : A) → r ≡ ok a → (f a w).0 ≡ ok b → P (f a w))
      → P ((lift r >>= f) w)
  unfolding ◌>>=◌ raise lift
  lift_inv r f w h k = proceed_inv f raise r w (λ e x. cc) h k

-- Runs that nobody interrupts.
abbrev pub quiet : {S : Type 0} → S → World S
quiet d = record { db = d; others = [] }

module _ {S E A B : Type 0} where
  pub bind_returns :
      (m : M S E A) (f : A → M S E B) (w v : World S) (a : A)
      → m w ≡ (ok a, v)
      → (m >>= f) w ≡ f a v
  unfolding ◌>>=◌
  bind_returns m f w v a e = ap (λ r. proceed f raise r.0 r.1) e

  pub bind_raises :
      (m : M S E A) (f : A → M S E B) (w v : World S) (x : E)
      → m w ≡ (err x, v)
      → (m >>= f) w ≡ (err x, v)
  unfolding ◌>>=◌ raise
  bind_raises m f w v x e = ap (λ r. proceed f raise r.0 r.1) e

  pub attempt_returns :
      (m : M S E A) (f : A → M S E B) (g : E → M S E B) (w v : World S) (a : A)
      → m w ≡ (ok a, v)
      → attempt m f g w ≡ f a v
  unfolding attempt
  attempt_returns m f g w v a e = ap (λ r. proceed f g r.0 r.1) e

  pub attempt_raises :
      (m : M S E A) (f : A → M S E B) (g : E → M S E B) (w v : World S) (x : E)
      → m w ≡ (err x, v)
      → attempt m f g w ≡ g x v
  unfolding attempt
  attempt_raises m f g w v x e = ap (λ r. proceed f g r.0 r.1) e

module _ {S E A : Type 0} where
  pub lift_lem : (r : Result E A) (w : World S) → lift r w ≡ (r, w)
  unfolding lift
  lift_lem r w = refl

  pub pure_lem : (a : A) (w : World S) → pure {E = E} a w ≡ (ok a, w)
  unfolding pure
  pure_lem a w = refl

  pub raise_lem : (e : E) (w : World S) → raise {A = A} e w ≡ (err e, w)
  unfolding raise
  raise_lem e w = refl

  pub atomic-quiet :
      (f : S → Result E A × S) (d : S) → (pause >> atomic f) (quiet d) ≡ ((f d).0, quiet (f d).1)
  unfolding pause atomic ◌>>=◌
  atomic-quiet f d = refl

module _ {S E A B : Type 0} where
  -- A return comes from the body or from the handler.
  pub attempt_cases :
      (m : M S E A) (f : A → M S E B) (g : E → M S E B) (w : World S) (b : B)
      → (attempt m f g w).0 ≡ ok b
      → ((a : A) × ((m w).0 ≡ ok a) × ((f a (m w).1).0 ≡ ok b))
        ⊎ ((e : E) × ((m w).0 ≡ err e) × ((g e (m w).1).0 ≡ ok b))
  unfolding attempt
  attempt_cases m f g w b h = split (m w).0 (m w).1 h
    where
      split :
          (r : Result E A) (v : World S)
          → (proceed f g r v).0 ≡ ok b
          → ((a : A) × (r ≡ ok a) × ((f a v).0 ≡ ok b))
            ⊎ ((e : E) × (r ≡ err e) × ((g e v).0 ≡ ok b))
      split (ok a) v h = inl (a, refl, h)
      split (err e) v h = inr (e, refl, h)
