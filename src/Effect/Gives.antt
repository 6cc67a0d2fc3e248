-- ===== src/Effect/Gives.antt =====
-- What a coroutine that returns has brought about, while the others keep a relation: a postcondition
-- on the result and the state, with the step that the relation allows.
use comet_rag.Prelude.{◌≡◌, refl, subst}
use comet_rag.Effect.{
  World, Result, ok, err, M, proceed, pure, raise, lift, atomic, pause, attempt, ◌>>=◌, ◌>>◌, wake,
}
use comet_rag.Effect.Keeps.{Preorder, Friendly, Step, Keeps, Step-trans, Keeps-pause}

module _ {S : Type 0} {R : S → S → Type 0} (p : Preorder R) where
  pub record Gives {E A : Type 0} (w : World S) (o : Result E A × World S) (Q : A → S → Type 0)
      : Type 0 where
    pub step : Step p w o.1
    pub post : (a : A) → o.0 ≡ ok a → Q a o.1.db

  module _ {E B : Type 0} {P : B → S → Type 0} where
    further : (w v : World S) (o : Result E B × World S) → Step p w v → Gives v o P → Gives w o P
    further w v o s g = record { step = Step-trans p s g.step; post = g.post }

  module _ {E A B : Type 0} {P : B → S → Type 0} where
    proceed_Gives :
        (f : A → M S E B) (g : E → M S E B) (w : World S) (r : Result E A) (v : World S)
        → Step p w v
        → ((a : A) → r ≡ ok a → Gives v (f a v) P)
        → ((e : E) → r ≡ err e → Gives v (g e v) P)
        → Gives w (proceed f g r v) P
    proceed_Gives f g w (ok a) v s kf kg = further w v (f a v) s (kf a refl)
    proceed_Gives f g w (err e) v s kf kg = further w v (g e v) s (kg e refl)

    pub attempt_Gives :
        {Q : A → S → Type 0} (m : M S E A) (f : A → M S E B) (g : E → M S E B) (w : World S)
        → Gives w (m w) Q
        → ((a : A) → Friendly p (m w).1.others → Q a (m w).1.db → Gives (m w).1 (f a (m w).1) P)
        → ((e : E) → Step p w (m w).1 → Gives (m w).1 (g e (m w).1) P)
        → Gives w (attempt m f g w) P
    unfolding attempt
    attempt_Gives m f g w h kf kg =
        proceed_Gives f g w (m w).0 (m w).1 h.step (λ a e. kf a h.step.friendly (h.post a e))
          (λ e x. kg e h.step)

    pub bind_Gives :
        {Q : A → S → Type 0} (m : M S E A) (f : A → M S E B) (w : World S)
        → Gives w (m w) Q
        → ((a : A) → Friendly p (m w).1.others → Q a (m w).1.db → Gives (m w).1 (f a (m w).1) P)
        → Gives w ((m >>= f) w) P
    unfolding ◌>>=◌ raise
    bind_Gives m f w h kf =
        proceed_Gives f raise w (m w).0 (m w).1 h.step (λ a e. kf a h.step.friendly (h.post a e))
          (λ e x. record {
            step = record { moved = p.same (m w).1.db; friendly = h.step.friendly };
            post = λ b t. absurd (cc);
          })

  module _ {E A : Type 0} where
    pub pure_Gives :
        (Q : A → S → Type 0) (a : A) (w : World S)
        → Friendly p w.others
        → Q a w.db
        → Gives {E = E} w (pure a w) Q
    unfolding pure
    pure_Gives Q a w h q = record {
      step = record { moved = p.same w.db; friendly = h };
      post = λ b e.
          subst (λ (r : Result E A). elim r as (λ _. Type 0) [ ok x ↦ Q x w.db | err x ↦ Unit ]) e
            q;
    }

    pub raise_Gives :
        (Q : A → S → Type 0) (e : E) (w : World S) → Friendly p w.others → Gives w (raise e w) Q
    unfolding raise
    raise_Gives Q e w h = record {
      step = record { moved = p.same w.db; friendly = h };
      post = λ b t. absurd (cc);
    }

    pub lift_Gives :
        (Q : A → S → Type 0) (r : Result E A) (w : World S)
        → Friendly p w.others
        → ((a : A) → r ≡ ok a → Q a w.db)
        → Gives w (lift r w) Q
    unfolding lift
    lift_Gives Q r w h q = record { step = record { moved = p.same w.db; friendly = h }; post = q }

    -- A coroutine that keeps the relation carries along what the relation carries along.
    pub carried_Gives :
        (Q : S → Type 0) (m : M S E A) (w : World S)
        → Keeps p m
        → Friendly p w.others
        → ((d : S) → R w.db d → Q d)
        → Gives w (m w) (λ a. Q)
    carried_Gives Q m w k h q =
        let s = k.run w h in record { step = s; post = λ a e. q (m w).1.db s.moved }

    -- A critical section behind its lock.
    pub locked_Gives :
        (Q : A → S → Type 0) (f : S → Result E A × S) (w : World S)
        → Friendly p w.others
        → ((d : S) → R w.db d → R d (f d).1 × ((a : A) → (f d).0 ≡ ok a → Q a (f d).1))
        → Gives w ((pause >> atomic f) w) Q
    unfolding ◌>>=◌ pause atomic
    locked_Gives Q f w h k =
        let s = (Keeps-pause p {E = E}).run w h in
        let t = k (wake w.others w.db).db s.moved in
        record {
          step = record { moved = p.trans w.db _ _ s.moved t.0; friendly = s.friendly };
          post = t.1;
        }

  -- A weaker postcondition, with what the relation carries along.
  module _ {E A : Type 0} {Q P : A → S → Type 0} where
    pub weaken_Gives :
        (w : World S) (o : Result E A × World S)
        → Gives w o Q
        → ((a : A) → R w.db o.1.db → Q a o.1.db → P a o.1.db)
        → Gives w o P
    weaken_Gives w o g k = record { step = g.step; post = λ a e. k a g.step.moved (g.post a e) }
