-- ===== src/Effect/Keeps.antt =====
-- Rely and guarantee: a relation that each turn of the others keeps, and that a coroutine then
-- keeps from its start to its end, whether it returns or raises.
use comet_rag.Prelude.{◌≡◌, refl, Bool, true, false, List, [], ◌∷◌, All, if◌then◌else◌}
use comet_rag.Effect.{
  World, proceed, ◌>>◌, Result, ok, err, M, pure, raise, lift, gets, atomic, ◌>>=◌, attempt, wake,
  pause,
}

pub record Preorder {S : Type 0} (R : S → S → Type 0) : Type 0 where
  pub same : (d : S) → R d d
  pub trans : (d e f : S) → R d e → R e f → R d f

module _ {S : Type 0} {R : S → S → Type 0} (p : Preorder R) where
  abbrev pub Friendly : List (S → S) → Type 0
  Friendly = All (λ f. (d : S) → R d (f d))

  pub record Step (w v : World S) : Type 0 where
    pub moved : R w.db v.db
    pub friendly : Friendly v.others

  pub record Keeps {E A : Type 0} (m : M S E A) : Type 0 where
    pub run : (w : World S) → Friendly w.others → Step w (m w).1

  pub Step-trans : {w v u : World S} → Step w v → Step v u → Step w u
  Step-trans {w} {v} {u} s t = record {
    moved = p.trans w.db v.db u.db s.moved t.moved;
    friendly = t.friendly;
  }

  module _ {E A : Type 0} where
    pub Keeps-pure : (a : A) → Keeps {E = E} (pure a)
    unfolding pure
    Keeps-pure a = record { run = λ w h. record { moved = p.same w.db; friendly = h } }

    pub Keeps-raise : (e : E) → Keeps (raise {A = A} e)
    unfolding raise
    Keeps-raise e = record { run = λ w h. record { moved = p.same w.db; friendly = h } }

    pub Keeps-lift : (r : Result E A) → Keeps (lift r)
    unfolding lift
    Keeps-lift r = record { run = λ w h. record { moved = p.same w.db; friendly = h } }

    pub Keeps-gets : (f : S → A) → Keeps {E = E} (gets f)
    unfolding gets
    Keeps-gets f = record { run = λ w h. record { moved = p.same w.db; friendly = h } }

    pub Keeps-atomic : (f : S → Result E A × S) → ((d : S) → R d (f d).1) → Keeps (atomic f)
    unfolding atomic
    Keeps-atomic f k = record { run = λ w h. record { moved = k w.db; friendly = h } }

    pub Keeps-if : (b : Bool) (m n : M S E A) → Keeps m → Keeps n → Keeps (if b then m else n)
    Keeps-if true m n km kn = km
    Keeps-if false m n km kn = kn

  pause_step :
      (fs : List (S → S)) (d : S) → Friendly fs → R d (wake fs d).db × Friendly (wake fs d).others
  pause_step [] d h = (p.same d, tt)
  pause_step (f ∷ fs) d h = (h.0 d, h.1)

  pub Keeps-pause : {E : Type 0} → Keeps {E = E} pause
  unfolding pause
  Keeps-pause = record {
    run = λ w h. let s = pause_step w.others w.db h in record { moved = s.0; friendly = s.1 };
  }

  module _ {E A B : Type 0} where
    proceed_step :
        (f : A → M S E B) (g : E → M S E B) (w : World S) (r : Result E A) (v : World S)
        → Step w v
        → ((a : A) → Keeps (f a))
        → ((e : E) → Keeps (g e))
        → Step w (proceed f g r v).1
    proceed_step f g w (ok a) v s kf kg = Step-trans s ((kf a).run v s.friendly)
    proceed_step f g w (err e) v s kf kg = Step-trans s ((kg e).run v s.friendly)

    -- Rules at one world, for steps that need what was read there.
    pub attempt_step :
        (m : M S E A) (f : A → M S E B) (g : E → M S E B) (w : World S)
        → Step w (m w).1
        → ((a : A) → Keeps (f a))
        → ((e : E) → Keeps (g e))
        → Step w (attempt m f g w).1
    unfolding attempt
    attempt_step m f g w s kf kg = proceed_step f g w (m w).0 (m w).1 s kf kg

    pub bind_step :
        (m : M S E A) (f : A → M S E B) (w : World S)
        → Step w (m w).1
        → ((a : A) → Keeps (f a))
        → Step w ((m >>= f) w).1
    unfolding ◌>>=◌
    bind_step m f w s kf = proceed_step f raise w (m w).0 (m w).1 s kf Keeps-raise

    pub lift_step :
        (r : Result E A) (f : A → M S E B) (w : World S)
        → Friendly w.others
        → ((a : A) → r ≡ ok a → Step w (f a w).1)
        → Step w ((lift r >>= f) w).1
    unfolding ◌>>=◌ lift
    lift_step (ok a) f w h k = k a refl
    lift_step (err e) f w h k = record { moved = p.same w.db; friendly = h }

    pub Keeps-attempt :
        (m : M S E A) (f : A → M S E B) (g : E → M S E B)
        → Keeps m
        → ((a : A) → Keeps (f a))
        → ((e : E) → Keeps (g e))
        → Keeps (attempt m f g)
    Keeps-attempt m f g km kf kg = record { run = λ w h. attempt_step m f g w (km.run w h) kf kg }

    pub Keeps-bind :
        (m : M S E A) (f : A → M S E B) → Keeps m → ((a : A) → Keeps (f a)) → Keeps (m >>= f)
    Keeps-bind m f km kf = record { run = λ w h. bind_step m f w (km.run w h) kf }

  -- What a pause leaves behind is where an atomic read or write starts.
  module _ {E A : Type 0} where
    pub paused_step :
        (m : M S E A) (w : World S)
        → Friendly w.others
        → ((v : World S) → Step w v → Step w (m v).1)
        → Step w ((pause >> m) w).1
    unfolding ◌>>=◌ pause
    paused_step m w h k =
        let s = pause_step w.others w.db h in
        k (wake w.others w.db) (record { moved = s.0; friendly = s.1 })
