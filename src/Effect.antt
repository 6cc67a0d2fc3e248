-- ===== src/Effect.antt =====
-- Coroutines over a shared state. A coroutine reads and writes the state, may raise, and lets others
-- run wherever it awaits. What the others do to the state at the next awaits is a list of functions:
-- the theorems hold for every list, so for every interleaving.
pub mod Keeps
pub mod Runs
pub mod Gives
use comet_rag.Prelude.{List, [], ◌∷◌}

pub record World (S : Type 0) : Type 0 where
  pub db : S
  pub others : List (S → S)

pub data Result (E A : Type 0) : Type 0 where
  ok : A → Result E A
  err : E → Result E A

abbrev pub M : Type 0 → Type 0 → Type 0 → Type 0
M S E A = World S → Result E A × World S

module _ {S E A : Type 0} where
  unfoldable pub pure : A → M S E A
  pure a w = (ok a, w)

  unfoldable pub raise : E → M S E A
  raise e w = (err e, w)

  unfoldable pub lift : Result E A → M S E A
  lift r w = (r, w)

  unfoldable pub gets : (S → A) → M S E A
  gets f w = (ok (f w.db), w)

  -- A critical section: reads and writes the state with nobody in between.
  unfoldable pub atomic : (S → Result E A × S) → M S E A
  atomic f w = let (r, d) = f w.db in (r, record w { db = d })

module _ {S E A B : Type 0} where
  abbrev pub proceed : (A → M S E B) → (E → M S E B) → Result E A → M S E B
  proceed f g (ok a) = f a
  proceed f g (err e) = g e

  infixl 10 ◌>>=◌ ◌>>◌
  unfoldable pub ◌>>=◌ : M S E A → (A → M S E B) → M S E B
  unfolding raise
  ◌>>=◌ m f w = let (r, w') = m w in proceed f raise r w'

  abbrev pub ◌>>◌ : M S E A → M S E B → M S E B
  m >> n = m >>= λ _. n

  -- `try: a = m  except …: handler  else: f(a)`
  unfoldable pub attempt : M S E A → (A → M S E B) → (E → M S E B) → M S E B
  attempt m f handler w = let (r, w') = m w in proceed f handler r w'

module _ {S : Type 0} where
  abbrev pub wake : List (S → S) → S → World S
  wake [] d = record { db = d; others = [] }
  wake (f ∷ fs) d = record { db = f d; others = fs }

module _ {S E : Type 0} where
  -- An `await`: the others take their turn.
  unfoldable pub pause : M S E (Unit {0})
  pause w = (ok tt, wake w.others w.db)
