-- ===== src/Gate/System.antt =====
-- The gate with its users: which calls hold a slot, and the steps that users take in any order.
pub mod Invariant
use comet_rag.Prelude.{
  ℕ, Bool, true, false, Option, none, some, List, [], ◌∷◌, ◌≡◌, ◌⊎◌, if◌then◌else◌,
}
use comet_rag.Gate.{Gate, Result, ok, err, Error, try_take, release, give_back, mem, erase}

-- `holding` has each call between a successful acquire and its release, and each waiter that was
-- handed a slot.
pub record System : Type 0 where
  pub gate : Gate
  pub holding : List ℕ

abbrev pub granted : Option ℕ → List ℕ → List ℕ
granted none hs = hs
granted (some w) hs = w ∷ hs

abbrev take_result : ℕ → List ℕ → Result (Option ℕ) × Gate → System
take_result w hs (ok none, g) = record { gate = g; holding = w ∷ hs }
take_result w hs (ok (some _), g) = record { gate = g; holding = hs }
take_result w hs (err e, g) = record { gate = g; holding = hs }

unfoldable pub arrive : ℕ → System → System
unfolding try_take
arrive w s = take_result w s.holding (try_take w s.gate)

unfoldable pub finish : (ℕ → Bool) → ℕ → System → System
unfolding release erase
finish awake w s =
    let (next, g) = release awake s.gate in
    record { gate = g; holding = granted next (erase w s.holding) }

-- A waiter that times out or is cancelled, queued still or handed a slot meanwhile.
unfoldable pub give_up : (ℕ → Bool) → ℕ → Bool → System → System
unfolding give_back erase mem
give_up awake w rejected s =
    let (next, g) = give_back awake w rejected s.gate in
    record {
      gate = g;
      holding = granted next (if mem w s.gate.waiters then s.holding else erase w s.holding);
    }

-- Any user may take its next step; which event loops are alive may change between steps.
pub data Step (s : System) : System → Type 0 where
  arrives : (w : ℕ) → Step s (arrive w s)
  finishes : (awake : ℕ → Bool) (w : ℕ) → mem w s.holding ≡ true → Step s (finish awake w s)
  gives_up :
      (awake : ℕ → Bool) (w : ℕ) (rejected : Bool)
      → (mem w s.gate.waiters ≡ true) ⊎ (mem w s.holding ≡ true)
      → Step s (give_up awake w rejected s)

pub data Reach (s : System) : System → Type 0 where
  here : Reach s s
  next : {t u : System} → Reach s t → Step t u → Reach s u
