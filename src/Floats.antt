-- ===== src/Floats.antt =====
-- Python's `float`, as far as comet_rag computes with it: the operations are a parameter, and what
-- the sorts rely on is the order of the floats that are numbers, without NaN.
pub mod Ranking
use comet_rag.Prelude.{ℕ, ◌≡◌, ◌↔◌, Bool, true, false}

pub record Floats (F : Type 0) : Type 0 where
  pub zero : F
  pub one : F
  pub neg : F → F
  pub add : F → F → F
  pub sub : F → F → F
  pub mul : F → F → F
  pub div : F → F → F
  pub sqrt : F → F
  pub log : F → F
  -- `float(n)`
  -- `a / b` of integers
  pub quotient : ℕ → ℕ → F
  pub of_nat : ℕ → F
  -- The literal `m / 10 ** k`, as `0.75` is 75 and 2
  pub literal : ℕ → ℕ → F
  -- `a < b` and `a == b`
  pub below : F → F → Bool
  pub same : F → F → Bool

-- The order of the numbers among the floats.
pub record IsOrdered {F : Type 0} (fl : Floats F) : Type 0 where
  pub below_asym : (a b : F) → fl.below a b ≡ true → fl.below b a ≡ false
  pub below_trans : (a b c : F) → fl.below b a ≡ false → fl.below c b ≡ false → fl.below c a ≡ false
  pub same_iff : (a b : F) → fl.same a b ≡ true ↔ (fl.below a b ≡ false) × (fl.below b a ≡ false)
  pub below_neg : (a b : F) → fl.below (fl.neg a) (fl.neg b) ≡ fl.below b a
