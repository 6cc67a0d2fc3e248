-- ===== src/Prelude/Integers.antt =====
-- Python's `int`, where a negative one may come in.
use Prim.Native.Nat.{ℕ, zero, suc, ◌-◌}
use mathlib.Core.Option.{Option, none, some}
use mathlib.Core.List.{List}
use comet_rag.Prelude.Lists.{length, take}

-- `negsuc n` is -1 - n.
pub data ℤ : Type 0 where
  pos negsuc : ℕ → ℤ

-- The value, if it is more than 0
abbrev pub positive : ℤ → Option ℕ
positive (pos zero) = none
positive (pos (suc n)) = some (suc n)
positive (negsuc n) = none

-- `xs[:k]`: a negative k counts from the end
abbrev pub take_to {ℓ} : {A : Type ℓ} → ℤ → List A → List A
take_to (pos n) xs = take n xs
take_to (negsuc n) xs = take (length xs - suc n) xs
