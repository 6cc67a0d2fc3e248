-- ===== src/Prelude/Texts.antt =====
-- Python's texts: the white space that `strip` takes off, and the order by the code points, where
-- the first difference decides.
use comet_rag.Prelude.Tests.{leb, eqb, if◌then◌else◌}
use Prim.Native.Nat.{ℕ, Ordering, compare as compare_ℕ}
use Prim.Native.Char.{Char, code}
use Prim.Native.String.compare
use Prim.Native.String.{String, [], ◌∷◌, then, compare}
use mathlib.Core.Path.{◌≡◌}
use mathlib.Core.Bool.{Bool, true, false, ◌&&◌, ◌||◌}
use native.Mathlib.Omega.{arith}

-- `chr(c).isspace()`
unfoldable pub is_space : ℕ → Bool
is_space c =
    (leb 9 c && leb c 13)
    || (leb 28 c && leb c 32)
    || eqb c 133
    || eqb c 160
    || eqb c 5760
    || (leb 8192 c && leb c 8202)
    || eqb c 8232
    || eqb c 8233
    || eqb c 8239
    || eqb c 8287
    || eqb c 12288

-- `not s.strip()`
unfoldable pub is_blank : String → Bool
unfolding is_space
is_blank [] = true
is_blank (c ∷ s) = let rest = is_blank s in is_space (code c) && rest

-- `s.lstrip()` and `s.rstrip()`
unfoldable pub lstrip : String → String
unfolding is_space
lstrip [] = []
lstrip (c ∷ s) = let rest = lstrip s in if is_space (code c) then rest else c ∷ s

abbrev kept_char : Bool → Char → String → String
kept_char space c [] = if space then [] else c ∷ []
kept_char space c (d ∷ s) = c ∷ d ∷ s

unfoldable pub rstrip : String → String
unfolding is_space
rstrip [] = []
rstrip (c ∷ s) = kept_char (is_space (code c)) c (rstrip s)

-- `s.strip()`
unfoldable pub strip : String → String
unfolding lstrip rstrip
strip s = rstrip (lstrip s)

-- `not s`
abbrev pub is_empty : String → Bool
is_empty [] = true
is_empty (c ∷ s) = false

-- `s < t`
abbrev pub text_lt : String → String → Bool
text_lt s t = elim (compare s t) [ Ordering.lt ↦ true | _ ↦ false ]

before_end : (c : Char) (s : String) → compare (c ∷ s) [] ≡ Ordering.gt
before_end c s = compare.cons-nil c s

from_start : (c : Char) (s : String) → compare [] (c ∷ s) ≡ Ordering.lt
from_start c s = compare.nil-cons c s

both_on :
    (c d : Char) (s t : String)
    → compare (c ∷ s) (d ∷ t) ≡ (then) (compare_ℕ (code c) (code d)) (compare s t)
both_on c d s t = compare.cons-cons c d s t

pub text_lt_asym : (s t : String) → text_lt s t ≡ true → text_lt t s ≡ false
text_lt_asym [] [] h = ground arith
text_lt_asym [] (d ∷ t) h = ground (arith, before_end d t)
text_lt_asym (c ∷ s) [] h = ground (arith, before_end c s)
text_lt_asym (c ∷ s) (d ∷ t) h = ground (arith, both_on c d s t, both_on d c t s, text_lt_asym s t)

-- `≤` is transitive: `t ≤ s` is "not `s < t`".
pub text_le_trans :
    (s t u : String) → text_lt t s ≡ false → text_lt u t ≡ false → text_lt u s ≡ false
text_le_trans [] [] u h k = k
text_le_trans [] (d ∷ t) [] h k = ground arith
text_le_trans [] (d ∷ t) (e ∷ u) h k = ground (arith, before_end e u)
text_le_trans (c ∷ s) [] u h k = ground (arith, from_start c s)
text_le_trans (c ∷ s) (d ∷ t) [] h k = ground (arith, from_start d t)
text_le_trans (c ∷ s) (d ∷ t) (e ∷ u) h k =
    ground (arith, both_on d c t s, both_on e d u t, both_on e c u s, text_le_trans s t u)
