-- ===== src/Samples/Numbers.antt =====
-- Numbers that stand in for floats: thousandths, rounded towards 0. They are ordered as numbers are.
use comet_rag.Prelude.{
  ℕ, zero, suc, ◌+◌, ◌-◌, ◌*◌, ◌/◌, ◌^◌, ℤ, pos, negsuc, ◌≡◌, refl, Bool, true, false, not, arith,
  leb, if◌then◌else◌,
}
use comet_rag.Floats.{Floats, IsOrdered}
use comet_rag.Retrieval.Rerank.{int_lt, int_eq}

abbrev neg : ℤ → ℤ
neg (pos zero) = pos zero
neg (pos (suc n)) = negsuc n
neg (negsuc n) = pos (suc n)

abbrev minus : ℕ → ℕ → ℤ
minus a b = if leb b a then pos (a - b) else negsuc (b - a - 1)

abbrev add : ℤ → ℤ → ℤ
add (pos a) (pos b) = pos (a + b)
add (pos a) (negsuc b) = minus a (suc b)
add (negsuc a) (pos b) = minus b (suc a)
add (negsuc a) (negsuc b) = negsuc (suc (a + b))

abbrev size : ℤ → ℕ
size (pos n) = n
size (negsuc n) = suc n

abbrev is_negative : ℤ → Bool
is_negative (pos n) = false
is_negative (negsuc n) = true

abbrev signed : Bool → ℕ → ℤ
signed minus n = if minus then neg (pos n) else pos n

abbrev opposite : ℤ → ℤ → Bool
opposite a b = if is_negative a then not (is_negative b) else is_negative b

abbrev pub numbers : Floats ℤ
numbers = record {
  zero = pos 0;
  one = pos 1000;
  neg = neg;
  add = add;
  sub = λ a b. add a (neg b);
  mul = λ a b. signed (opposite a b) (size a * size b / 1000);
  div = λ a b. signed (opposite a b) (size a * 1000 / size b);
  sqrt = λ a. a;
  log = λ a. a;
  quotient = λ a b. pos (a * 1000 / b);
  of_nat = λ n. pos (n * 1000);
  literal = λ m k. pos (m * 1000 / 10 ^ k);
  below = int_lt;
  same = int_eq;
}

pub numbers-IsOrdered : IsOrdered numbers
numbers-IsOrdered = record {
  below_asym = asym;
  below_trans = trans;
  same_iff = λ a b. (same_to a b, λ h. same_from a b h.0 h.1);
  below_neg = negated;
}
  where
    asym : (a b : ℤ) → int_lt a b ≡ true → int_lt b a ≡ false
    asym (pos a) (pos b) h = ground arith
    asym (pos a) (negsuc b) h = absurd (cc)
    asym (negsuc a) (pos b) h = refl
    asym (negsuc a) (negsuc b) h = ground arith

    trans : (a b c : ℤ) → int_lt b a ≡ false → int_lt c b ≡ false → int_lt c a ≡ false
    trans (pos a) (pos b) (pos c) h k = ground arith
    trans (pos a) (pos b) (negsuc c) h k = absurd (cc)
    trans (pos a) (negsuc b) c h k = absurd (cc)
    trans (negsuc a) (pos b) (pos c) h k = refl
    trans (negsuc a) (pos b) (negsuc c) h k = absurd (cc)
    trans (negsuc a) (negsuc b) (pos c) h k = refl
    trans (negsuc a) (negsuc b) (negsuc c) h k = ground arith

    same_to : (a b : ℤ) → int_eq a b ≡ true → (int_lt a b ≡ false) × (int_lt b a ≡ false)
    same_to (pos a) (pos b) h = (ground arith, ground arith)
    same_to (pos a) (negsuc b) h = absurd (cc)
    same_to (negsuc a) (pos b) h = absurd (cc)
    same_to (negsuc a) (negsuc b) h = (ground arith, ground arith)

    same_from : (a b : ℤ) → int_lt a b ≡ false → int_lt b a ≡ false → int_eq a b ≡ true
    same_from (pos a) (pos b) h k = ground arith
    same_from (pos a) (negsuc b) h k = absurd (cc)
    same_from (negsuc a) (pos b) h k = absurd (cc)
    same_from (negsuc a) (negsuc b) h k = ground arith

    negated : (a b : ℤ) → int_lt (neg a) (neg b) ≡ int_lt b a
    negated (pos zero) (pos zero) = refl
    negated (pos zero) (pos (suc b)) = ground arith
    negated (pos (suc a)) (pos zero) = ground arith
    negated (pos (suc a)) (pos (suc b)) = ground arith
    negated (pos zero) (negsuc b) = ground arith
    negated (pos (suc a)) (negsuc b) = ground arith
    negated (negsuc a) (pos zero) = ground arith
    negated (negsuc a) (pos (suc b)) = ground arith
    negated (negsuc a) (negsuc b) = ground arith
