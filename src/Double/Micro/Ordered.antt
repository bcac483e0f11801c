-- ===== src/Double/Micro/Ordered.antt =====
-- The order on the fixed-point numbers.
use robstride_driver.Common.{ℕ, ◌+◌, ◌*◌, ◌/◌, ◌<◌, ◌≤◌, ◌≡◌, true, arith, refl, ap, sym, ◌∙◌}
use robstride_driver.Common.Int.{pos, negsuc, ◌≤ℤ◌, ◌-ℤ◌, int_laws, -ℤ_parts}
use robstride_driver.Double.Order.{AtMost, IsOrdered}
use robstride_driver.Double.Micro.{Micro, micro_double, round, unit}
use native.Mathlib.Numerals.{unary_clauses}
use mathlib.Core.Path.{subst}
use native.Mathlib.Nat.{
  le-div_iff_mul-le, div-mul-le_self, mul-div_left, mul-le-mul_right, mul_assoc, zero-div, zero-mul,
}

div_mono : (a b s : ℕ) → 0 < s → a ≤ b → a / s ≤ b / s
div_mono a b s p le = let below = div-mul-le_self a s in (le-div_iff_mul-le p).1 (omega arith)

micro_sub-le : (a b c : Micro) → AtMost a b → AtMost (a -ℤ c) (b -ℤ c)
micro_sub-le a b c le = let pa = -ℤ_parts a c in let pb = -ℤ_parts b c in ground arith

micro_sub_self : (a : Micro) → a -ℤ a ≡ pos 0
micro_sub_self a = grind (arith, int_laws)

micro_sub-lt : (a b : Micro) → micro_double.lt a b ≡ true → micro_double.lt (pos 0) (b -ℤ a) ≡ true
micro_sub-lt a b lt = let p = -ℤ_parts b a in ground arith

micro_mul-le :
    (a b : Micro) (n : ℕ)
    → AtMost (pos 0) a
    → AtMost a b
    → AtMost (micro_double.mul a (pos (n * unit))) (micro_double.mul b (pos (n * unit)))
micro_mul-le (pos a) (pos b) n l le =
    let steps : a * (n * unit) / unit ≤ b * (n * unit) / unit =
      div_mono (a * (n * unit)) (b * (n * unit)) unit (omega arith)
        (mul-le-mul_right (n * unit) (ground arith)) in
    ground arith
micro_mul-le (pos a) (negsuc b) n l le = ground arith
micro_mul-le (negsuc a) b n l le = ground arith

micro_div-le :
    (a b s : Micro)
    → micro_double.lt (pos 0) s ≡ true
    → AtMost (pos 0) a
    → AtMost a b
    → AtMost (micro_double.div a s) (micro_double.div b s)
micro_div-le (pos a) (pos b) (pos s) p l le =
    let steps : a * unit / s ≤ b * unit / s =
      div_mono (a * unit) (b * unit) s (ground arith) (ground arith) in
    ground arith
micro_div-le (pos a) (negsuc b) s p l le = ground arith
micro_div-le (negsuc a) b s p l le = ground arith
micro_div-le a b (negsuc s) p l le = ground arith

micro_div-zero : (s : Micro) → micro_double.lt (pos 0) s ≡ true → micro_double.div (pos 0) s ≡ pos 0
micro_div-zero (pos s) p = simp unary_clauses (ap pos (zero-div s))
micro_div-zero (negsuc s) p = ground arith

micro_div-mul :
    (s : Micro) (n : ℕ)
    → micro_double.lt (pos 0) s ≡ true
    → micro_double.div (micro_double.mul s (pos (n * unit))) s ≡ pos (n * unit)
micro_div-mul (pos s) n p =
    let positive : 0 < s = ground arith in
    let exact : s * (n * unit) / unit ≡ s * n =
      ap (λ t. t / unit) (sym (mul_assoc s n unit)) ∙ mul-div_left (s * n) (omega arith) in
    let back : s * n * unit / s ≡ n * unit =
      ap (λ t. t / s) (grind arith) ∙ mul-div_left (n * unit) positive in
    simp unary_clauses (ap pos (ap (λ t. t * unit / s) exact ∙ back))
micro_div-mul (negsuc s) n p = ground arith

micro_round : (n : ℕ) → round (pos (n * unit)) ≡ pos n
micro_round n = ground arith

micro_round-le : (a b : Micro) → AtMost (pos 0) a → AtMost a b → round a ≤ℤ round b
micro_round-le a b l le = ground arith

-- Every fixed-point number is finite.
pub micro_IsOrdered : IsOrdered Micro
micro_IsOrdered = record {
  IsNumber = λ _. Unit;
  IsFinite = λ _. Unit;
  of_finite = λ _ _. tt;
  of_ℕ-finite = λ _ _. tt;
  between = λ _ _ _ _ _ _ _ _. tt;
  at_most_refl = λ a. ground arith;
  at_most_trans = λ a b c _ l l'. ground arith;
  lt_at_most = λ a b l. ground arith;
  of_ℕ-le = λ m n l. ground arith;
  sub-number = λ _ _ _ _. tt;
  sub-self = λ a _. micro_sub_self a;
  sub-le = λ a b c _ _ _. micro_sub-le a b c;
  sub-lt = λ a b _ _. micro_sub-lt a b;
  mul-number = λ _ _ _ _. tt;
  mul-zero = λ n _. simp (unary_clauses, zero-mul, zero-div) refl;
  mul-le = λ a b n _ _ _. micro_mul-le a b n;
  div-number = λ _ _ _ _ _. tt;
  div-zero = λ s _ p. micro_div-zero s p;
  div-le = λ a b s _ _ _. micro_div-le a b s;
  div-mul = λ s n _ _ p _. ap round (micro_div-mul s n p) ∙ micro_round n;
  div-mul-le = λ s n _ _ p _.
      subst (λ t. AtMost t (pos ((n + 1) * unit))) (sym (micro_div-mul s n p)) (ground arith);
  lround-of_ℕ = λ n _. micro_round n;
  lround-le = λ a b _ _ l l' _. micro_round-le a b l l';
}

pub micro_finite : (a : Micro) → micro_IsOrdered.IsFinite a
unfolding micro_IsOrdered
micro_finite a = tt
