-- ===== src/Protocol/Scaling/Order.antt =====
-- The order of the codes that `float_to_uint` gives.
use robstride_driver.Common.{ℕ, ◌-◌, ◌^◌, ◌≤◌, ◌≡◌, ◌∙◌, ap, sym, arith}
use mathlib.Core.Path.{subst}
use robstride_driver.Common.Int.{pos, pos_part, u16_of_ℤ, ◌≤ℤ◌}
use robstride_driver.Double.{Double}
use robstride_driver.Double.Order.{AtMost, IsOrdered}
use robstride_driver.Protocol.Scaling.Steps.{
  IsRange, In, quotient, clamp-In, clamp-le, code-le, code-least, code-most, code-between, min-In,
  max-In,
}
use robstride_driver.Protocol.Scaling.{clamp, scaled, float_to_uint}

module _ {D : Type 0} ⦃d : Double D⦄ (o : IsOrdered D) where
  open d use {of_ℕ, sub, mul, div, lt, lround}
  open o use {IsFinite}

  module _ (min max : D) (bits : ℕ) (r : IsRange o min max (2 ^ bits - 1)) where
    -- The code is the rounded quotient, which 16 bits hold.
    float_to_uint-code :
        (y : D)
        → IsFinite y
        → (pos (float_to_uint y min max bits)
            ≡ lround (quotient o min max (2 ^ bits - 1) r (clamp y min max)))
          × (float_to_uint y min max bits ≤ 2 ^ bits - 1)
    unfolding float_to_uint scaled quotient
    float_to_uint-code y f =
        let b =
          code-between o min max (2 ^ bits - 1) r (clamp y min max)
            (clamp-In o min max (2 ^ bits - 1) r y f) in
        let small = r.top_code in
        let same : float_to_uint y min max bits ≡ b.0 =
          ap u16_of_ℤ b.1 ∙ omega (arith, small, b.2) in
        (ap pos same ∙ sym b.1, omega (arith, same, b.2))

    -- Inside the range, the rounded quotient of the number itself.
    float_to_uint-inside :
        (y : D)
        → In o min max (2 ^ bits - 1) r y
        → (n : ℕ) → lround (quotient o min max (2 ^ bits - 1) r y) ≡ pos n
        → float_to_uint y min max bits ≡ n
    float_to_uint-inside y i n e =
        let c = (float_to_uint-code y i.0).0 in
        let same : clamp y min max ≡ y = ground (arith, i) in
        ap pos_part (c ∙ ap (λ t. lround (quotient o min max (2 ^ bits - 1) r t)) same ∙ e)

    -- The code that `float_to_uint` gives grows with the number: for finite numbers x at most y,
    -- the code of x is at most that of y, and that at most 2 ^ bits - 1. The lower bound has the
    -- code 0 and the upper bound 2 ^ bits - 1. The bounds are finite and apart, no step overflows
    -- on them, the code has at most 16 bits, and the arithmetic is ordered as IEEE 754 says.
    pub float_to_uint-AtMost :
        (x y : D)
        → IsFinite x
        → IsFinite y
        → AtMost x y
        → (float_to_uint x min max bits ≤ float_to_uint y min max bits)
          × (float_to_uint y min max bits ≤ 2 ^ bits - 1)
          × (float_to_uint min min max bits ≡ 0)
          × (float_to_uint max min max bits ≡ 2 ^ bits - 1)
    float_to_uint-AtMost x y fx fy le =
        let cx = float_to_uint-code x fx in
        let cy = float_to_uint-code y fy in
        let clamped = clamp-In o min max (2 ^ bits - 1) r in
        let codes : pos (float_to_uint x min max bits) ≤ℤ pos (float_to_uint y min max bits) =
          subst (λ q. q ≤ℤ pos (float_to_uint y min max bits)) (sym cx.0)
            (subst (λ q. lround (quotient o min max (2 ^ bits - 1) r (clamp x min max)) ≤ℤ q)
              (sym cy.0)
              (code-le o min max (2 ^ bits - 1) r (clamp x min max) (clamp y min max) (clamped x fx)
                (clamped y fy) (clamp-le o min max (2 ^ bits - 1) r x y fx fy le))) in
        (
          omega (arith, codes),
          cy.1,
          float_to_uint-inside min (min-In o min max (2 ^ bits - 1) r) 0
              (code-least o min max (2 ^ bits - 1) r),
          float_to_uint-inside max (max-In o min max (2 ^ bits - 1) r) (2 ^ bits - 1)
              (code-most o min max (2 ^ bits - 1) r),
        )
