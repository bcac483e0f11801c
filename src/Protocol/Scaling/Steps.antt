-- ===== src/Protocol/Scaling/Steps.antt =====
-- The steps of `float_to_uint` on the numbers of the range: differences, products, quotients.
use robstride_driver.Common.{ℕ, ◌+◌, ◌^◌, ◌<◌, ◌≤◌, ◌≡◌, ◌∙◌, ap, arith, true}
use mathlib.Core.Path.{subst}
use robstride_driver.Common.Int.{pos, ◌≤ℤ◌, ℕ-between}
use robstride_driver.Double.{Double}
use robstride_driver.Double.Order.{AtMost, IsOrdered}
use robstride_driver.Protocol.Scaling.{clamp}

module _ {D : Type 0} ⦃d : Double D⦄ (o : IsOrdered D) where
  open d use {of_ℕ, sub, mul, div, lt, lround}
  open o use {IsFinite, IsNumber, at_most_trans, at_most_refl, lt_at_most}

  -- The lower bound is below the upper one, and the largest product is finite.
  pub record IsRange (min max : D) (top : ℕ) : Type 0 where
    pub min_finite : IsFinite min
    pub max_finite : IsFinite max
    pub wide : lt min max ≡ true
    pub span_finite : IsFinite (sub max min)
    pub top_finite : IsFinite (mul (sub max min) (of_ℕ top))
    pub top_code : top < 2 ^ 16

  module _ (min max : D) (top : ℕ) (r : IsRange min max top) where
    abbrev pub In : D → Type 0
    In y = IsFinite y × AtMost min y × AtMost y max

    number : (y : D) → IsFinite y → IsNumber y
    number y = o.of_finite y

    bounds_apart : AtMost min max
    bounds_apart = lt_at_most min max r.wide

    pub clamp-In : (x : D) → IsFinite x → In (clamp x min max)
    clamp-In x f =
        let low = r.min_finite in
        let high = r.max_finite in
        let ends = bounds_apart in
        let a = at_most_refl min in let b = at_most_refl max in ground arith

    pub clamp-le :
        (x y : D)
        → IsFinite x
        → IsFinite y
        → AtMost x y
        → AtMost (clamp x min max) (clamp y min max)
    clamp-le x y fx fy le =
        let ends = bounds_apart in
        let a = at_most_refl min in
        let b = at_most_refl max in
        let c = at_most_trans x y min (number y fy) le in
        let c' = at_most_trans x y max (number y fy) le in
        let e = at_most_trans x min max (number min r.min_finite) in
        let e' = lt_at_most y min in let e'' = lt_at_most x min in grind arith

    -- The steps of the scaling, of a number inside the range.
    part : D → D
    part y = sub y min

    product : D → D
    product y = mul (sub y min) (of_ℕ top)

    unfoldable pub quotient : D → D
    quotient y = div (mul (sub y min) (of_ℕ top)) (sub max min)

    positive : lt (of_ℕ 0) (sub max min) ≡ true
    positive = o.sub-lt min max r.min_finite r.max_finite r.wide

    zero_finite : IsFinite (of_ℕ 0)
    zero_finite = o.of_ℕ-finite 0 (omega arith)

    part-le : (y z : D) → IsFinite y → IsFinite z → AtMost y z → AtMost (part y) (part z)
    unfolding part
    part-le y z fy fz le = o.sub-le y z min fy fz r.min_finite le

    part-least : part min ≡ of_ℕ 0
    unfolding part
    part-least = o.sub-self min r.min_finite

    part-In : (y : D) → In y → IsFinite (part y) × AtMost (of_ℕ 0) (part y)
    unfolding part
    part-In y (f, low, high) =
        let least = subst (λ t. AtMost t (part y)) part-least (part-le min y r.min_finite f low) in
        (
          o.between (of_ℕ 0) (part y) (part max) zero_finite (o.sub-number y min f r.min_finite)
              r.span_finite least (part-le y max f r.max_finite high),
          least,
        )

    product-le : (y z : D) → In y → In z → AtMost y z → AtMost (product y) (product z)
    unfolding part product
    product-le y z iy iz le =
        o.mul-le (part y) (part z) top (part-In y iy).0 (part-In z iz).0 (omega (arith, r.top_code))
          (part-In y iy).1 (part-le y z iy.0 iz.0 le)

    product-least : product min ≡ of_ℕ 0
    unfolding part product
    product-least =
        ap (λ t. mul t (of_ℕ top)) part-least ∙ o.mul-zero top (omega (arith, r.top_code))

    pub min-In : In min
    min-In = (r.min_finite, at_most_refl min, bounds_apart)

    pub max-In : In max
    max-In = (r.max_finite, bounds_apart, at_most_refl max)

    product-In : (y : D) → In y → IsFinite (product y) × AtMost (of_ℕ 0) (product y)
    unfolding part product
    product-In y i =
        let least =
          subst (λ t. AtMost t (product y)) product-least (product-le min y min-In i i.1) in
        (
          o.between (of_ℕ 0) (product y) (product max) zero_finite
              (o.mul-number (part y) top (part-In y i).0 (omega (arith, r.top_code))) r.top_finite
              least (product-le y max i max-In i.2),
          least,
        )

    quotient-le : (y z : D) → In y → In z → AtMost y z → AtMost (quotient y) (quotient z)
    unfolding part product quotient
    quotient-le y z iy iz le =
        o.div-le (product y) (product z) (sub max min) (product-In y iy).0 (product-In z iz).0
          r.span_finite positive (product-In y iy).1 (product-le y z iy iz le)

    quotient-least : quotient min ≡ of_ℕ 0
    unfolding product quotient
    quotient-least =
        ap (λ t. div t (sub max min)) product-least
        ∙ o.div-zero (sub max min) r.span_finite positive

    quotient-number : (y : D) → In y → IsNumber (quotient y)
    unfolding product quotient
    quotient-number y i =
        o.div-number (product y) (sub max min) (product-In y i).0 r.span_finite positive

    quotient-most : (y : D) → In y → AtMost (quotient y) (of_ℕ (2 ^ 16))
    unfolding product quotient
    quotient-most y i =
        at_most_trans (quotient y) (of_ℕ (top + 1)) (of_ℕ (2 ^ 16))
          (number _ (o.of_ℕ-finite (top + 1) (omega (arith, r.top_code))))
          (at_most_trans (quotient y) (quotient max) (of_ℕ (top + 1)) (quotient-number max max-In)
            (quotient-le y max i max-In i.2)
            (o.div-mul-le (sub max min) top r.span_finite r.top_finite positive r.top_code))
          (o.of_ℕ-le (top + 1) (2 ^ 16) (omega (arith, r.top_code)))

    pub code-le : (y z : D) → In y → In z → AtMost y z → lround (quotient y) ≤ℤ lround (quotient z)
    code-le y z iy iz le =
        let least =
          subst (λ t. AtMost t (quotient y)) quotient-least (quotient-le min y min-In iy iy.1) in
        o.lround-le (quotient y) (quotient z) (quotient-number y iy) (quotient-number z iz) least
          (quotient-le y z iy iz le) (quotient-most z iz)

    pub code-least : lround (quotient min) ≡ pos 0
    code-least = ap lround quotient-least ∙ o.lround-of_ℕ 0 (omega arith)

    pub code-most : lround (quotient max) ≡ pos top
    unfolding product quotient
    code-most = o.div-mul (sub max min) top r.span_finite r.top_finite positive r.top_code

    pub code-between : (y : D) → In y → (c : ℕ) × (lround (quotient y) ≡ pos c) × (c ≤ top)
    code-between y i =
        ℕ-between (lround (quotient y)) top
          (subst (λ q. q ≤ℤ lround (quotient y)) code-least (code-le min y min-In i i.1))
          (subst (λ q. lround (quotient y) ≤ℤ q) code-most (code-le y max i max-In i.2))
