-- ===== src/Double/Order.antt =====
-- What IEEE 754 and the C++ library document of the order on `double`: rounding to nearest keeps
-- the order, a difference of equal numbers is zero, and nothing is said of a number that is not
-- one or of a result that overflows.
use robstride_driver.Common.{ℕ, ◌^◌, ◌+◌, ◌<◌, ◌≤◌, ◌≡◌, true, false}
use robstride_driver.Common.Int.{pos, ◌≤ℤ◌}
use robstride_driver.Double.{Double}

module _ {D : Type 0} ⦃d : Double D⦄ where
  open d use {lt}

  -- `!(b < a)`, which is `a <= b` for all numbers but NaN.
  abbrev pub AtMost : D → D → Type 0
  AtMost a b = lt b a ≡ false

module _ (D : Type 0) ⦃d : Double D⦄ where
  open d use {of_ℕ, sub, mul, div, lt, lround}

  pub record IsOrdered : Type 1 where
    -- Not NaN, and neither NaN nor an infinity.
    pub IsNumber : D → Type 0
    pub IsFinite : D → Type 0
    pub of_finite : (a : D) → IsFinite a → IsNumber a
    pub of_ℕ-finite : (n : ℕ) → n ≤ 2 ^ 16 → IsFinite (of_ℕ n)
    pub between :
        (a x b : D) → IsFinite a → IsNumber x → IsFinite b → AtMost a x → AtMost x b → IsFinite x
    pub at_most_refl : (a : D) → AtMost a a
    pub at_most_trans : (a b c : D) → IsNumber b → AtMost a b → AtMost b c → AtMost a c
    pub lt_at_most : (a b : D) → lt a b ≡ true → AtMost a b
    pub of_ℕ-le : (m n : ℕ) → m ≤ n → AtMost (of_ℕ m) (of_ℕ n)
    pub sub-number : (a b : D) → IsFinite a → IsFinite b → IsNumber (sub a b)
    pub sub-self : (a : D) → IsFinite a → sub a a ≡ of_ℕ 0
    pub sub-le :
        (a b c : D) → IsFinite a → IsFinite b → IsFinite c → AtMost a b → AtMost (sub a c) (sub b c)
    pub sub-lt : (a b : D) → IsFinite a → IsFinite b → lt a b ≡ true → lt (of_ℕ 0) (sub b a) ≡ true
    pub mul-number : (a : D) (n : ℕ) → IsFinite a → n ≤ 2 ^ 16 → IsNumber (mul a (of_ℕ n))
    pub mul-zero : (n : ℕ) → n ≤ 2 ^ 16 → mul (of_ℕ 0) (of_ℕ n) ≡ of_ℕ 0
    pub mul-le :
        (a b : D) (n : ℕ)
        → IsFinite a
        → IsFinite b
        → n ≤ 2 ^ 16
        → AtMost (of_ℕ 0) a
        → AtMost a b
        → AtMost (mul a (of_ℕ n)) (mul b (of_ℕ n))
    pub div-number : (a s : D) → IsFinite a → IsFinite s → lt (of_ℕ 0) s ≡ true → IsNumber (div a s)
    pub div-zero : (s : D) → IsFinite s → lt (of_ℕ 0) s ≡ true → div (of_ℕ 0) s ≡ of_ℕ 0
    pub div-le :
        (a b s : D)
        → IsFinite a
        → IsFinite b
        → IsFinite s
        → lt (of_ℕ 0) s ≡ true
        → AtMost (of_ℕ 0) a
        → AtMost a b
        → AtMost (div a s) (div b s)
    -- `s * n / s` is `n` but for two roundings.
    pub div-mul :
        (s : D) (n : ℕ)
        → IsFinite s
        → IsFinite (mul s (of_ℕ n))
        → lt (of_ℕ 0) s ≡ true
        → n < 2 ^ 16
        → lround (div (mul s (of_ℕ n)) s) ≡ pos n
    pub div-mul-le :
        (s : D) (n : ℕ)
        → IsFinite s
        → IsFinite (mul s (of_ℕ n))
        → lt (of_ℕ 0) s ≡ true
        → n < 2 ^ 16
        → AtMost (div (mul s (of_ℕ n)) s) (of_ℕ (n + 1))
    pub lround-of_ℕ : (n : ℕ) → n ≤ 2 ^ 16 → lround (of_ℕ n) ≡ pos n
    -- `lround` is specified only where the result fits.
    pub lround-le :
        (a b : D)
        → IsNumber a
        → IsNumber b
        → AtMost (of_ℕ 0) a
        → AtMost a b
        → AtMost b (of_ℕ (2 ^ 16))
        → lround a ≤ℤ lround b
