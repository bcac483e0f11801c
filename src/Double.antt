-- ===== src/Double.antt =====
-- What the driver does with `double` and `float`. Both are parameters of the model: a development
-- takes any type `D` with these operations. A `float` is its 32-bit pattern.
pub mod Micro
pub mod Order
use robstride_driver.Common.{ℕ, Bool}
use robstride_driver.Common.Int.{ℤ}

pub record Double (D : Type 0) : Type 0 where
  -- The conversion of an integer, and the literals that are no integers: `decimal n k` is the
  -- literal `n` with its last `k` digits behind the point.
  pub of_ℕ : ℕ → D
  pub decimal : ℕ → ℕ → D
  pub tenth : D
  pub pi : D
  pub add : D → D → D
  pub sub : D → D → D
  pub mul : D → D → D
  pub div : D → D → D
  pub neg : D → D
  -- `a < b`, which is also `b > a`.
  pub lt : D → D → Bool
  -- `std::lround` and `std::remainder`.
  pub lround : D → ℤ
  pub remainder : D → D → D
  -- `static_cast<int>`.
  pub to_int : D → ℤ
  -- The casts to and from `float`.
  pub narrow : D → ℕ
  pub widen : ℕ → D
  -- `std::chrono::duration<double>(b - a).count()` of two time points `a` and `b` in nanoseconds.
  pub seconds : ℕ → ℕ → D
