-- ===== src/Protocol/Scaling.antt =====
-- `float_to_uint` and `uint_to_float` of protocol.cpp: the fixed-point scaling.
pub mod Order
pub mod Steps
use robstride_driver.Common.{ℕ, ◌-◌, ◌^◌, if◌then◌else◌}
use robstride_driver.Common.Int.{u16_of_ℤ}
use robstride_driver.Double.{Double}

module _ {D : Type 0} ⦃d : Double D⦄ where
  open d use {of_ℕ, add, sub, mul, div, lt, lround}

  -- `std::clamp`.
  abbrev pub clamp : D → D → D → D
  clamp x min max = if lt x min then min else if lt max x then max else x

  -- `(x - min) * ((1 << bits) - 1) / span`, with `x` clamped.
  pub scaled : D → D → D → ℕ → D
  scaled x min max bits =
      let span = sub max min in div (mul (sub (clamp x min max) min) (of_ℕ (2 ^ bits - 1))) span

  unfoldable pub float_to_uint : D → D → D → ℕ → ℕ
  unfolding scaled
  float_to_uint x min max bits = u16_of_ℤ (lround (scaled x min max bits))

  unfoldable pub uint_to_float : ℕ → D → D → ℕ → D
  uint_to_float value min max bits =
      let span = sub max min in add (div (mul (of_ℕ value) span) (of_ℕ (2 ^ bits - 1))) min
