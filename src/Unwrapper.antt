-- ===== src/Unwrapper.antt =====
-- include/robstride_driver/position_unwrapper.hpp.
pub mod Tracking
use robstride_driver.Common.{ℕ, Option, none, some, if◌then◌else◌, List, [], ◌∷◌}
use robstride_driver.Double.{Double}
use robstride_driver.Protocol.Limits.{ActuatorLimits}

pub record PositionUnwrapper (D : Type 0) : Type 0 where
  pub span : D
  pub offset : D
  pub last_wrapped : Option D

module _ {D : Type 0} ⦃d : Double D⦄ where
  open d use {of_ℕ, add, sub, mul, div, neg, lt}

  unfoldable pub make_unwrapper : D → PositionUnwrapper D
  make_unwrapper span = record { span = span; offset = of_ℕ 0; last_wrapped = none }

  unfoldable pub unwrapper_of_limits : ActuatorLimits D → PositionUnwrapper D
  unfolding make_unwrapper
  unwrapper_of_limits limits = make_unwrapper (mul (of_ℕ 2) limits.position)

  -- The offset after a sample, given the sample before it.
  unfoldable pub next_offset : D → D → Option D → D → D
  next_offset span offset none wrapped = offset
  next_offset span offset (some last) wrapped =
      let delta = sub wrapped last in
      if lt (div span (of_ℕ 2)) delta
      then sub offset span
      else if lt delta (div (neg span) (of_ℕ 2))
      then add offset span
      else offset

  unfoldable pub update : PositionUnwrapper D → D → PositionUnwrapper D × D
  unfolding next_offset
  update u wrapped =
      let offset = next_offset u.span u.offset u.last_wrapped wrapped in
      (record u { offset = offset; last_wrapped = some wrapped }, add wrapped offset)

  unfoldable pub position : PositionUnwrapper D → Option D
  position u = elim (u.last_wrapped) [ none ↦ none | some last ↦ some (add last u.offset) ]

  unfoldable pub reset : PositionUnwrapper D → PositionUnwrapper D
  reset u = record u { last_wrapped = none; offset = of_ℕ 0 }

  -- The results of `update` on one sample after another.
  unfoldable pub updates : PositionUnwrapper D → List D → List D
  updates u [] = []
  updates u (wrapped ∷ rest) = let (u', p) = update u wrapped in p ∷ updates u' rest

  -- The unwrapper after these samples.
  unfoldable pub updated : PositionUnwrapper D → List D → PositionUnwrapper D
  updated u [] = u
  updated u (wrapped ∷ rest) = updated (update u wrapped).0 rest
