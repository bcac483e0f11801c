-- ===== src/Tests/Turns.antt =====
-- The unwrapper on a motor that turns past the edge of its span and comes back.
use robstride_driver.Common.{◌≡◌, refl, some, arith, List, [], ◌∷◌, inl}
use robstride_driver.Common.Int.{pos, negsuc, ◌+ℤ◌, ◌-ℤ◌}
use robstride_driver.Double.Micro.{Micro, micro_double}
use robstride_driver.Unwrapper.{
  PositionUnwrapper, make_unwrapper, update, updates, updated, position, reset,
}
use robstride_driver.Unwrapper.Tracking.{
  IsWrapped, Follows, Sample, wrapped_forms, corrected, last_from, updates_track,
}

-- A span of 10, and the positions 14, 16 and 13.
abbrev samples : List Sample
samples = (pos 16, negsuc 3) ∷ (pos 13, pos 3) ∷ []

updates_run :
    updates (make_unwrapper (pos 10)) (pos 4 ∷ negsuc 3 ∷ pos 3 ∷ []) ≡ pos 4 ∷ pos 6 ∷ pos 3 ∷ []
unfolding updates update make_unwrapper ◌+ℤ◌ ◌-ℤ◌
updates_run = refl

IsWrapped-14 : IsWrapped 10 (pos 14) (pos 4)
unfolding ◌-ℤ◌
IsWrapped-14 = record { turns = (1, inl refl); at_most = omega arith; at_least = omega arith }

IsWrapped-16 : IsWrapped 10 (pos 16) (negsuc 3)
unfolding ◌-ℤ◌
IsWrapped-16 = record { turns = (2, inl refl); at_most = omega arith; at_least = omega arith }

IsWrapped-13 : IsWrapped 10 (pos 13) (pos 3)
unfolding ◌-ℤ◌
IsWrapped-13 = record { turns = (1, inl refl); at_most = omega arith; at_least = omega arith }

follows : Follows 10 (pos 14) samples
follows = (
  IsWrapped-16,
  record { forward = omega arith; backward = omega arith },
  (IsWrapped-13, record { forward = omega arith; backward = omega arith }, tt),
)

-- An unwrapper with a history.
abbrev used : PositionUnwrapper Micro
used = record { span = pos 10; offset = negsuc 29; last_wrapped = some (pos 2) }

updates_track_example :
    let forms = wrapped_forms ((pos 14, pos 4) ∷ samples) in
    let track = corrected (pos 4 -ℤ pos 14) ((pos 14, pos 4) ∷ samples) in
    (updates (reset used) forms ≡ track)
    × (updates (make_unwrapper (pos 10)) forms ≡ track)
    × (position (updated (reset used) forms) ≡ some (last_from (pos 4) track))
updates_track_example = updates_track used 10 (pos 14) (pos 4) samples refl IsWrapped-14 follows
