-- ===== src/Examples/Profile.antt =====
-- examples/tracking_capture_common.hpp: the recording of a command profile.
use robstride_driver.Common.{ℕ, ◌+◌, List, [], ◌∷◌, ◌++◌}
use robstride_driver.Double.{Double}
use robstride_driver.Protocol.Types.{Feedback}
use robstride_driver.Unwrapper.{PositionUnwrapper, update}
use robstride_driver.Motor.Monad.{CanInterface, ◌>>=◌, ◌>>◌, pure, on_clock}
use robstride_driver.Examples.Process.{Column, Thread, P, call, put, rest, while}

pub record Segment (D : Type 0) : Type 0 where
  pub duration_s : D
  pub target : D

-- The CSV file, with the cells of the row that is not ended yet, and the unwrapper.
pub record Recording (D : Type 0) : Type 0 where
  pub header : List Column
  pub rows : List (List D)
  pub cells : List D
  pub unwrapper : PositionUnwrapper D

module _ {D : Type 0} ⦃d : Double D⦄ where
  open d use {add, lt, seconds}

  unfoldable pub put_cells : D → D → Feedback D → Recording D → Recording D
  put_cells now target fb r =
      let (unwrapper, continuous) = update r.unwrapper fb.position in
      record r {
        cells =
            r.cells ++ now ∷ target ∷ continuous ∷ fb.velocity ∷ fb.torque ∷ fb.temperature ∷ [];
        unwrapper = unwrapper;
      }

  abbrev pub put_cell : D → Recording D → Recording D
  put_cell x r = record r { cells = r.cells ++ x ∷ [] }

  abbrev pub end_row : Recording D → Recording D
  end_row r = record r { rows = r.rows ++ r.cells ∷ []; cells = [] }

  module _ {W : Type 0} ⦃can : CanInterface W⦄ where
    unfoldable pub seconds_since : ℕ → P D W (Recording D) D
    seconds_since start = do now ← call (on_clock can.now); pure (seconds start now)

    module _ ⦃thread : Thread W⦄ (start : ℕ) (send_command : D → P D W (Recording D) (Feedback D))
        (append_extra : P D W (Recording D) (Unit {0})) where
      -- The body of the inner loop. A period of 0.01 s is 10,000,000 ns.
      unfoldable pub cycle : D → P D W (Recording D) (Unit {0})
      cycle target = do
        now ← call (on_clock can.now)
        feedback ← send_command target
        elapsed ← seconds_since start
        put (put_cells elapsed target feedback)
        append_extra
        put end_row
        rest (thread.sleep_until (now + 10_000_000))

      unfoldable pub run_segment : ℕ → Segment D → P D W (Recording D) (Unit {0})
      run_segment fuel segment = do
        before ← seconds_since start
        let segment_end = add before segment.duration_s
        while fuel (do now ← seconds_since start; pure (lt now segment_end)) (cycle segment.target)

      unfoldable pub run_segments : ℕ → List (Segment D) → P D W (Recording D) (Unit {0})
      run_segments fuel [] = pure tt
      run_segments fuel (segment ∷ profile) = do run_segment fuel segment; run_segments fuel profile

    -- `fuel` is the number of rounds that each segment may take at most.
    unfoldable pub run_profile :
        ⦃thread : Thread W⦄
        → ℕ
        → List (Segment D)
        → (D → P D W (Recording D) (Feedback D))
        → P D W (Recording D) (Unit {0})
        → P D W (Recording D) (Unit {0})
    run_profile fuel profile send_command append_extra = do
      start ← call (on_clock can.now)
      run_segments start send_command append_extra fuel profile
