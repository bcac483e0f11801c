-- ===== src/Examples/Captures.antt =====
-- examples/tracking_capture_velocity.cpp, _current.cpp, _position.cpp, _pp.cpp, _operation.cpp: a
-- profile for each mode of the motor, from the first call of the driver on.
use robstride_driver.Common.{ℕ, false, List, [], ◌∷◌}
use robstride_driver.Double.{Double}
use robstride_driver.Protocol.Types.{RunMode}
use robstride_driver.Protocol.Params
use robstride_driver.Motor.Monad.{CanInterface, ◌>>=◌, ◌>>◌, pure}
use robstride_driver.Motor.Commands.{
  enable, disable, set_run_mode, set_mechanical_zero, configure_velocity_mode,
  send_velocity_command, send_motion_command, write_param_float, read_param_float,
}
use robstride_driver.Examples.Process.{Thread, P, call, put}
use robstride_driver.Examples.Profile.{Segment, Recording, put_cell, run_profile}

-- One of the programs, with the gains of the operation mode.
pub data Capture (D : Type 0) : Type 0 where
  velocity current position pp : Capture D
  operation : D → D → Capture D

module _ {D : Type 0} ⦃d : Double D⦄ where
  open d use {of_ℕ, decimal, pi, neg, div, narrow, widen}

  -- `{duration_s, target}`.
  abbrev pub segment : D → D → Segment D
  segment duration_s target = record { duration_s = duration_s; target = target }

  abbrev pub velocity_profile : List (Segment D)
  velocity_profile =
      segment (of_ℕ 1) (of_ℕ 0)
      ∷ segment (of_ℕ 4) (of_ℕ 2)
      ∷ segment (of_ℕ 4) (of_ℕ 4)
      ∷ segment (of_ℕ 4) (neg (of_ℕ 2))
      ∷ segment (of_ℕ 3) (of_ℕ 0)
      ∷ []

  abbrev pub current_profile : List (Segment D)
  current_profile =
      segment (of_ℕ 1) (of_ℕ 0)
      ∷ segment (decimal 15 1) (decimal 3 1)
      ∷ segment (decimal 15 1) (neg (decimal 3 1))
      ∷ segment (decimal 15 1) (decimal 3 1)
      ∷ segment (decimal 15 1) (neg (decimal 3 1))
      ∷ segment (of_ℕ 1) (of_ℕ 0)
      ∷ []

  abbrev pub position_profile : List (Segment D)
  position_profile =
      segment (of_ℕ 1) (of_ℕ 0)
      ∷ segment (of_ℕ 4) pi
      ∷ segment (of_ℕ 4) (neg pi)
      ∷ segment (of_ℕ 4) (of_ℕ 0)
      ∷ []

  abbrev pub pp_profile : List (Segment D)
  pp_profile =
      segment (of_ℕ 1) (of_ℕ 0)
      ∷ segment (of_ℕ 4) pi
      ∷ segment (of_ℕ 4) (neg pi)
      ∷ segment (of_ℕ 4) (of_ℕ 0)
      ∷ []

  abbrev pub operation_profile : List (Segment D)
  operation_profile =
      segment (of_ℕ 1) (of_ℕ 0)
      ∷ segment (of_ℕ 3) (div pi (of_ℕ 2))
      ∷ segment (of_ℕ 3) (div (neg pi) (of_ℕ 2))
      ∷ segment (of_ℕ 3) (of_ℕ 0)
      ∷ []

  -- The namespace `bench`.
  abbrev pub current_limit_a : D
  current_limit_a = of_ℕ 10

  abbrev pub acceleration_rad : D
  acceleration_rad = of_ℕ 20

  abbrev pub pp_vel_max : D
  pp_vel_max = of_ℕ 4

  abbrev pub pp_acc_set : D
  pp_acc_set = of_ℕ 20

  abbrev pub csp_speed_limit : D
  csp_speed_limit = of_ℕ 4

  -- `fuel` bounds the rounds of every loop.
  module _ {W : Type 0} ⦃can : CanInterface W⦄ ⦃thread : Thread W⦄ (fuel : ℕ) where
    unfoldable pub capture_velocity : P D W (Recording D) (Unit {0})
    capture_velocity = do
      call (set_run_mode fuel RunMode.velocity)
      call (enable fuel)
      call (configure_velocity_mode fuel current_limit_a acceleration_rad)
      run_profile fuel velocity_profile (λ target. call (send_velocity_command fuel target))
          (pure tt)
      call (send_velocity_command fuel (of_ℕ 0))
      call (disable fuel false)
      pure tt

    -- The filtered current is read in every cycle, for the column `iq`.
    unfoldable pub put_iq : P D W (Recording D) (Unit {0})
    put_iq = do iq ← call (read_param_float fuel Params.iq_filtered); put (put_cell (widen iq))

    unfoldable pub capture_current : P D W (Recording D) (Unit {0})
    capture_current = do
      call (set_run_mode fuel RunMode.current)
      call (enable fuel)
      run_profile fuel current_profile
          (λ target. call (write_param_float fuel Params.iq_ref (narrow target))) put_iq
      call (write_param_float fuel Params.iq_ref 0)
      call (disable fuel false)
      pure tt

    unfoldable pub capture_position : P D W (Recording D) (Unit {0})
    capture_position = do
      call (set_run_mode fuel RunMode.position_csp)
      call (set_mechanical_zero fuel)
      call (enable fuel)
      call (write_param_float fuel Params.limit_spd (narrow csp_speed_limit))
      run_profile fuel position_profile
          (λ target. call (write_param_float fuel Params.loc_ref (narrow target))) (pure tt)
      call (disable fuel false)
      pure tt

    unfoldable pub capture_pp : P D W (Recording D) (Unit {0})
    capture_pp = do
      call (set_run_mode fuel RunMode.position_pp)
      call (set_mechanical_zero fuel)
      call (enable fuel)
      call (write_param_float fuel Params.vel_max (narrow pp_vel_max))
      call (write_param_float fuel Params.acc_set (narrow pp_acc_set))
      run_profile fuel pp_profile
          (λ target. call (write_param_float fuel Params.loc_ref (narrow target))) (pure tt)
      call (disable fuel false)
      pure tt

    unfoldable pub capture_operation : D → D → P D W (Recording D) (Unit {0})
    capture_operation kp kd = do
      call (set_run_mode fuel RunMode.operation_control)
      call (set_mechanical_zero fuel)
      call (enable fuel)
      run_profile fuel operation_profile
          (λ target. call (send_motion_command fuel (of_ℕ 0) target (of_ℕ 0) kp kd)) (pure tt)
      call (disable fuel false)
      pure tt

    abbrev pub run : Capture D → P D W (Recording D) (Unit {0})
    run Capture.velocity = capture_velocity
    run Capture.current = capture_current
    run Capture.position = capture_position
    run Capture.pp = capture_pp
    run (Capture.operation kp kd) = capture_operation kp kd
