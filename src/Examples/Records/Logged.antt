-- ===== src/Examples/Records/Logged.antt =====
-- The capture programs without a file: the calls of the driver, with a log of what they answered.
use robstride_driver.Common.{ℕ, ◌+◌, false, List, [], ◌∷◌}
use robstride_driver.Double.{Double}
use robstride_driver.Protocol.Types.{Feedback, RunMode}
use robstride_driver.Protocol.Params
use robstride_driver.Motor.Monad.{CanInterface, M, ◌>>=◌, ◌>>◌, pure, on_clock}
use robstride_driver.Motor.Commands.{
  enable, disable, set_run_mode, set_mechanical_zero, configure_velocity_mode,
  send_velocity_command, send_motion_command, write_param_float, read_param_float,
}
use robstride_driver.Examples.Process.{Thread, P, call, put, rest, while}
use robstride_driver.Examples.Profile.{Segment}
use robstride_driver.Examples.Captures.{
  Capture, current_limit_a, acceleration_rad, csp_speed_limit, pp_vel_max, pp_acc_set,
  velocity_profile, current_profile, position_profile, pp_profile, operation_profile,
}
use robstride_driver.Examples.Records.{Item, Log, note, end_line}

module _ {D : Type 0} ⦃d : Double D⦄ where
  open d use {of_ℕ, add, lt, seconds, narrow, widen}

  abbrev pub profile_of : Capture D → List (Segment D)
  profile_of Capture.velocity = velocity_profile
  profile_of Capture.current = current_profile
  profile_of Capture.position = position_profile
  profile_of Capture.pp = pp_profile
  profile_of (Capture.operation kp kd) = operation_profile

  module _ {W : Type 0} ⦃can : CanInterface W⦄ where
    abbrev pub log_seconds : ℕ → P D W (Log D) D
    log_seconds start = do now ← call (on_clock can.now); pure (seconds start now)

  module _ {W : Type 0} ⦃can : CanInterface W⦄ (fuel : ℕ) where
    -- The command of a cycle.
    abbrev pub order : Capture D → D → M D W (Feedback D)
    order Capture.velocity target = send_velocity_command fuel target
    order Capture.current target = write_param_float fuel Params.iq_ref (narrow target)
    order Capture.position target = write_param_float fuel Params.loc_ref (narrow target)
    order Capture.pp target = write_param_float fuel Params.loc_ref (narrow target)
    order (Capture.operation kp kd) target = send_motion_command fuel (of_ℕ 0) target (of_ℕ 0) kp kd

    -- The calls before and after the cycles.
    abbrev pub around : {O : Type 0} → Capture D → P D W O (Unit {0}) → P D W O (Unit {0})
    around Capture.velocity cycles = do
      call (set_run_mode fuel RunMode.velocity)
      call (enable fuel)
      call (configure_velocity_mode fuel current_limit_a acceleration_rad)
      cycles
      call (send_velocity_command fuel (of_ℕ 0))
      call (disable fuel false)
      pure tt
    around Capture.current cycles = do
      call (set_run_mode fuel RunMode.current)
      call (enable fuel)
      cycles
      call (write_param_float fuel Params.iq_ref 0)
      call (disable fuel false)
      pure tt
    around Capture.position cycles = do
      call (set_run_mode fuel RunMode.position_csp)
      call (set_mechanical_zero fuel)
      call (enable fuel)
      call (write_param_float fuel Params.limit_spd (narrow csp_speed_limit))
      cycles
      call (disable fuel false)
      pure tt
    around Capture.pp cycles = do
      call (set_run_mode fuel RunMode.position_pp)
      call (set_mechanical_zero fuel)
      call (enable fuel)
      call (write_param_float fuel Params.vel_max (narrow pp_vel_max))
      call (write_param_float fuel Params.acc_set (narrow pp_acc_set))
      cycles
      call (disable fuel false)
      pure tt
    around (Capture.operation kp kd) cycles = do
      call (set_run_mode fuel RunMode.operation_control)
      call (set_mechanical_zero fuel)
      call (enable fuel)
      cycles
      call (disable fuel false)
      pure tt

    -- The extra column shows the filtered current.
    abbrev pub log_extra : Capture D → P D W (Log D) (Unit {0})
    log_extra Capture.current = do
      iq ← call (read_param_float fuel Params.iq_filtered)
      put (note (Item.extra (widen iq)))
    log_extra _ = pure tt

    module _ ⦃thread : Thread W⦄ (c : Capture D) where
      abbrev pub log_cycle : ℕ → D → P D W (Log D) (Unit {0})
      log_cycle start target = do
        now ← call (on_clock can.now)
        feedback ← call (order c target)
        elapsed ← log_seconds start
        put (note (Item.measured elapsed target feedback))
        log_extra c
        put end_line
        rest (thread.sleep_until (now + 10_000_000))

      abbrev pub log_segment : ℕ → Segment D → P D W (Log D) (Unit {0})
      log_segment start segment = do
        before ← log_seconds start
        let segment_end = add before segment.duration_s
        while fuel (do now ← log_seconds start; pure (lt now segment_end))
            (log_cycle start segment.target)

      abbrev pub log_segments : ℕ → List (Segment D) → P D W (Log D) (Unit {0})
      log_segments start [] = pure tt
      log_segments start (segment ∷ profile) = do
        log_segment start segment
        log_segments start profile

      abbrev pub log_profile : P D W (Log D) (Unit {0})
      log_profile = do start ← call (on_clock can.now); log_segments start (profile_of c)

      abbrev pub logged : P D W (Log D) (Unit {0})
      logged = around c log_profile
