-- ===== src/Tests/Drive.antt =====
-- Sessions of the driver over the simulated bus.
use robstride_driver.Common.{◌≡◌, refl, arith, [], ◌∷◌, true, ok, finished}
use robstride_driver.Common.Int.{pos}
use robstride_driver.Common.Assoc.{find}
use robstride_driver.Double.Micro.{Micro, micro_double}
use robstride_driver.Protocol.Types.{Feedback, RunMode, run_mode_value}
use robstride_driver.Protocol.Params
use robstride_driver.Protocol.RoundTrip.Feedback.{quantised}
use robstride_driver.Stub.{MotorState}
use robstride_driver.Stub
use robstride_driver.Motor.Monad.{World, ◌>>◌}
use robstride_driver.Motor.Commands.{
  enable, set_run_mode, send_velocity_command, send_position_csp_command, write_param_float,
  read_param_float,
}
use robstride_driver.Motor.Simulated.{Bench, stub_can}
use robstride_driver.Motor.Simulated.Feedbacks.{IsReady, state_of, settled, float_written}
use robstride_driver.Motor.Simulated.Sessions.{after_read}
use robstride_driver.Motor.Simulated.Readings.{
  IsMoving, velocity_session, read_param_float-write_param_float,
}
use robstride_driver.Motor.Simulated.Positions.{reached, send_position_csp_command-stub}
use robstride_driver.Tests.Data.{driver}

-- The driver of a motor that is enabled in a mode, at 13 radians.
abbrev running : RunMode → World Micro (Bench Micro)
running mode = record driver {
  bus = record (driver.bus) {
    stub = record (driver.bus.stub) {
      motors =
          (
            1,
            record {
              enabled = true;
              run_mode = run_mode_value mode;
              position = pos 13_000_000;
              fault_bits = 0;
              params = [];
              last_update = 0;
              has_last_update = true;
            },
          )
          ∷ [];
    };
  };
}

IsReady-driver : IsReady driver
IsReady-driver = record {
  idle = refl;
  on_time = λ k. omega arith;
  motor_byte = omega arith;
  host_byte = omega arith;
  scaled_alike = refl;
}

IsReady-running : (mode : RunMode) → IsReady (running mode)
IsReady-running mode = record {
  idle = refl;
  on_time = λ k. omega arith;
  motor_byte = omega arith;
  host_byte = omega arith;
  scaled_alike = refl;
}

velocity_session_example :
    (fb : Feedback Micro) × (w' : World Micro (Bench Micro)) × ((set_run_mode 1 RunMode.velocity
          >> (enable 1 >> send_velocity_command 1 (pos 2_500_000)))
        driver
      ≡ (finished (ok fb), w'))
    × IsMoving driver (pos 2_500_000) fb w'
velocity_session_example = velocity_session 0 driver (pos 2_500_000) IsReady-driver (omega arith)

send_position_csp_command-stub_example :
    let w = running RunMode.position_csp in
    let target = reached (state_of w).position 4_000_000 w.motor.limits.position in
    (fb : Feedback Micro) × (w' : World Micro (Bench Micro)) × (send_position_csp_command 1
        (pos 4_000_000)
        (pos 1_000_000)
        w
      ≡ (finished (ok fb), w'))
    × IsReady w'
    × ((state_of w').position ≡ target)
    × (fb.position
        ≡ quantised
            (micro_double.remainder target
              (micro_double.mul (micro_double.of_ℕ 2) w.motor.limits.position))
            w.motor.limits.position)
unfolding Stub.motor find
send_position_csp_command-stub_example =
    send_position_csp_command-stub 0 (running RunMode.position_csp) (pos 4_000_000) (pos 1_000_000)
      (IsReady-running RunMode.position_csp) (omega arith) (omega arith) refl refl

read_param_float-write_param_float_example :
    (write_param_float 1 Params.limit_spd 0x40200000 >> read_param_float 1 Params.limit_spd) driver
    ≡ (
      finished (ok 0x40200000),
      after_read (
          settled
            (float_written 0 driver IsReady-driver Params.limit_spd (omega arith) 0x40200000)
            driver),
    )
read_param_float-write_param_float_example =
    read_param_float-write_param_float 0 driver IsReady-driver Params.limit_spd 0x40200000
      (omega arith) (omega arith) (ground arith)
