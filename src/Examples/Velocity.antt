-- ===== src/Examples/Velocity.antt =====
-- examples/velocity_control.cpp, from the first call of the driver on: the motor turns at a velocity
-- for a time, and its feedback is printed.
use robstride_driver.Common.{
  ℕ, ◌+◌, ◌-◌, ◌*◌, false, ltb, if◌then◌else◌, List, [], ◌∷◌, ◌++◌, Option, none, some,
}
use robstride_driver.Common.Int.{ℤ, pos_part, neg_part}
use robstride_driver.Double.{Double}
use robstride_driver.Protocol.Types.{Feedback, RunMode, any}
use robstride_driver.Motor.Monad.{CanInterface, ◌>>=◌, ◌>>◌, pure, on_clock}
use robstride_driver.Motor.Commands.{
  enable, disable, set_run_mode, configure_velocity_mode, send_velocity_command,
}
use robstride_driver.Examples.Process.{Thread, P, call, put, rest, while}

-- The numbers of a line that `print_feedback` prints, with the fault bits if there are any.
pub record Line (D : Type 0) : Type 0 where
  pub pos : D
  pub vel : D
  pub torque : D
  pub temp : D
  pub fault : Option ℕ

-- `now + std::chrono::milliseconds(count)`, in nanoseconds. A time before the start of the clock,
-- which is before `now` in any case, is its start.
abbrev pub later_by : ℤ → ℕ → ℕ
later_by count now = now + pos_part count * 1000000 - neg_part count * 1000000

module _ {D : Type 0} ⦃d : Double D⦄ where
  open d use {of_ℕ, mul, to_int}

  unfoldable pub print_feedback : Feedback D → Line D
  print_feedback fb = record {
    pos = fb.position;
    vel = fb.velocity;
    torque = fb.torque;
    temp = fb.temperature;
    fault = if any fb.fault then some fb.fault.raw else none;
  }

  module _ {W : Type 0} ⦃can : CanInterface W⦄ ⦃thread : Thread W⦄ (fuel : ℕ) (velocity : D) where
    unfoldable pub run_once : P D W (List (Line D)) (Unit {0})
    run_once = do
      feedback ← call (send_velocity_command fuel velocity)
      put (λ lines. lines ++ print_feedback feedback ∷ [])
      rest (thread.sleep_for 100_000_000)

    unfoldable pub velocity_control : D → P D W (List (Line D)) (Unit {0})
    velocity_control duration_s = do
      call (set_run_mode fuel RunMode.velocity)
      call (enable fuel)
      call (configure_velocity_mode fuel (of_ℕ 10) (of_ℕ 20))
      start ← call (on_clock can.now)
      let end = later_by (to_int (mul duration_s (of_ℕ 1000))) start
      while fuel (do now ← call (on_clock can.now); pure (ltb now end)) run_once
      call (send_velocity_command fuel (of_ℕ 0))
      call (disable fuel false)
      pure tt
