-- ===== src/Motor/Simulated/Positions.antt =====
-- Position commands of the driver over the simulated bus.
use robstride_driver.Common.{ℕ, suc, ◌≡◌, ◌∙◌, ap, arith, true, ok, finished}
use robstride_driver.Common.Bits.{IsU32}
use robstride_driver.Double.{Double}
use robstride_driver.Protocol.Types.{Feedback, RunMode, run_mode_value}
use robstride_driver.Protocol.Params
use robstride_driver.Protocol.Limits.{ActuatorLimits}
use robstride_driver.Protocol.RoundTrip.Feedback.{quantised}
use robstride_driver.Stub.{Stub, MotorState}
use robstride_driver.Stub
use robstride_driver.Stub.Writes.{
  written_fields, written_target, advance_fields, advance_position, written_position,
  feedback_position,
}
use robstride_driver.Motor.Monad.{World}
use robstride_driver.Motor.Commands.{send_position_csp_command}
use robstride_driver.Motor.Simulated.{Bench, stub_can}
use robstride_driver.Motor.Simulated.Feedbacks.{
  IsReady, state_of, reported, settled, settled-IsReady, state_of-settled, advanced, float_written,
  write_param_float-settled,
}

module _ {D : Type 0} ⦃d : Double D⦄ where
  open d use {of_ℕ, add, sub, mul, remainder, widen, narrow}

  -- The continuous position nearest to `p` whose wrapped form is that of the target.
  abbrev pub reached : D → ℕ → D → D
  reached p target limit = add p (remainder (sub (widen target) p) (mul (of_ℕ 2) limit))

  -- The two exchanges of the command: the speed limit, and then the target.
  module _ (fuel : ℕ) (w : World D (Bench D)) (ready : IsReady w) (target limit : ℕ)
      (ht : IsU32 target) (hl : IsU32 limit) (on : (state_of w).enabled ≡ true)
      (csp : (state_of w).run_mode ≡ run_mode_value RunMode.position_csp) where
    abbrev id : ℕ
    id = w.motor.config.motor_id

    abbrev host : ℕ
    host = w.motor.config.host_id

    abbrev limited : MotorState D
    limited = float_written fuel w ready Params.limit_spd (omega arith) limit

    abbrev limited_world : World D (Bench D)
    limited_world = settled limited w

    limited_ready : IsReady limited_world
    limited_ready = settled-IsReady limited w ready

    -- After the first exchange the motor still runs in position mode, where it was.
    limited_fields :
        ((state_of limited_world).enabled ≡ true)
        × ((state_of limited_world).run_mode ≡ run_mode_value RunMode.position_csp)
        × ((state_of limited_world).position ≡ (state_of w).position)
    limited_fields =
        let now = w.bus.clock w.bus.tick in
        let state = state_of-settled limited w in
        let before = advance_fields now (state_of w) in
        let fields =
          written_fields id host Params.limit_spd limit (advanced fuel w ready) w.bus.stub.limits hl
            (ground arith) in
        let still =
          written_position id host Params.limit_spd limit (advanced fuel w ready) w.bus.stub.limits
            (ground arith) (ground arith) in
        (
          ap (λ (s : MotorState D). s.enabled) state ∙ fields.2 ∙ before.1 ∙ on,
          ap (λ (s : MotorState D). s.run_mode) state ∙ fields.1 ∙ before.0 ∙ csp,
          ap (λ (s : MotorState D). s.position) state
              ∙ still
              ∙ advance_position now (state_of w) csp,
        )

    abbrev final : MotorState D
    final = float_written fuel limited_world limited_ready Params.loc_ref (omega arith) target

    final_position : final.position ≡ reached (state_of w).position target w.motor.limits.position
    final_position =
        let now = limited_world.bus.clock limited_world.bus.tick in
        let before = advance_fields now (state_of limited_world) in
        let start =
          advance_position now (state_of limited_world) limited_fields.1 ∙ limited_fields.2 in
        written_target id host target (advanced fuel limited_world limited_ready)
          limited_world.bus.stub.limits ht (before.1 ∙ limited_fields.0)
          (before.0 ∙ limited_fields.1)
        ∙ ap (λ p. reached p target limited_world.bus.stub.limits.position) start
        ∙ ap (λ (l : ActuatorLimits D). reached (state_of w).position target l.position)
            limited_ready.scaled_alike

    final_wrapped :
        Feedback.position (Stub.feedback_of id host final limited_world.bus.stub)
        ≡ remainder
            (reached (state_of w).position target w.motor.limits.position)
            (mul (of_ℕ 2) w.motor.limits.position)
    final_wrapped =
        feedback_position id host final limited_world.bus.stub
        ∙ ap (λ p. remainder p (mul (of_ℕ 2) limited_world.bus.stub.limits.position)) final_position
        ∙ ap
            (λ (l : ActuatorLimits D).
              remainder (reached (state_of w).position target w.motor.limits.position)
                (mul (of_ℕ 2) l.position))
            limited_ready.scaled_alike

  -- Over a ready simulated bus with the motor enabled in position mode, a position command moves
  -- it to the position that is its old one plus the remainder of the way to the target by the
  -- span, and returns that position, wrapped and in its 16-bit form. The float patterns of the
  -- arguments have 32 bits.
  pub send_position_csp_command-stub :
      (fuel : ℕ) (w : World D (Bench D)) (position speed_limit : D)
      → IsReady w
      → IsU32 (narrow position)
      → IsU32 (narrow speed_limit)
      → (state_of w).enabled ≡ true
      → (state_of w).run_mode ≡ run_mode_value RunMode.position_csp
      → let target = reached (state_of w).position (narrow position) w.motor.limits.position in
        (fb : Feedback D) × (w' : World D (Bench D)) × (send_position_csp_command
            (suc fuel)
            position
            speed_limit
            w
          ≡ (finished (ok fb), w'))
        × IsReady w'
        × ((state_of w').position ≡ target)
        × (fb.position
            ≡ quantised
                (remainder target (mul (of_ℕ 2) w.motor.limits.position))
                w.motor.limits.position)
  unfolding send_position_csp_command
  send_position_csp_command-stub fuel w position speed_limit ready hp hs on csp =
      let target = narrow position in
      let limit = narrow speed_limit in
      let first = limited_world fuel w ready target limit hp hs on csp in
      let first_ready = limited_ready fuel w ready target limit hp hs on csp in
      let last = final fuel w ready target limit hp hs on csp in
      (
        reported last first,
        settled last first,
        rw (
          write_param_float-settled fuel w ready Params.limit_spd (omega arith) limit,
          write_param_float-settled fuel first first_ready Params.loc_ref (omega arith) target,
        ),
        settled-IsReady last first first_ready,
        ap (λ (s : MotorState D). s.position) (state_of-settled last first)
            ∙ final_position fuel w ready target limit hp hs on csp,
        ap (λ q. quantised q w.motor.limits.position)
            (final_wrapped fuel w ready target limit hp hs on csp),
      )
