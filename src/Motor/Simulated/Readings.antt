-- ===== src/Motor/Simulated/Readings.antt =====
-- What the driver reads of values that it wrote, over the simulated bus.
use robstride_driver.Common.{
  ℕ, suc, ◌≡◌, ◌≢◌, ◌∙◌, refl, ap, arith, true, false, some, ok, finished, ◌==◌,
}
use robstride_driver.Common.Bits.{IsU16, IsU32}
use robstride_driver.Double.{Double}
use robstride_driver.Protocol.Types.{Feedback, MotorMode, RunMode, run_mode_value, as_float}
use robstride_driver.Protocol.Params
use robstride_driver.Protocol.Limits.{ActuatorLimits}
use robstride_driver.Protocol.RoundTrip.Words.{as_float-float_bytes}
use robstride_driver.Protocol.RoundTrip.Feedback.{quantised}
use robstride_driver.Stub.{Stub, MotorState}
use robstride_driver.Stub
use robstride_driver.Stub.Writes.{written_fields, advance_fields, feedback_velocity}
use robstride_driver.Motor.Monad.{World, ◌>>◌}
use robstride_driver.Motor.Commands.{
  write_param_float, read_param_float, send_velocity_command, enable, set_run_mode,
}
use robstride_driver.Motor.Simulated.{Bench, stub_can}
use robstride_driver.Motor.Simulated.Feedbacks.{
  IsReady, state_of, reported, settled, settled-IsReady, state_of-settled, advanced, float_written,
  write_param_float-settled, enable-settled,
}
use robstride_driver.Motor.Simulated.Sessions.{
  after_read, parameter, transceive_param-stub, set_run_mode-stub,
}

module _ {D : Type 0} ⦃d : Double D⦄ where
  open d use {of_ℕ, add, sub, mul, remainder, widen, narrow}

  pub parameter_float :
      (id index value : ℕ) (s : MotorState D)
      → IsU32 value
      → index ≢ Params.run_mode
      → Stub.param_or_zero s.params index ≡ value
      → as_float (parameter id s index).value ≡ value
  parameter_float id index value s h ne e =
      let float : (index == Params.run_mode) ≡ false = ground arith in
      rw (float, e) (as_float-float_bytes value h)

  -- What a velocity command in the world `w` returns and leaves.
  abbrev pub IsMoving : World D (Bench D) → D → Feedback D → World D (Bench D) → Type 0
  IsMoving w velocity fb w' =
      IsReady w'
      × (fb.velocity ≡ quantised (widen (narrow velocity)) w.motor.limits.velocity)
      × (fb.mode ≡ MotorMode.run)
      × (w'.motor.last_feedback ≡ some fb)

  module _ (fuel : ℕ) (w : World D (Bench D)) (ready : IsReady w) where
    -- Over a ready simulated bus, a float that is written under an index is what the next read of
    -- that index returns, for a 16-bit index other than the run mode's and a pattern of 32 bits.
    pub read_param_float-write_param_float :
        (index value : ℕ) (hi : IsU16 index)
        → IsU32 value
        → index ≢ Params.run_mode
        → (write_param_float (suc fuel) index value >> read_param_float (suc fuel) index) w ≡ (
          finished (ok value),
          after_read (settled (float_written fuel w ready index hi value) w),
        )
    unfolding read_param_float
    read_param_float-write_param_float index value hi h ne =
        let s = float_written fuel w ready index hi value in
        let after = settled s w in
        let request =
          (written_fields w.motor.config.motor_id w.motor.config.host_id index value
            (advanced fuel w ready) w.bus.stub.limits h ne).0 in
        let held : Stub.param_or_zero (state_of after).params index ≡ value =
          rw (state_of-settled s w) request in
        rw (
          write_param_float-settled fuel w ready index hi value,
          transceive_param-stub fuel after (settled-IsReady s w ready) index hi,
          parameter_float w.motor.config.motor_id index value (state_of after) h ne held,
        )

    -- Over a ready simulated bus with the motor enabled in velocity mode, a velocity command
    -- returns that the motor runs, at the 16-bit form of the given velocity as a float, which is
    -- the cached feedback too, and leaves the bus ready. The velocity's float pattern has 32 bits.
    pub send_velocity_command-stub :
        (velocity : D)
        → IsU32 (narrow velocity)
        → (state_of w).enabled ≡ true
        → (state_of w).run_mode ≡ run_mode_value RunMode.velocity
        → (fb : Feedback D) × (w' : World D (Bench D)) × (send_velocity_command
              (suc fuel)
              velocity
              w
            ≡ (finished (ok fb), w'))
          × IsMoving w velocity fb w'
    unfolding send_velocity_command
    send_velocity_command-stub velocity h on mode =
        let id = w.motor.config.motor_id in
        let host = w.motor.config.host_id in
        let hi : IsU16 Params.spd_ref = omega arith in
        let value = narrow velocity in
        let s = float_written fuel w ready Params.spd_ref hi value in
        let before = advance_fields (w.bus.clock w.bus.tick) (state_of w) in
        let fields =
          written_fields id host Params.spd_ref value (advanced fuel w ready) w.bus.stub.limits h
            (ground arith) in
        let moving =
          feedback_velocity id host s w.bus.stub (fields.2 ∙ before.1 ∙ on)
            (fields.1 ∙ before.0 ∙ mode) in
        let speed : Feedback.velocity (Stub.feedback_of id host s w.bus.stub) ≡ widen value =
          moving.0 ∙ ap widen fields.0 in
        (
          reported s w,
          settled s w,
          write_param_float-settled fuel w ready Params.spd_ref hi value,
          (settled-IsReady s w ready, rw speed, rw moving.1, refl),
        )

  -- Over a ready simulated bus, whatever its motor did before, the calls set_run_mode to velocity,
  -- enable and send_velocity_command succeed one after another. The last returns that the motor
  -- runs, at the 16-bit form of the given velocity as a float, which is the cached feedback too,
  -- and leaves the bus ready. The velocity's float pattern has 32 bits.
  pub velocity_session :
      (fuel : ℕ) (w : World D (Bench D)) (velocity : D)
      → IsReady w
      → IsU32 (narrow velocity)
      → (fb : Feedback D) × (w' : World D (Bench D)) × ((set_run_mode (suc fuel) RunMode.velocity
              >> (enable (suc fuel) >> send_velocity_command (suc fuel) velocity))
            w
          ≡ (finished (ok fb), w'))
        × IsMoving w velocity fb w'
  velocity_session fuel w velocity ready h =
      let (w1, set, (ready1, mode1, _, _, limits1)) =
        set_run_mode-stub fuel RunMode.velocity w ready in
      let s1 : MotorState D = record (advanced fuel w1 ready1) { enabled = true } in
      let w2 = settled s1 w1 in
      let state2 = state_of-settled s1 w1 in
      let before = advance_fields (w1.bus.clock w1.bus.tick) (state_of w1) in
      let (fb, w3, sent, (ready3, speed, runs, latest)) =
        send_velocity_command-stub fuel w2 (settled-IsReady s1 w1 ready1) velocity h
          (ap (λ (s : MotorState D). s.enabled) state2)
          (ap (λ (s : MotorState D). s.run_mode) state2 ∙ before.0 ∙ mode1) in
      (
        fb,
        w3,
        rw (set, enable-settled fuel w1 ready1, sent),
        (
          ready3,
          speed
              ∙ ap (λ (l : ActuatorLimits D). quantised (widen (narrow velocity)) l.velocity)
                  limits1,
          runs,
          latest,
        ),
      )
