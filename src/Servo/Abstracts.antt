-- ===== src/Servo/Abstracts.antt =====
-- How a simulated motor's state stands for an abstract one.
use robstride_driver.Common.{ℕ, ◌%◌, ◌≡◌, ◌≢◌, ◌∙◌, refl, arith, Bool, true, false, if◌then◌else◌}
use robstride_driver.Common.Bits.{IsU32}
use robstride_driver.Double.{Double}
use robstride_driver.Protocol.Types.{
  MotorMode, motor_mode_value, motor_mode_of, RunMode, run_mode_value,
}
use robstride_driver.Protocol.Params
use robstride_driver.Protocol.Limits.{ActuatorLimits}
use robstride_driver.Protocol.RoundTrip.Feedback.{transmitted}
use robstride_driver.Stub.{Stub, MotorState}
use robstride_driver.Stub
use robstride_driver.Stub.Commands.{float_request, uint8_request}
use robstride_driver.Stub.Writes.{
  written_fields, written_rest, feedback_of_lem, param_or_zero-insert_lem,
}
use robstride_driver.Servo.{Servo, store, status_of, feedback_status}

decoded_mode :
    (b : Bool)
    → let mode = if b then MotorMode.run else MotorMode.reset in
      motor_mode_of (motor_mode_value mode % 4) ≡ mode
decoded_mode true = refl
decoded_mode false = refl

module _ {D : Type 0} ⦃d : Double D⦄ where
  pub record Abstracts (t : MotorState D) (s : Servo) : Type 0 where
    pub enabled : t.enabled ≡ s.enabled
    pub run_mode : t.run_mode ≡ s.run_mode
    pub fault_bits : t.fault_bits ≡ s.fault_bits
    pub memory : (i : ℕ) → i ≢ Params.run_mode → Stub.param_or_zero t.params i ≡ s.memory i
    pub patterns : (i : ℕ) → IsU32 (s.memory i)

  pub advance-Abstracts :
      (now : ℕ) (t : MotorState D) (s : Servo) → Abstracts t s → Abstracts (Stub.advance now t) s
  unfolding Stub.advance
  advance-Abstracts now t s a = record {
    enabled = a.enabled;
    run_mode = a.run_mode;
    fault_bits = a.fault_bits;
    memory = a.memory;
    patterns = a.patterns;
  }

  pub write_float-Abstracts :
      (id host index w : ℕ) (limits : ActuatorLimits D) (t : MotorState D) (s : Servo)
      → IsU32 w
      → index ≢ Params.run_mode
      → Abstracts t s
      → Abstracts (Stub.write_state (float_request id host index w) limits t) (store index w s)
  write_float-Abstracts id host index w limits t s h ne a =
      let fields = written_fields id host index w t limits h ne in
      let rest = written_rest id host index w t limits h ne in
      record {
        enabled = fields.2 ∙ a.enabled;
        run_mode = fields.1 ∙ a.run_mode;
        fault_bits = rest.1 ∙ a.fault_bits;
        memory =
            λ i other. rw (rest.0, param_or_zero-insert_lem index i w t.params, a.memory i other);
        patterns = λ i. ground (arith, a.patterns i);
      }

  pub write_mode-Abstracts :
      (id host : ℕ) (mode : RunMode) (limits : ActuatorLimits D) (t : MotorState D) (s : Servo)
      → Abstracts t s
      → Abstracts
          (Stub.write_state (uint8_request id host Params.run_mode (run_mode_value mode)) limits t)
          (record s { run_mode = run_mode_value mode })
  unfolding Stub.write_state
  write_mode-Abstracts id host mode limits t s a = record {
    enabled = a.enabled;
    run_mode = refl;
    fault_bits = a.fault_bits;
    memory = a.memory;
    patterns = a.patterns;
  }

  -- The driver decodes the status of the abstract motor.
  pub feedback_status-reported :
      (id host : ℕ) (t : MotorState D) (s : Servo) (stub : Stub D) (limits : ActuatorLimits D)
      → Abstracts t s
      → feedback_status (transmitted (Stub.feedback_of id host t stub) limits)
        ≡ status_of limits.velocity s
  feedback_status-reported id host t s stub limits a =
      let parts = feedback_of_lem id host t stub in
      rw (
        parts.0,
        parts.1,
        parts.2,
        a.enabled,
        a.run_mode,
        a.fault_bits,
        a.memory Params.spd_ref (ground arith),
        decoded_mode s.enabled,
      )
