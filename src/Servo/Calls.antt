-- ===== src/Servo/Calls.antt =====
-- Each call of the driver that is one exchange, over the simulated bus, as a step of the abstract
-- motor.
use robstride_driver.Common.{
  some, ℕ, suc, ◌≡◌, ◌≢◌, ◌∙◌, refl, sym, ap, arith, Bool, true, false, if◌then◌else◌, ok, finished,
}
use mathlib.Core.Path.{subst}
use robstride_driver.Common.Bits.{IsU16, IsU32}
use robstride_driver.Double.{Double}
use robstride_driver.Protocol.Types.{Feedback, RunMode, run_mode_value, run_mode_of, as_float}
use robstride_driver.Protocol.Params
use robstride_driver.Protocol.Limits.{ActuatorLimits}
use robstride_driver.Stub.{MotorState}
use robstride_driver.Motor.Monad.{World, M}
use robstride_driver.Protocol.Encode.{make_set_mechanical_zero_frame}
use robstride_driver.Motor.Exchange.{transceive_feedback}
use robstride_driver.Motor.Commands.{
  send_motion_command, enable, disable, write_param_float, write_param_uint8, read_param_float,
  read_param_uint8, get_run_mode,
}
use robstride_driver.Motor.Simulated.{Bench, stub_can}
use robstride_driver.Motor.Simulated.Feedbacks.{
  state_of, reported, settled, reported_to, settled_to, settled_to-IsReady, state_of-settled_to,
  send_motion_command-settled, advanced, stopped, float_written, uint8_written, enable-settled,
  disable-settled, zero-settled, write_param_float-settled, write_param_uint8-settled,
}
use robstride_driver.Motor.Simulated.Sessions.{
  after_read, after_read-IsReady, state_of-after_read, parameter, transceive_param-stub,
}
use robstride_driver.Motor.Simulated.Readings.{parameter_float}
use robstride_driver.Servo.{Servo, store, status_of, feedback_status}
use robstride_driver.Servo.Abstracts.{
  Abstracts, advance-Abstracts, write_float-Abstracts, write_mode-Abstracts,
  feedback_status-reported,
}
use robstride_driver.Servo.Runs.{Refines, Runs, Later-set}

module _ {D : Type 0} ⦃d : Double D⦄ (l : ActuatorLimits D) where
  -- The property that all feedback has: it shows the status.
  abbrev pub Shows : Servo → Feedback D → Type 0
  Shows s fb = feedback_status fb ≡ status_of l.velocity s

  settled_to-Runs :
      (host : ℕ) (m : M D (Bench D) (Feedback D)) (w : World D (Bench D)) (t : MotorState D)
      (s s' : Servo)
      → m w ≡ (finished (ok (reported_to host t w)), settled_to host t w)
      → Refines l w s
      → Abstracts t s'
      → Runs l m w (Shows s') s'
  settled_to-Runs host m w t s s' e r a =
      let shown =
        feedback_status-reported w.motor.config.motor_id host t s' w.bus.stub w.motor.limits a in
      (
        reported_to host t w,
        settled_to host t w,
        e,
        shown ∙ ap (λ (k : ActuatorLimits D). status_of k.velocity s') r.limits,
        record {
          ready = settled_to-IsReady host t w r.ready;
          limits = r.limits;
          abstracts = subst (λ u. Abstracts u s') (sym (state_of-settled_to host t w)) a;
        },
        Later-set (some (reported_to host t w)) t w,
      )

  settled-Runs :
      (m : M D (Bench D) (Feedback D)) (w : World D (Bench D)) (t : MotorState D) (s s' : Servo)
      → m w ≡ (finished (ok (reported t w)), settled t w)
      → Refines l w s
      → Abstracts t s'
      → Runs l m w (Shows s') s'
  settled-Runs m w = settled_to-Runs w.motor.config.host_id m w

  module _ (fuel : ℕ) (w : World D (Bench D)) (s : Servo) (r : Refines l w s) where
    current : Abstracts (advanced fuel w r.ready) s
    current = advance-Abstracts (w.bus.clock w.bus.tick) (state_of w) s r.abstracts

    pub enable-Runs :
        let s' = record s { enabled = true } in Runs l (enable (suc fuel)) w (Shows s') s'
    enable-Runs =
        settled-Runs (enable (suc fuel)) w (record (advanced fuel w r.ready) { enabled = true }) s _
          (enable-settled fuel w r.ready) r
          (record {
            enabled = refl;
            run_mode = current.run_mode;
            fault_bits = current.fault_bits;
            memory = current.memory;
            patterns = current.patterns;
          })

    pub motion-Runs :
        (torque position velocity kp kd : D)
        → Runs l (send_motion_command (suc fuel) torque position velocity kp kd) w (Shows s) s
    motion-Runs torque position velocity kp kd =
        settled_to-Runs _ (send_motion_command (suc fuel) torque position velocity kp kd) w
          (advanced fuel w r.ready) s s
          (send_motion_command-settled fuel w r.ready torque position velocity kp kd) r current

    pub disable-Runs :
        (clear_fault : Bool)
        → let s' = record s {
          enabled = false;
          fault_bits = if clear_fault then 0 else s.fault_bits;
        } in
          Runs l (disable (suc fuel) clear_fault) w (Shows s') s'
    disable-Runs true =
        settled-Runs (disable (suc fuel) true) w (stopped fuel w r.ready true) s _
          (disable-settled fuel w r.ready true) r
          (record {
            enabled = refl;
            run_mode = current.run_mode;
            fault_bits = refl;
            memory = current.memory;
            patterns = current.patterns;
          })
    disable-Runs false =
        settled-Runs (disable (suc fuel) false) w (stopped fuel w r.ready false) s _
          (disable-settled fuel w r.ready false) r
          (record {
            enabled = refl;
            run_mode = current.run_mode;
            fault_bits = current.fault_bits;
            memory = current.memory;
            patterns = current.patterns;
          })

    pub write_param_float-Runs :
        (index v : ℕ)
        → IsU16 index
        → IsU32 v
        → index ≢ Params.run_mode
        → Runs l
            (write_param_float (suc fuel) index v)
            w
            (Shows (store index v s))
            (store index v s)
    write_param_float-Runs index v hi hv ne =
        settled-Runs (write_param_float (suc fuel) index v) w
          (float_written fuel w r.ready index hi v) s _
          (write_param_float-settled fuel w r.ready index hi v) r
          (write_float-Abstracts w.motor.config.motor_id w.motor.config.host_id index v
            w.bus.stub.limits (advanced fuel w r.ready) s hv ne current)

    pub write_mode-Runs :
        (mode : RunMode)
        → let s' = record s { run_mode = run_mode_value mode } in
          Runs l
            (write_param_uint8 (suc fuel) Params.run_mode (run_mode_value mode))
            w
            (Shows s')
            s'
    write_mode-Runs mode =
        settled-Runs (write_param_uint8 (suc fuel) Params.run_mode (run_mode_value mode)) w
          (uint8_written fuel w r.ready Params.run_mode (omega arith) (run_mode_value mode)) s _
          (write_param_uint8-settled fuel w r.ready Params.run_mode (omega arith)
            (run_mode_value mode))
          r
          (write_mode-Abstracts w.motor.config.motor_id w.motor.config.host_id mode
            w.bus.stub.limits (advanced fuel w r.ready) s current)

    after_read-Refines : Refines l (after_read w) s
    after_read-Refines = record {
      ready = after_read-IsReady w r.ready;
      limits = r.limits;
      abstracts = subst (λ u. Abstracts u s) (sym (state_of-after_read w)) r.abstracts;
    }

    pub read_param_float-Runs :
        (index : ℕ)
        → IsU16 index
        → index ≢ Params.run_mode
        → Runs l (read_param_float (suc fuel) index) w (λ v. v ≡ s.memory index) s
    unfolding read_param_float
    read_param_float-Runs index hi ne =
        let value = parameter w.motor.config.motor_id (state_of w) index in
        (
          as_float value.value,
          after_read w,
          rw (transceive_param-stub fuel w r.ready index hi),
          parameter_float w.motor.config.motor_id index (s.memory index) (state_of w)
              (r.abstracts.patterns index) ne (r.abstracts.memory index ne),
          after_read-Refines,
          Later-set w.motor.last_feedback (state_of w) w,
        )

    pub get_run_mode-Runs : Runs l (get_run_mode (suc fuel)) w (λ m. m ≡ run_mode_of s.run_mode) s
    unfolding get_run_mode read_param_uint8
    get_run_mode-Runs = (
      run_mode_of (state_of w).run_mode,
      after_read w,
      rw (transceive_param-stub fuel w r.ready Params.run_mode (omega arith)),
      ap run_mode_of r.abstracts.run_mode,
      after_read-Refines,
      Later-set w.motor.last_feedback (state_of w) w,
    )

    pub zero-Runs :
        Runs l
          (transceive_feedback
            (suc fuel)
            (make_set_mechanical_zero_frame w.motor.config.motor_id w.motor.config.host_id))
          w
          (Shows s)
          s
    zero-Runs =
        settled-Runs
          (transceive_feedback (suc fuel)
            (make_set_mechanical_zero_frame w.motor.config.motor_id w.motor.config.host_id))
          w (record (advanced fuel w r.ready) { position = d.of_ℕ 0 }) s s
          (zero-settled fuel w r.ready) r
          (record {
            enabled = current.enabled;
            run_mode = current.run_mode;
            fault_bits = current.fault_bits;
            memory = current.memory;
            patterns = current.patterns;
          })
