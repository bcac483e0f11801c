-- ===== src/Servo/Sequences.antt =====
-- The calls of the driver that are several exchanges, as steps of the abstract motor.
use robstride_driver.Common.{
  ℕ, suc, ◌≡◌, ap, arith, true, false, if◌then◌else◌, ◌==◌, runtime_error,
}
use robstride_driver.Common.Bits.{IsU32}
use robstride_driver.Double.{Double}
use robstride_driver.Protocol.Types.{RunMode, run_mode_value, run_mode_of}
use robstride_driver.Protocol.Params
use robstride_driver.Protocol.Limits.{ActuatorLimits}
use robstride_driver.Motor.Monad.{World, M, ◌>>◌, pure, throw}
use robstride_driver.Protocol.Encode.{make_set_mechanical_zero_frame}
use robstride_driver.Motor.Exchange.{transceive_feedback}
use robstride_driver.Motor.Commands
use robstride_driver.Motor.Simulated.Sessions.{run_mode_value-of}
use robstride_driver.Motor.Simulated.{Bench, stub_can}
use robstride_driver.Servo.{Servo, Command, store, next}
use robstride_driver.Servo.Runs.{Refines, Runs, Runs-pure, Runs-bind}
use robstride_driver.Servo.Calls.{
  Shows, disable-Runs, write_param_float-Runs, write_mode-Runs, get_run_mode-Runs, zero-Runs,
}

module _ {D : Type 0} ⦃d : Double D⦄ where
  open d use {narrow}

  module _ (l : ActuatorLimits D) (fuel : ℕ) where
    -- Two calls, of which the first one's result is not looked at.
    pub then-Runs :
        {A B : Type 0} (m : M D (Bench D) A) (k : M D (Bench D) B) (w : World D (Bench D))
        (P : A → Type 0) (Q : B → Type 0) (s t : Servo)
        → Runs l m w P s
        → ((w' : World D (Bench D)) → Refines l w' s → Runs l k w' Q t)
        → Runs l (m >> k) w Q t
    then-Runs m k w P Q s t runs next_runs =
        Runs-bind l m (λ _. k) w P Q s t runs (λ _ w' _ r. next_runs w' r)

    pub set_mechanical_zero-Runs :
        (w : World D (Bench D)) (s : Servo)
        → Refines l w s
        → Runs l
            (Commands.set_mechanical_zero (suc fuel))
            w
            (λ _. Unit {0})
            (record s { enabled = false })
    unfolding Commands.set_mechanical_zero
    set_mechanical_zero-Runs w s r =
        let off : Servo = record s { enabled = false } in
        then-Runs (Commands.disable (suc fuel) false) _ w _ (λ _. Unit {0}) off off
          (disable-Runs l fuel w s r false)
          λ w' r'.
            then-Runs
              (transceive_feedback (suc fuel)
                (make_set_mechanical_zero_frame w'.motor.config.motor_id w'.motor.config.host_id))
              (pure tt) w' (Shows l off) (λ _. Unit {0}) off off (zero-Runs l fuel w' off r')
              (λ w'' r''. Runs-pure l tt w'' _ off tt r'')

    pub set_run_mode-Runs :
        (mode : RunMode) (w : World D (Bench D)) (s : Servo)
        → Refines l w s
        → Runs l
            (Commands.set_run_mode (suc fuel) mode)
            w
            (λ _. Unit {0})
            (record s { enabled = false; run_mode = run_mode_value mode })
    unfolding Commands.set_run_mode
    set_run_mode-Runs mode w s r =
        let n = run_mode_value mode in
        let off : Servo = record s { enabled = false } in
        let new : Servo = record off { run_mode = n } in
        then-Runs (Commands.disable (suc fuel) false) _ w (Shows l off) (λ _. Unit {0}) off new
          (disable-Runs l fuel w s r false)
          λ w1 r1.
            then-Runs (Commands.write_param_uint8 (suc fuel) Params.run_mode n) _ w1 (Shows l new)
              (λ _. Unit {0}) new new (write_mode-Runs l fuel w1 off r1 mode)
              λ w2 r2.
                Runs-bind l (Commands.get_run_mode (suc fuel))
                  (λ actual. if run_mode_value actual == n then pure tt else throw runtime_error) w2
                  (λ m. m ≡ run_mode_of n) _ new new (get_run_mode-Runs l fuel w2 new r2)
                  λ actual w3 e r3.
                    let same : (run_mode_value actual == n) ≡ true =
                      ground (arith, ap run_mode_value e, run_mode_value-of n) in
                    rw same (Runs-pure l tt w3 (λ _. Unit {0}) new tt r3)

    pub configure-Runs :
        (a b : D) (w : World D (Bench D)) (s : Servo)
        → IsU32 (narrow a)
        → IsU32 (narrow b)
        → Refines l w s
        → Runs l
            (Commands.configure_velocity_mode (suc fuel) a b)
            w
            (λ _. Unit {0})
            (next (Command.configure_velocity_mode a b) s)
    unfolding Commands.configure_velocity_mode
    configure-Runs a b w s ha hb r =
        let one = store Params.limit_cur (narrow a) s in
        let two = store Params.acc_rad (narrow b) one in
        then-Runs (Commands.write_param_float (suc fuel) Params.limit_cur (narrow a)) _ w
          (Shows l one) (λ _. Unit {0}) one two
          (write_param_float-Runs l fuel w s r Params.limit_cur (narrow a) (omega arith) ha
            (ground arith))
          λ w1 r1.
            then-Runs (Commands.write_param_float (suc fuel) Params.acc_rad (narrow b)) (pure tt) w1
              (Shows l two) (λ _. Unit {0}) two two
              (write_param_float-Runs l fuel w1 one r1 Params.acc_rad (narrow b) (omega arith) hb
                (ground arith))
              λ w2 r2. Runs-pure l tt w2 (λ _. Unit {0}) two tt r2

    pub csp-Runs :
        (a b : D) (w : World D (Bench D)) (s : Servo)
        → IsU32 (narrow a)
        → IsU32 (narrow b)
        → Refines l w s
        → let s' = next (Command.send_position_csp_command a b) s in
          Runs l (Commands.send_position_csp_command (suc fuel) a b) w (Shows l s') s'
    unfolding Commands.send_position_csp_command
    csp-Runs a b w s ha hb r =
        let one = store Params.limit_spd (narrow b) s in
        let two = store Params.loc_ref (narrow a) one in
        then-Runs (Commands.write_param_float (suc fuel) Params.limit_spd (narrow b)) _ w
          (Shows l one) (Shows l two) one two
          (write_param_float-Runs l fuel w s r Params.limit_spd (narrow b) (omega arith) hb
            (ground arith))
          λ w1 r1.
            write_param_float-Runs l fuel w1 one r1 Params.loc_ref (narrow a) (omega arith) ha
              (ground arith)
