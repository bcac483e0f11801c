-- ===== src/Servo/Refines.antt =====
-- The driver over the simulated bus implements the abstract motor, command by command.
use robstride_driver.Common.{
  ℕ, suc, ◌≡◌, ◌≢◌, refl, ap, arith, true, false, if◌then◌else◌, List, [], ◌∷◌, All,
}
use robstride_driver.Common.Bits.{IsU16, IsU32}
use robstride_driver.Double.{Double}
use robstride_driver.Protocol.Types.{Feedback, run_mode_value, run_mode_of}
use robstride_driver.Protocol.Params
use robstride_driver.Protocol.Limits.{ActuatorLimits}
use robstride_driver.Motor.Monad.{CanInterface, World, M, ◌>>=◌, ◌>>◌, pure}
use robstride_driver.Motor.Commands
use robstride_driver.Motor.Simulated.{Bench, stub_can}
use robstride_driver.Servo.{
  Servo, Command, Reply, store, next, answer, after, answers, feedback_status, status_of,
}
use robstride_driver.Servo.Runs.{Refines, Runs, Runs-pure, Runs-bind}
use robstride_driver.Servo.Calls.{
  Shows, enable-Runs, motion-Runs, disable-Runs, write_param_float-Runs, read_param_float-Runs,
  get_run_mode-Runs,
}
use robstride_driver.Servo.Sequences.{
  then-Runs, set_mechanical_zero-Runs, set_run_mode-Runs, configure-Runs, csp-Runs,
}

module _ {D W : Type 0} ⦃d : Double D⦄ ⦃can : CanInterface W⦄ where
  abbrev pub show : M D W (Feedback D) → M D W (Reply D)
  show m = do fb ← m; pure (Reply.status (feedback_status fb))

  -- The calls of the driver.
  unfoldable pub perform : ℕ → Command D → M D W (Reply D)
  perform fuel Command.enable = show (Commands.enable fuel)
  perform fuel Command.set_mechanical_zero = Commands.set_mechanical_zero fuel >> pure Reply.done
  perform fuel Command.get_run_mode = do
    mode ← Commands.get_run_mode fuel
    pure (Reply.current_mode mode)
  perform fuel (Command.disable clear_fault) = show (Commands.disable fuel clear_fault)
  perform fuel (Command.set_run_mode mode) = Commands.set_run_mode fuel mode >> pure Reply.done
  perform fuel (Command.write_param index w) = show (Commands.write_param_float fuel index w)
  perform fuel (Command.read_param index) = do
    w ← Commands.read_param_float fuel index
    pure (Reply.value w)
  perform fuel (Command.send_velocity_command velocity) =
      show (Commands.send_velocity_command fuel velocity)
  perform fuel (Command.configure_velocity_mode current_limit acceleration) =
      Commands.configure_velocity_mode fuel current_limit acceleration >> pure Reply.done
  perform fuel (Command.send_position_csp_command position speed_limit) =
      show (Commands.send_position_csp_command fuel position speed_limit)
  perform fuel (Command.send_motion_command torque position velocity kp kd) =
      show (Commands.send_motion_command fuel torque position velocity kp kd)

  unfoldable pub perform_all : ℕ → List (Command D) → M D W (List (Reply D))
  perform_all fuel [] = pure []
  perform_all fuel (c ∷ cs) = do r ← perform fuel c; rs ← perform_all fuel cs; pure (r ∷ rs)

module _ {D : Type 0} ⦃d : Double D⦄ where
  open d use {narrow}

  -- An index has 16 bits and is not the run mode's; a float's pattern has 32 bits.
  abbrev pub IsUsable : Command D → Type 0
  IsUsable (Command.write_param index w) = IsU16 index × IsU32 w × (index ≢ Params.run_mode)
  IsUsable (Command.read_param index) = IsU16 index × (index ≢ Params.run_mode)
  IsUsable (Command.send_velocity_command velocity) = IsU32 (narrow velocity)
  IsUsable (Command.configure_velocity_mode a b) = IsU32 (narrow a) × IsU32 (narrow b)
  IsUsable (Command.send_position_csp_command a b) = IsU32 (narrow a) × IsU32 (narrow b)
  IsUsable _ = Unit

  module _ (l : ActuatorLimits D) (fuel : ℕ) where
    show-Runs :
        (m : M D (Bench D) (Feedback D)) (w : World D (Bench D)) (s : Servo)
        → Runs l m w (Shows l s) s
        → Runs l (show m) w (λ r. r ≡ Reply.status (status_of l.velocity s)) s
    show-Runs m w s runs =
        Runs-bind l m (λ fb. pure (Reply.status (feedback_status fb))) w (Shows l s) _ s s runs
          λ fb w' shown r.
            Runs-pure l (Reply.status (feedback_status fb)) w' _ s (ap Reply.status shown) r

    -- A call whose result is not looked at, and an answer.
    done-Runs :
        {A : Type 0} (m : M D (Bench D) A) (w : World D (Bench D)) (s : Servo)
        → Runs l m w (λ _. Unit {0}) s
        → Runs l (m >> pure Reply.done) w (λ (r : Reply D). r ≡ Reply.done) s
    done-Runs m w s runs =
        then-Runs l fuel m (pure Reply.done) w (λ _. Unit {0}) _ s s runs
          (λ w' r. Runs-pure l Reply.done w' _ s refl r)

    pub perform-Runs :
        (c : Command D) (w : World D (Bench D)) (s : Servo)
        → IsUsable c
        → Refines l w s
        → Runs l (perform (suc fuel) c) w (λ r. r ≡ answer l.velocity c (next c s)) (next c s)
    unfolding perform Commands.send_velocity_command
    perform-Runs Command.enable w s u r =
        show-Runs (Commands.enable (suc fuel)) w (record s { enabled = true })
          (enable-Runs l fuel w s r)
    perform-Runs Command.set_mechanical_zero w s u r =
        done-Runs (Commands.set_mechanical_zero (suc fuel)) w (record s { enabled = false })
          (set_mechanical_zero-Runs l fuel w s r)
    perform-Runs Command.get_run_mode w s u r =
        Runs-bind l (Commands.get_run_mode (suc fuel)) (λ m. pure (Reply.current_mode m)) w
          (λ m. m ≡ run_mode_of s.run_mode) _ s s (get_run_mode-Runs l fuel w s r)
          λ m w' e r'. Runs-pure l (Reply.current_mode m) w' _ s (ap Reply.current_mode e) r'
    perform-Runs (Command.disable b) w s u r =
        show-Runs (Commands.disable (suc fuel) b) w
          (record s { enabled = false; fault_bits = if b then 0 else s.fault_bits })
          (disable-Runs l fuel w s r b)
    perform-Runs (Command.set_run_mode mode) w s u r =
        done-Runs (Commands.set_run_mode (suc fuel) mode) w
          (record s { enabled = false; run_mode = run_mode_value mode })
          (set_run_mode-Runs l fuel mode w s r)
    perform-Runs (Command.write_param i v) w s (hi, hv, ne) r =
        show-Runs (Commands.write_param_float (suc fuel) i v) w (store i v s)
          (write_param_float-Runs l fuel w s r i v hi hv ne)
    perform-Runs (Command.read_param i) w s (hi, ne) r =
        Runs-bind l (Commands.read_param_float (suc fuel) i) (λ v. pure (Reply.value v)) w
          (λ v. v ≡ s.memory i) _ s s (read_param_float-Runs l fuel w s r i hi ne)
          λ v w' e r'. Runs-pure l (Reply.value v) w' _ s (ap Reply.value e) r'
    perform-Runs (Command.send_velocity_command v) w s u r =
        show-Runs (Commands.write_param_float (suc fuel) Params.spd_ref (narrow v)) w
          (store Params.spd_ref (narrow v) s)
          (write_param_float-Runs l fuel w s r Params.spd_ref (narrow v) (omega arith) u
            (ground arith))
    perform-Runs (Command.configure_velocity_mode a b) w s (ha, hb) r =
        done-Runs (Commands.configure_velocity_mode (suc fuel) a b) w
          (next (Command.configure_velocity_mode a b) s) (configure-Runs l fuel a b w s ha hb r)
    perform-Runs (Command.send_position_csp_command a b) w s (ha, hb) r =
        show-Runs (Commands.send_position_csp_command (suc fuel) a b) w
          (next (Command.send_position_csp_command a b) s) (csp-Runs l fuel a b w s ha hb r)
    perform-Runs (Command.send_motion_command torque position velocity kp kd) w s u r =
        show-Runs (Commands.send_motion_command (suc fuel) torque position velocity kp kd) w s
          (motion-Runs l fuel w s r torque position velocity kp kd)

    -- Over a ready simulated bus whose motor stands for an abstract motor, any list of usable
    -- commands runs without an exception. Its answers are those that the abstract motor gives, and
    -- it leaves a ready bus whose motor stands for the abstract motor after those commands. A
    -- command is usable if its index has 16 bits and is not the run mode's, and its floats have
    -- 32-bit patterns.
    pub perform_all-Runs :
        (cs : List (Command D)) (w : World D (Bench D)) (s : Servo)
        → All IsUsable cs
        → Refines l w s
        → Runs l (perform_all (suc fuel) cs) w (λ rs. rs ≡ answers l.velocity cs s) (after cs s)
    unfolding perform_all
    perform_all-Runs [] w s u r = Runs-pure l [] w _ s refl r
    perform_all-Runs (c ∷ cs) w s (u, us) r =
        Runs-bind l (perform (suc fuel) c) _ w (λ x. x ≡ answer l.velocity c (next c s)) _
          (next c s) _ (perform-Runs c w s u r)
          λ x w1 e r1.
            Runs-bind l (perform_all (suc fuel) cs) (λ xs. pure (x ∷ xs)) w1
              (λ xs. xs ≡ answers l.velocity cs (next c s)) _ (after cs (next c s)) _
              (perform_all-Runs cs w1 (next c s) us r1)
              λ xs w2 es r2. Runs-pure l (x ∷ xs) w2 _ (after cs (next c s)) (rw (e, es)) r2
