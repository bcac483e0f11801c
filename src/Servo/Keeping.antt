-- ===== src/Servo/Keeping.antt =====
-- Sequences of calls keep the driver's own state.
use robstride_driver.Common.{ℕ, List, [], ◌∷◌}
use robstride_driver.Double.{Double}
use robstride_driver.Protocol.Types.{Feedback}
use robstride_driver.Protocol.Params
use robstride_driver.Protocol.Limits.{ActuatorLimits}
use robstride_driver.Motor.Monad.{CanInterface, Config, World, M, ◌>>◌, pure}
use robstride_driver.Motor.Commands.{send_velocity_command}
use robstride_driver.Motor.Own.{IsOwn, Keeps, pure-Keeps, bind-Keeps, then-Keeps}
use robstride_driver.Motor.Own.Operations.{
  enable-Keeps, disable-Keeps, write_param_float-Keeps, read_param_float-Keeps, get_run_mode-Keeps,
  set_run_mode-Keeps, configure_velocity_mode-Keeps, send_position_csp_command-Keeps,
  send_motion_command-Keeps, set_mechanical_zero-Keeps,
}
use robstride_driver.Servo.{Command, Reply, feedback_status}
use robstride_driver.Servo.Refines.{show, perform, perform_all}

module _ {D W : Type 0} ⦃d : Double D⦄ ⦃can : CanInterface W⦄ (c : Config) (l : ActuatorLimits D)
    (fuel : ℕ) where
  open d use {narrow}

  show-Keeps : (m : M D W (Feedback D)) → Keeps c l m → Keeps c l (show m)
  show-Keeps m h = bind-Keeps c l m _ h λ fb. pure-Keeps c l (Reply.status (feedback_status fb))

  done-Keeps :
      {A : Type 0} (m : M D W A) → Keeps c l m → Keeps c l (m >> pure {A = Reply D} Reply.done)
  done-Keeps m h = then-Keeps c l m _ h (pure-Keeps c l Reply.done)

  perform-Keeps : (x : Command D) → Keeps c l (perform {W = W} fuel x)
  unfolding perform send_velocity_command
  perform-Keeps Command.enable = show-Keeps _ (enable-Keeps c l fuel)
  perform-Keeps Command.set_mechanical_zero = done-Keeps _ (set_mechanical_zero-Keeps c l fuel)
  perform-Keeps Command.get_run_mode =
      bind-Keeps c l _ _ (get_run_mode-Keeps c l fuel)
        λ mode. pure-Keeps c l (Reply.current_mode mode)
  perform-Keeps (Command.disable b) = show-Keeps _ (disable-Keeps c l fuel b)
  perform-Keeps (Command.set_run_mode mode) = done-Keeps _ (set_run_mode-Keeps c l fuel mode)
  perform-Keeps (Command.write_param i w) = show-Keeps _ (write_param_float-Keeps c l fuel i w)
  perform-Keeps (Command.read_param i) =
      bind-Keeps c l _ _ (read_param_float-Keeps c l fuel i) λ w. pure-Keeps c l (Reply.value w)
  perform-Keeps (Command.send_velocity_command v) =
      show-Keeps _ (write_param_float-Keeps c l fuel Params.spd_ref (narrow v))
  perform-Keeps (Command.configure_velocity_mode a b) =
      done-Keeps _ (configure_velocity_mode-Keeps c l fuel a b)
  perform-Keeps (Command.send_position_csp_command a b) =
      show-Keeps _ (send_position_csp_command-Keeps c l fuel a b)
  perform-Keeps (Command.send_motion_command torque position velocity kp kd) =
      show-Keeps _ (send_motion_command-Keeps c l fuel torque position velocity kp kd)

  all-Keeps : (cs : List (Command D)) → Keeps c l (perform_all {W = W} fuel cs)
  unfolding perform_all
  all-Keeps [] = pure-Keeps c l []
  all-Keeps (x ∷ xs) =
      bind-Keeps c l _ _ (perform-Keeps x)
        λ r. bind-Keeps c l _ _ (all-Keeps xs) λ rs. pure-Keeps c l (r ∷ rs)

  -- Over any transport, whatever frames it delivers and however the calls end, a sequence of calls
  -- leaves the driver's configuration and limits, and if the cached feedback was that of the
  -- configured motor before, it is so afterwards.
  pub perform_all-IsOwn :
      (cs : List (Command D)) (w : World D W)
      → IsOwn c l w.motor
      → IsOwn c l (perform_all fuel cs w).1.motor
  perform_all-IsOwn cs w own = (all-Keeps cs w own).own
