-- ===== src/Servo/Transports.antt =====
-- The calls of the driver over two transports that answer alike.
pub mod Sockets
use robstride_driver.Common.{ℕ, List, [], ◌∷◌, All}
use robstride_driver.Common.Bits.{IsByte, IsU16}
use robstride_driver.Double.{Double}
use robstride_driver.Protocol.Types.{Feedback, run_mode_value}
use robstride_driver.Motor.Monad.{CanInterface, World, M, ◌>>◌, pure}
use robstride_driver.Motor.Alike.{
  Simulates, Same, Joined, Alike, pure-Alike, bind-Alike, then-Alike,
}
use robstride_driver.Motor.Alike.Operations.{
  enable-Alike, disable-Alike, write_param_float-Alike, read_param_float-Alike, get_run_mode-Alike,
  set_run_mode-Alike, configure_velocity_mode-Alike, send_velocity_command-Alike,
  send_position_csp_command-Alike, send_motion_command-Alike, set_mechanical_zero-Alike,
}
use robstride_driver.Servo.{Command, Reply, feedback_status}
use robstride_driver.Servo.Refines.{show, perform, perform_all}

-- The integers of a call fit into their C++ types.
abbrev pub FitsTypes : {D : Type 0} → Command D → Type 0
FitsTypes (Command.set_run_mode mode) = IsByte (run_mode_value mode)
FitsTypes (Command.write_param index w) = IsU16 index
FitsTypes (Command.read_param index) = IsU16 index
FitsTypes _ = Unit

module _ {D V W : Type 0} ⦃d : Double D⦄ ⦃cv : CanInterface V⦄ ⦃cw : CanInterface W⦄
    (R : V → W → Type 0) (s : Simulates cv cw R) (fuel : ℕ) where
  show-Alike :
      (m : M D V (Feedback D)) (n : M D W (Feedback D)) → Alike R m n → Alike R (show m) (show n)
  show-Alike m n h = bind-Alike R m n _ _ h λ fb. pure-Alike R (Reply.status (feedback_status fb))

  done-Alike :
      {A : Type 0} (m : M D V A) (n : M D W A)
      → Alike R m n
      → Alike R (m >> pure {A = Reply D} Reply.done) (n >> pure Reply.done)
  done-Alike m n h = then-Alike R m n _ _ h (pure-Alike R Reply.done)

  perform-Alike : (c : Command D) → FitsTypes c → Alike R (perform fuel c) (perform fuel c)
  unfolding perform
  perform-Alike Command.enable h = show-Alike _ _ (enable-Alike R s fuel)
  perform-Alike Command.set_mechanical_zero h = done-Alike _ _ (set_mechanical_zero-Alike R s fuel)
  perform-Alike Command.get_run_mode h =
      bind-Alike R _ _ _ _ (get_run_mode-Alike R s fuel)
        λ mode. pure-Alike R (Reply.current_mode mode)
  perform-Alike (Command.disable b) h = show-Alike _ _ (disable-Alike R s fuel b)
  perform-Alike (Command.set_run_mode mode) h = done-Alike _ _ (set_run_mode-Alike R s fuel mode h)
  perform-Alike (Command.write_param i w) h =
      show-Alike _ _ (write_param_float-Alike R s fuel i w h)
  perform-Alike (Command.read_param i) h =
      bind-Alike R _ _ _ _ (read_param_float-Alike R s fuel i h) λ w. pure-Alike R (Reply.value w)
  perform-Alike (Command.send_velocity_command v) h =
      show-Alike _ _ (send_velocity_command-Alike R s fuel v)
  perform-Alike (Command.configure_velocity_mode a b) h =
      done-Alike _ _ (configure_velocity_mode-Alike R s fuel a b)
  perform-Alike (Command.send_position_csp_command a b) h =
      show-Alike _ _ (send_position_csp_command-Alike R s fuel a b)
  perform-Alike (Command.send_motion_command torque position velocity kp kd) h =
      show-Alike _ _ (send_motion_command-Alike R s fuel torque position velocity kp kd)

  -- The driver tells transports apart only by what their calls answer.
  pub perform_all-Alike :
      (cs : List (Command D))
      → All FitsTypes cs
      → (v : World D V) (w : World D W) → Joined R v w
      → Same (Joined R) (perform_all fuel cs v) (perform_all fuel cs w)
  unfolding perform_all
  perform_all-Alike [] h = pure-Alike R []
  perform_all-Alike (c ∷ cs) (h, hs) =
      bind-Alike R _ _ _ _ (perform-Alike c h)
        λ r. bind-Alike R _ _ _ _ (perform_all-Alike cs hs) λ rs. pure-Alike R (r ∷ rs)
