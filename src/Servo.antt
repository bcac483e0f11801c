-- ===== src/Servo.antt =====
-- What the driver promises of a motor, with no frames, ids, clock or exchange in it: a motor that is
-- enabled or not, in a mode, with fault bits and a memory of parameters.
pub mod Abstracts
pub mod Runs
pub mod Calls
pub mod Sequences
pub mod Refines
pub mod Fleet
pub mod Transports
pub mod Keeping
use robstride_driver.Common.{ℕ, Bool, true, false, ◌&&◌, ◌%◌, ◌==◌, if◌then◌else◌, List, [], ◌∷◌}
use robstride_driver.Double.{Double}
use robstride_driver.Protocol.Types.{MotorMode, Feedback, RunMode, run_mode_value, run_mode_of}
use robstride_driver.Protocol.Params
use robstride_driver.Protocol.RoundTrip.Feedback.{quantised}

pub record Servo : Type 0 where
  pub enabled : Bool
  pub run_mode : ℕ
  pub fault_bits : ℕ
  pub memory : ℕ → ℕ

-- The part of a feedback that does not depend on the time.
pub record Status (D : Type 0) : Type 0 where
  pub mode : MotorMode
  pub faults : ℕ
  pub velocity : D

pub data Command (D : Type 0) : Type 0 where
  enable set_mechanical_zero get_run_mode : Command D
  disable : Bool → Command D
  set_run_mode : RunMode → Command D
  read_param : ℕ → Command D
  write_param : ℕ → ℕ → Command D
  send_velocity_command : D → Command D
  configure_velocity_mode send_position_csp_command : D → D → Command D
  send_motion_command : D → D → D → D → D → Command D

pub data Reply (D : Type 0) : Type 0 where
  done : Reply D
  status : Status D → Reply D
  value : ℕ → Reply D
  current_mode : RunMode → Reply D

abbrev pub store : ℕ → ℕ → Servo → Servo
store index w s = record s { memory = λ i. if index == i then w else s.memory i }

abbrev pub moving : Servo → Bool
moving s = s.enabled && s.run_mode == run_mode_value RunMode.velocity

module _ {D : Type 0} ⦃d : Double D⦄ where
  open d use {of_ℕ, widen, narrow}

  -- What a motor reports, with a range of velocities from -limit to limit.
  abbrev pub status_of : D → Servo → Status D
  status_of limit s = record {
    mode = if s.enabled then MotorMode.run else MotorMode.reset;
    faults = s.fault_bits % 64;
    velocity = quantised (if moving s then widen (s.memory Params.spd_ref) else of_ℕ 0) limit;
  }

  abbrev pub feedback_status : Feedback D → Status D
  feedback_status fb = record { mode = fb.mode; faults = fb.fault.raw; velocity = fb.velocity }

  -- A command's effect.
  abbrev pub next : Command D → Servo → Servo
  next Command.enable s = record s { enabled = true }
  next Command.set_mechanical_zero s = record s { enabled = false }
  next Command.get_run_mode s = s
  next (Command.disable clear_fault) s = record s {
    enabled = false;
    fault_bits = if clear_fault then 0 else s.fault_bits;
  }
  next (Command.set_run_mode mode) s = record s { enabled = false; run_mode = run_mode_value mode }
  next (Command.write_param index w) s = store index w s
  next (Command.read_param index) s = s
  next (Command.send_velocity_command velocity) s = store Params.spd_ref (narrow velocity) s
  next (Command.configure_velocity_mode current_limit acceleration) s =
      store Params.acc_rad (narrow acceleration) (store Params.limit_cur (narrow current_limit) s)
  next (Command.send_position_csp_command position speed_limit) s =
      store Params.loc_ref (narrow position) (store Params.limit_spd (narrow speed_limit) s)
  next (Command.send_motion_command torque position velocity kp kd) s = s

  -- A command's answer, in the state that it leaves.
  abbrev pub answer : D → Command D → Servo → Reply D
  answer limit Command.set_mechanical_zero s = Reply.done
  answer limit Command.get_run_mode s = Reply.current_mode (run_mode_of s.run_mode)
  answer limit (Command.set_run_mode mode) s = Reply.done
  answer limit (Command.read_param index) s = Reply.value (s.memory index)
  answer limit (Command.configure_velocity_mode a b) s = Reply.done
  answer limit _ s = Reply.status (status_of limit s)

  abbrev pub after : List (Command D) → Servo → Servo
  after [] s = s
  after (c ∷ cs) s = after cs (next c s)

  abbrev pub answers : D → List (Command D) → Servo → List (Reply D)
  answers limit [] s = []
  answers limit (c ∷ cs) s = answer limit c (next c s) ∷ answers limit cs (next c s)
