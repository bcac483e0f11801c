-- ===== src/Motor/Alike/Operations.antt =====
-- The operations of the driver over two transports that answer alike.
use robstride_driver.Common.{ℕ, Bool, arith, runtime_error, ◌==◌}
use robstride_driver.Common.Bits.{IsByte, IsU16}
use robstride_driver.Double.{Double}
use robstride_driver.Protocol.Types.{RunMode, run_mode_value, run_mode_of, as_float, as_uint8}
use robstride_driver.Protocol.Params
use robstride_driver.Protocol.Valid.{Made, frame-IsFrame}
use robstride_driver.Motor.Monad.{CanInterface}
use robstride_driver.Motor.Commands.{
  enable, disable, write_param_float, write_param_uint8, read_param_float, read_param_uint8,
  get_run_mode, set_run_mode, configure_velocity_mode, send_velocity_command,
  send_position_csp_command, send_motion_command, set_mechanical_zero,
}
use robstride_driver.Motor.Alike.{
  Simulates, Alike, pure-Alike, throw-Alike, bind-Alike, then-Alike, if-Alike, motor-Alike,
}
use robstride_driver.Motor.Alike.Exchanges.{transceive_feedback-Alike, transceive_param-Alike}

module _ {D V W : Type 0} ⦃d : Double D⦄ ⦃cv : CanInterface V⦄ ⦃cw : CanInterface W⦄
    (R : V → W → Type 0) (s : Simulates cv cw R) (fuel : ℕ) where
  open d use {narrow}

  pub enable-Alike : Alike {D = D} R (enable fuel) (enable fuel)
  unfolding enable
  enable-Alike = motor-Alike R _ _ λ m hm hh.
      transceive_feedback-Alike R s fuel _
        (frame-IsFrame {D = D} (Made.enable m.config.motor_id m.config.host_id) (hm, hh))

  pub disable-Alike : (b : Bool) → Alike {D = D} R (disable fuel b) (disable fuel b)
  unfolding disable
  disable-Alike b = motor-Alike R _ _ λ m hm hh.
      transceive_feedback-Alike R s fuel _
        (frame-IsFrame {D = D} (Made.stop m.config.motor_id m.config.host_id b) (hm, hh))

  pub write_param_float-Alike :
      (index w : ℕ)
      → IsU16 index
      → Alike {D = D} R (write_param_float fuel index w) (write_param_float fuel index w)
  unfolding write_param_float
  write_param_float-Alike index w hi = motor-Alike R _ _ λ m hm hh.
      transceive_feedback-Alike R s fuel _ (
        frame-IsFrame {D = D} (Made.write_float m.config.motor_id m.config.host_id index w)
          (hm, hh, hi))

  write_param_uint8-Alike :
      (index b : ℕ)
      → IsU16 index
      → IsByte b
      → Alike {D = D} R (write_param_uint8 fuel index b) (write_param_uint8 fuel index b)
  unfolding write_param_uint8
  write_param_uint8-Alike index b hi hb = motor-Alike R _ _ λ m hm hh.
      transceive_feedback-Alike R s fuel _ (
        frame-IsFrame {D = D} (Made.write_uint8 m.config.motor_id m.config.host_id index b)
          (hm, hh, hi, hb))

  pub read_param_float-Alike :
      (index : ℕ)
      → IsU16 index
      → Alike {D = D} R (read_param_float fuel index) (read_param_float fuel index)
  unfolding read_param_float
  read_param_float-Alike index hi = motor-Alike R _ _ λ m hm hh.
      bind-Alike R _ _ _ _
        (transceive_param-Alike R s fuel _ (
          frame-IsFrame {D = D} (Made.read_param m.config.motor_id m.config.host_id index)
            (hm, hh, hi)))
        λ response. pure-Alike R (as_float response.value)

  read_param_uint8-Alike :
      (index : ℕ)
      → IsU16 index
      → Alike {D = D} R (read_param_uint8 fuel index) (read_param_uint8 fuel index)
  unfolding read_param_uint8
  read_param_uint8-Alike index hi = motor-Alike R _ _ λ m hm hh.
      bind-Alike R _ _ _ _
        (transceive_param-Alike R s fuel _ (
          frame-IsFrame {D = D} (Made.read_param m.config.motor_id m.config.host_id index)
            (hm, hh, hi)))
        λ response. pure-Alike R (as_uint8 response.value)

  pub get_run_mode-Alike : Alike {D = D} R (get_run_mode fuel) (get_run_mode fuel)
  unfolding get_run_mode
  get_run_mode-Alike =
      bind-Alike R _ _ _ _ (read_param_uint8-Alike Params.run_mode (omega arith))
        λ value. pure-Alike R (run_mode_of value)

  pub set_run_mode-Alike :
      (mode : RunMode)
      → IsByte (run_mode_value mode)
      → Alike {D = D} R (set_run_mode fuel mode) (set_run_mode fuel mode)
  unfolding set_run_mode
  set_run_mode-Alike mode h = then-Alike R _ _ _ _ (disable-Alike Bool.false) (
      then-Alike R _ _ _ _
        (write_param_uint8-Alike Params.run_mode (run_mode_value mode) (omega arith) h)
        (bind-Alike R _ _ _ _ get_run_mode-Alike λ actual.
          if-Alike R (run_mode_value actual == run_mode_value mode) _ _ _ _ (pure-Alike R tt)
            (throw-Alike R runtime_error)))

  pub configure_velocity_mode-Alike :
      (current_limit acceleration : D)
      → Alike R
          (configure_velocity_mode fuel current_limit acceleration)
          (configure_velocity_mode fuel current_limit acceleration)
  unfolding configure_velocity_mode
  configure_velocity_mode-Alike current_limit acceleration =
      then-Alike R _ _ _ _
        (write_param_float-Alike Params.limit_cur (narrow current_limit) (omega arith))
        (then-Alike R _ _ _ _
          (write_param_float-Alike Params.acc_rad (narrow acceleration) (omega arith))
          (pure-Alike R tt))

  pub send_velocity_command-Alike :
      (velocity : D)
      → Alike R (send_velocity_command fuel velocity) (send_velocity_command fuel velocity)
  unfolding send_velocity_command
  send_velocity_command-Alike velocity =
      write_param_float-Alike Params.spd_ref (narrow velocity) (omega arith)

  pub send_position_csp_command-Alike :
      (position speed_limit : D)
      → Alike R
          (send_position_csp_command fuel position speed_limit)
          (send_position_csp_command fuel position speed_limit)
  unfolding send_position_csp_command
  send_position_csp_command-Alike position speed_limit =
      then-Alike R _ _ _ _
        (write_param_float-Alike Params.limit_spd (narrow speed_limit) (omega arith))
        (write_param_float-Alike Params.loc_ref (narrow position) (omega arith))

  pub send_motion_command-Alike :
      (torque position velocity kp kd : D)
      → Alike R
          (send_motion_command fuel torque position velocity kp kd)
          (send_motion_command fuel torque position velocity kp kd)
  unfolding send_motion_command
  send_motion_command-Alike torque position velocity kp kd = motor-Alike R _ _ λ m hm hh.
      transceive_feedback-Alike R s fuel _ (
        frame-IsFrame
          (Made.motion_control m.config.motor_id torque position velocity kp kd m.limits) hm)

  pub set_mechanical_zero-Alike :
      Alike {D = D} R (set_mechanical_zero fuel) (set_mechanical_zero fuel)
  unfolding set_mechanical_zero
  set_mechanical_zero-Alike = then-Alike R _ _ _ _ (disable-Alike Bool.false) (
      motor-Alike R _ _ λ m hm hh.
        then-Alike R _ _ _ _
          (transceive_feedback-Alike R s fuel _ (
            frame-IsFrame {D = D} (Made.set_mechanical_zero m.config.motor_id m.config.host_id)
              (hm, hh)))
          (pure-Alike R tt))
