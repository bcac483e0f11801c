-- ===== src/Motor/Own/Operations.antt =====
-- The public operations keep the driver's own state.
use robstride_driver.Common.{ℕ, Bool, runtime_error, ◌==◌}
use robstride_driver.Double.{Double}
use robstride_driver.Protocol.Types.{
  CanFrame, ParamResponse, RunMode, run_mode_value, run_mode_of, as_float, as_uint8,
}
use robstride_driver.Protocol.Params
use robstride_driver.Protocol.Limits.{ActuatorLimits}
use robstride_driver.Motor.Monad.{CanInterface, Config, Motor, ◌>>=◌, ◌>>◌, pure, get_motor}
use robstride_driver.Protocol.Encode.{
  make_enable_frame, make_stop_frame, make_set_mechanical_zero_frame, make_read_param_frame,
  make_write_param_frame_float, make_write_param_frame_uint8, make_motion_control_frame,
}
use robstride_driver.Motor.Exchange.{transceive_feedback, transceive_param}
use robstride_driver.Motor.Commands.{
  enable, disable, write_param_float, write_param_uint8, read_param_float, read_param_uint8,
  get_run_mode, set_run_mode, configure_velocity_mode, send_position_csp_command,
  send_motion_command, set_mechanical_zero,
}
use robstride_driver.Motor.Own.{
  Keeps, pure-Keeps, throw-Keeps, bind-Keeps, then-Keeps, if-Keeps, motor-Keeps,
  transceive_feedback-Keeps, transceive_param-Keeps,
}

module _ {D W : Type 0} ⦃d : Double D⦄ ⦃can : CanInterface W⦄ (c : Config) (l : ActuatorLimits D)
    (fuel : ℕ) where
  open d use {narrow}

  -- A frame that is made of the settings, and its response.
  exchange-Keeps :
      (frame : Motor D → CanFrame)
      → Keeps {W = W} c l (get_motor >>= λ x. transceive_feedback fuel (frame x))
  exchange-Keeps frame =
      motor-Keeps c l (λ x. transceive_feedback fuel (frame x))
        λ x own. transceive_feedback-Keeps c l fuel (frame x)

  request-Keeps :
      {A : Type 0} (frame : Motor D → CanFrame) (value : ParamResponse → A)
      → Keeps {W = W} c l
          (get_motor >>= λ x. transceive_param fuel (frame x) >>= λ response. pure (value response))
  request-Keeps frame value =
      motor-Keeps c l (λ x. transceive_param fuel (frame x) >>= λ response. pure (value response))
        λ x own.
          bind-Keeps c l _ _ (transceive_param-Keeps c l fuel (frame x))
            λ response. pure-Keeps c l (value response)

  pub enable-Keeps : Keeps c l (enable {D = D} {W = W} fuel)
  unfolding enable
  enable-Keeps = exchange-Keeps (λ x. make_enable_frame x.config.motor_id x.config.host_id)

  pub disable-Keeps : (b : Bool) → Keeps c l (disable {D = D} {W = W} fuel b)
  unfolding disable
  disable-Keeps b = exchange-Keeps (λ x. make_stop_frame x.config.motor_id x.config.host_id b)

  pub write_param_float-Keeps :
      (index w : ℕ) → Keeps c l (write_param_float {D = D} {W = W} fuel index w)
  unfolding write_param_float
  write_param_float-Keeps index w =
      exchange-Keeps (λ x. make_write_param_frame_float x.config.motor_id x.config.host_id index w)

  write_param_uint8-Keeps :
      (index b : ℕ) → Keeps c l (write_param_uint8 {D = D} {W = W} fuel index b)
  unfolding write_param_uint8
  write_param_uint8-Keeps index b =
      exchange-Keeps (λ x. make_write_param_frame_uint8 x.config.motor_id x.config.host_id index b)

  pub read_param_float-Keeps : (index : ℕ) → Keeps c l (read_param_float {D = D} {W = W} fuel index)
  unfolding read_param_float
  read_param_float-Keeps index =
      request-Keeps (λ x. make_read_param_frame x.config.motor_id x.config.host_id index)
        (λ response. as_float response.value)

  read_param_uint8-Keeps : (index : ℕ) → Keeps c l (read_param_uint8 {D = D} {W = W} fuel index)
  unfolding read_param_uint8
  read_param_uint8-Keeps index =
      request-Keeps (λ x. make_read_param_frame x.config.motor_id x.config.host_id index)
        (λ response. as_uint8 response.value)

  pub get_run_mode-Keeps : Keeps c l (get_run_mode {D = D} {W = W} fuel)
  unfolding get_run_mode
  get_run_mode-Keeps =
      bind-Keeps c l _ _ (read_param_uint8-Keeps Params.run_mode)
        λ value. pure-Keeps c l (run_mode_of value)

  pub set_run_mode-Keeps : (mode : RunMode) → Keeps c l (set_run_mode {D = D} {W = W} fuel mode)
  unfolding set_run_mode
  set_run_mode-Keeps mode = then-Keeps c l _ _ (disable-Keeps Bool.false) (
      then-Keeps c l _ _ (write_param_uint8-Keeps Params.run_mode (run_mode_value mode)) (
        bind-Keeps c l _ _ get_run_mode-Keeps λ actual.
          if-Keeps c l (run_mode_value actual == run_mode_value mode) _ _ (λ _. pure-Keeps c l tt)
            (λ _. throw-Keeps c l runtime_error)))

  pub configure_velocity_mode-Keeps :
      (current_limit acceleration : D)
      → Keeps c l (configure_velocity_mode {W = W} fuel current_limit acceleration)
  unfolding configure_velocity_mode
  configure_velocity_mode-Keeps current_limit acceleration =
      then-Keeps c l _ _ (write_param_float-Keeps Params.limit_cur (narrow current_limit)) (
        then-Keeps c l _ _ (write_param_float-Keeps Params.acc_rad (narrow acceleration))
          (pure-Keeps c l tt))

  pub send_position_csp_command-Keeps :
      (position speed_limit : D)
      → Keeps c l (send_position_csp_command {W = W} fuel position speed_limit)
  unfolding send_position_csp_command
  send_position_csp_command-Keeps position speed_limit =
      then-Keeps c l _ _ (write_param_float-Keeps Params.limit_spd (narrow speed_limit))
        (write_param_float-Keeps Params.loc_ref (narrow position))

  pub send_motion_command-Keeps :
      (torque position velocity kp kd : D)
      → Keeps c l (send_motion_command {W = W} fuel torque position velocity kp kd)
  unfolding send_motion_command
  send_motion_command-Keeps torque position velocity kp kd =
      exchange-Keeps
        (λ x. make_motion_control_frame x.config.motor_id torque position velocity kp kd x.limits)

  pub set_mechanical_zero-Keeps : Keeps c l (set_mechanical_zero {D = D} {W = W} fuel)
  unfolding set_mechanical_zero
  set_mechanical_zero-Keeps = then-Keeps c l _ _ (disable-Keeps Bool.false) (
      motor-Keeps c l
        (λ x.
          transceive_feedback fuel
            (make_set_mechanical_zero_frame x.config.motor_id x.config.host_id)
          >> pure tt)
        λ x own. then-Keeps c l _ _ (transceive_feedback-Keeps c l fuel _) (pure-Keeps c l tt))
