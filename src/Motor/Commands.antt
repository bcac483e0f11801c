-- ===== src/Motor/Commands.antt =====
-- The public operations of `RobstrideMotor`.
use robstride_driver.Common.{ℕ, Bool, false, runtime_error, ◌==◌, if◌then◌else◌}
use robstride_driver.Double.{Double}
use robstride_driver.Protocol.Types.{
  Feedback, RunMode, run_mode_value, run_mode_of, as_float, as_uint8,
}
use robstride_driver.Protocol.Params
use robstride_driver.Protocol.Encode.{
  make_enable_frame, make_stop_frame, make_set_mechanical_zero_frame, make_read_param_frame,
  make_write_param_frame_float, make_write_param_frame_uint8, make_motion_control_frame,
}
use robstride_driver.Motor.Monad.{CanInterface, M, ◌>>=◌, ◌>>◌, pure, throw, get_motor}
use robstride_driver.Motor.Exchange.{transceive_feedback, transceive_param}

module _ {D W : Type 0} ⦃d : Double D⦄ ⦃can : CanInterface W⦄ where
  open d use {narrow}

  unfoldable pub enable : ℕ → M D W (Feedback D)
  enable fuel = do
    motor ← get_motor
    transceive_feedback fuel (make_enable_frame motor.config.motor_id motor.config.host_id)

  unfoldable pub disable : ℕ → Bool → M D W (Feedback D)
  disable fuel clear_fault = do
    motor ← get_motor
    transceive_feedback fuel
        (make_stop_frame motor.config.motor_id motor.config.host_id clear_fault)

  unfoldable pub write_param_float : ℕ → ℕ → ℕ → M D W (Feedback D)
  write_param_float fuel index value = do
    motor ← get_motor
    transceive_feedback fuel
        (make_write_param_frame_float motor.config.motor_id motor.config.host_id index value)

  unfoldable pub write_param_uint8 : ℕ → ℕ → ℕ → M D W (Feedback D)
  write_param_uint8 fuel index value = do
    motor ← get_motor
    transceive_feedback fuel
        (make_write_param_frame_uint8 motor.config.motor_id motor.config.host_id index value)

  unfoldable pub read_param_float : ℕ → ℕ → M D W ℕ
  read_param_float fuel index = do
    motor ← get_motor
    response ←
        transceive_param fuel
          (make_read_param_frame motor.config.motor_id motor.config.host_id index)
    pure (as_float response.value)

  unfoldable pub read_param_uint8 : ℕ → ℕ → M D W ℕ
  read_param_uint8 fuel index = do
    motor ← get_motor
    response ←
        transceive_param fuel
          (make_read_param_frame motor.config.motor_id motor.config.host_id index)
    pure (as_uint8 response.value)

  unfoldable pub get_run_mode : ℕ → M D W RunMode
  get_run_mode fuel = do value ← read_param_uint8 fuel Params.run_mode; pure (run_mode_of value)

  unfoldable pub set_run_mode : ℕ → RunMode → M D W (Unit {0})
  set_run_mode fuel mode = do
    disable fuel false
    write_param_uint8 fuel Params.run_mode (run_mode_value mode)
    actual ← get_run_mode fuel
    if run_mode_value actual == run_mode_value mode then pure tt else throw runtime_error

  unfoldable pub configure_velocity_mode : ℕ → D → D → M D W (Unit {0})
  configure_velocity_mode fuel current_limit acceleration = do
    write_param_float fuel Params.limit_cur (narrow current_limit)
    write_param_float fuel Params.acc_rad (narrow acceleration)
    pure tt

  unfoldable pub send_velocity_command : ℕ → D → M D W (Feedback D)
  send_velocity_command fuel velocity = write_param_float fuel Params.spd_ref (narrow velocity)

  unfoldable pub send_position_csp_command : ℕ → D → D → M D W (Feedback D)
  send_position_csp_command fuel position speed_limit = do
    write_param_float fuel Params.limit_spd (narrow speed_limit)
    write_param_float fuel Params.loc_ref (narrow position)

  unfoldable pub send_motion_command : ℕ → D → D → D → D → D → M D W (Feedback D)
  send_motion_command fuel torque position velocity kp kd = do
    motor ← get_motor
    transceive_feedback fuel (
        make_motion_control_frame motor.config.motor_id torque position velocity kp kd motor.limits)

  unfoldable pub set_mechanical_zero : ℕ → M D W (Unit {0})
  set_mechanical_zero fuel = do
    disable fuel false
    motor ← get_motor
    transceive_feedback fuel
        (make_set_mechanical_zero_frame motor.config.motor_id motor.config.host_id)
    pure tt
