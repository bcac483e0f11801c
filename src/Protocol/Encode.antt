-- ===== src/Protocol/Encode.antt =====
-- The functions of protocol.cpp that build frames, of the host and of the simulated motor.
use robstride_driver.Common.{ℕ, Bool, bit_and, bit_or, if◌then◌else◌}
use robstride_driver.Common.Bits.{u8, u16, shl, shr}
use robstride_driver.Common.Int.{u16_of_ℤ}
use robstride_driver.Double.{Double}
use robstride_driver.Protocol.Types.{
  CommType, CanFrame, Data8, zero8, Feedback, motor_mode_value, float_bytes,
}
use robstride_driver.Protocol.Limits.{ActuatorLimits}
use robstride_driver.Protocol.Scaling.{float_to_uint}
use robstride_driver.Protocol.Ids.{make_id}

-- `CanFrame frame;` with an identifier: the data are zero, and the length is 8.
abbrev pub frame_of : ℕ → Data8 → CanFrame
frame_of id payload = record { id = id; payload = payload; dlc = 8 }

unfoldable pub make_enable_frame : ℕ → ℕ → CanFrame
make_enable_frame motor_id host_id = frame_of (make_id CommType.enable host_id motor_id) zero8

unfoldable pub make_stop_frame : ℕ → ℕ → Bool → CanFrame
make_stop_frame motor_id host_id clear_fault =
    frame_of (make_id CommType.stop host_id motor_id)
      (record zero8 { b0 = if clear_fault then 1 else 0 })

unfoldable pub make_set_mechanical_zero_frame : ℕ → ℕ → CanFrame
make_set_mechanical_zero_frame motor_id host_id =
    frame_of (make_id CommType.set_mechanical_zero host_id motor_id) (record zero8 { b0 = 1 })

unfoldable pub make_set_can_id_frame : ℕ → ℕ → ℕ → CanFrame
make_set_can_id_frame motor_id host_id new_motor_id =
    let data_area2 = u16 (bit_or (shl new_motor_id 8) host_id) in
    frame_of (make_id CommType.set_can_id data_area2 motor_id) zero8

unfoldable pub make_get_device_id_frame : ℕ → ℕ → CanFrame
make_get_device_id_frame motor_id host_id =
    frame_of (make_id CommType.get_device_id host_id motor_id) zero8

-- The low and the high byte of a parameter index, in the first two places.
abbrev pub index_data : ℕ → Data8
index_data index = record zero8 { b0 = u8 (bit_and index 0xFF); b1 = u8 (shr index 8) }

unfoldable pub make_read_param_frame : ℕ → ℕ → ℕ → CanFrame
make_read_param_frame motor_id host_id index =
    frame_of (make_id CommType.read_param host_id motor_id) (index_data index)

unfoldable pub make_write_param_frame_base : ℕ → ℕ → ℕ → CanFrame
make_write_param_frame_base motor_id host_id index =
    frame_of (make_id CommType.write_param host_id motor_id) (index_data index)

-- `std::memcpy(&frame.data[4], &value, sizeof(value))` of a `float`.
abbrev pub put_float : CanFrame → ℕ → CanFrame
put_float frame value =
    let bytes = float_bytes value in
    record frame {
      payload = record (frame.payload) {
        b4 = bytes.b0;
        b5 = bytes.b1;
        b6 = bytes.b2;
        b7 = bytes.b3;
      };
    }

-- `frame.data[4] = value` of a `uint8_t`.
abbrev pub put_uint8 : CanFrame → ℕ → CanFrame
put_uint8 frame value = record frame { payload = record (frame.payload) { b4 = value } }

unfoldable pub make_write_param_frame_float : ℕ → ℕ → ℕ → ℕ → CanFrame
unfolding make_write_param_frame_base
make_write_param_frame_float motor_id host_id index value =
    put_float (make_write_param_frame_base motor_id host_id index) value

unfoldable pub make_write_param_frame_uint8 : ℕ → ℕ → ℕ → ℕ → CanFrame
unfolding make_write_param_frame_base
make_write_param_frame_uint8 motor_id host_id index value =
    put_uint8 (make_write_param_frame_base motor_id host_id index) value

unfoldable pub make_param_response_frame_base : ℕ → ℕ → ℕ → CanFrame
make_param_response_frame_base motor_id host_id index =
    frame_of (make_id CommType.read_param motor_id host_id) (index_data index)

unfoldable pub make_param_response_frame_float : ℕ → ℕ → ℕ → ℕ → CanFrame
unfolding make_param_response_frame_base
make_param_response_frame_float motor_id host_id index value =
    put_float (make_param_response_frame_base motor_id host_id index) value

unfoldable pub make_param_response_frame_uint8 : ℕ → ℕ → ℕ → ℕ → CanFrame
unfolding make_param_response_frame_base
make_param_response_frame_uint8 motor_id host_id index value =
    put_uint8 (make_param_response_frame_base motor_id host_id index) value

-- Four 16-bit words, each with its high byte first.
abbrev pub words_data : ℕ → ℕ → ℕ → ℕ → Data8
words_data w0 w1 w2 w3 = record {
  b0 = u8 (shr w0 8);
  b1 = u8 (bit_and w0 0xFF);
  b2 = u8 (shr w1 8);
  b3 = u8 (bit_and w1 0xFF);
  b4 = u8 (shr w2 8);
  b5 = u8 (bit_and w2 0xFF);
  b6 = u8 (shr w3 8);
  b7 = u8 (bit_and w3 0xFF);
}

module _ {D : Type 0} ⦃d : Double D⦄ where
  open d use {of_ℕ, neg, mul, lround}

  unfoldable pub make_motion_control_frame : ℕ → D → D → D → D → D → ActuatorLimits D → CanFrame
  make_motion_control_frame motor_id torque position velocity kp kd limits =
      let torque_u = float_to_uint torque (neg limits.torque) limits.torque 16 in
      let pos_u = float_to_uint position (neg limits.position) limits.position 16 in
      let vel_u = float_to_uint velocity (neg limits.velocity) limits.velocity 16 in
      let kp_u = float_to_uint kp (of_ℕ 0) limits.kp_max 16 in
      let kd_u = float_to_uint kd (of_ℕ 0) limits.kd_max 16 in
      frame_of (make_id CommType.motion_control torque_u motor_id)
        (words_data pos_u vel_u kp_u kd_u)

  unfoldable pub make_feedback_frame : Feedback D → ActuatorLimits D → CanFrame
  make_feedback_frame feedback limits =
      let mode_bits = u16 (shl (u16 (motor_mode_value feedback.mode)) 14) in
      let fault_bits = u16 (shl (bit_and feedback.fault.raw 0x3F) 8) in
      let data_area2 = u16 (bit_or (bit_or mode_bits fault_bits) feedback.motor_id) in
      let pos_u = float_to_uint feedback.position (neg limits.position) limits.position 16 in
      let vel_u = float_to_uint feedback.velocity (neg limits.velocity) limits.velocity 16 in
      let torque_u = float_to_uint feedback.torque (neg limits.torque) limits.torque 16 in
      let temp_u = u16_of_ℤ (lround (mul feedback.temperature (of_ℕ 10))) in
      frame_of (make_id CommType.feedback data_area2 feedback.host_id)
        (words_data pos_u vel_u torque_u temp_u)
