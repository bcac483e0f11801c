-- ===== src/Stub/Commands.antt =====
-- The driver's frames, sent to the simulated bus: what they do to the addressed motor.
use robstride_driver.Common.{ℕ, ◌<◌, ◌≡◌, ◌∙◌, refl, arith, Bool, true, false, if◌then◌else◌}
use robstride_driver.Common.Bits.{IsByte, IsU16}
use robstride_driver.Double.{Double}
use robstride_driver.Protocol.Types.{
  CommType, comm_type_value, comm_type_of, CanFrame, ParamWriteRequest, ParamReadRequest,
  float_bytes,
}
use robstride_driver.Protocol.Limits.{ActuatorLimits}
use robstride_driver.Protocol.Ids.{make_id, get_target_motor_id}
use robstride_driver.Protocol.Ids.Layout.{make_id_fields}
use robstride_driver.Protocol.Encode.{
  make_enable_frame, make_stop_frame, make_set_mechanical_zero_frame, make_read_param_frame,
  make_write_param_frame_float, make_write_param_frame_uint8, make_motion_control_frame,
}
use robstride_driver.Protocol.RoundTrip.{
  parse_param_read_request-make, parse_param_write_request-make_float,
  parse_param_write_request-make_uint8,
}
use robstride_driver.Protocol.Scaling.{float_to_uint}
use robstride_driver.Protocol.RoundTrip.Feedback.{float_to_uint-IsU16}
use robstride_driver.Stub.{
  MotorState, Stub, motor, answer, advance, write_state, dispatch, send, push_response,
  read_response, set_motor,
}

-- The requests that the bus reads from the driver's frames.
abbrev pub float_request : ℕ → ℕ → ℕ → ℕ → ParamWriteRequest
float_request motor_id host_id index value = record {
  motor_id = motor_id;
  host_id = host_id;
  index = index;
  value = float_bytes value;
}

abbrev pub uint8_request : ℕ → ℕ → ℕ → ℕ → ParamWriteRequest
uint8_request motor_id host_id index value = record {
  motor_id = motor_id;
  host_id = host_id;
  index = index;
  value = record { b0 = value; b1 = 0; b2 = 0; b3 = 0 };
}

abbrev pub read_request : ℕ → ℕ → ℕ → ParamReadRequest
read_request motor_id host_id index = record {
  motor_id = motor_id;
  host_id = host_id;
  index = index;
}

module _ {D : Type 0} ⦃d : Double D⦄ (motor_id host_id now : ℕ) (hm : IsByte motor_id)
    (hh : IsByte host_id) (stub : Stub D) where
  open d use {of_ℕ, neg}

  abbrev current : MotorState D
  current = advance now (motor motor_id stub)

  -- A frame whose identifier the driver made reaches its case of the `switch`, for its motor.
  send-dispatch :
      (type : CommType) (area : ℕ) (f : CanFrame)
      → comm_type_value type < 32
      → comm_type_of (comm_type_value type) ≡ type
      → IsU16 area
      → f.id ≡ make_id type area motor_id
      → send now f stub ≡ dispatch type now f (motor motor_id stub) stub
  unfolding send
  send-dispatch type area f small known ha e =
      let fields = make_id_fields type area motor_id f small ha hm e in
      rw (fields.0, fields.3, known)

  pub send-make_enable_frame :
      let f = make_enable_frame motor_id host_id in
      send now f stub ≡ answer f (record current { enabled = true }) stub
  unfolding make_enable_frame dispatch
  send-make_enable_frame =
      send-dispatch CommType.enable host_id (make_enable_frame motor_id host_id) (omega arith) refl
        (omega arith) refl

  pub send-make_stop_frame :
      (clear_fault : Bool)
      → let f = make_stop_frame motor_id host_id clear_fault in
        let stopped = record current { enabled = false } in
        send now f stub
        ≡ answer f (if clear_fault then record stopped { fault_bits = 0 } else stopped) stub
  unfolding make_stop_frame dispatch
  send-make_stop_frame true =
      send-dispatch CommType.stop host_id (make_stop_frame motor_id host_id true) (omega arith) refl
        (omega arith) refl
  send-make_stop_frame false =
      send-dispatch CommType.stop host_id (make_stop_frame motor_id host_id false) (omega arith)
        refl (omega arith) refl

  pub send-make_set_mechanical_zero_frame :
      let f = make_set_mechanical_zero_frame motor_id host_id in
      send now f stub ≡ answer f (record current { position = of_ℕ 0 }) stub
  unfolding make_set_mechanical_zero_frame dispatch
  send-make_set_mechanical_zero_frame =
      send-dispatch CommType.set_mechanical_zero host_id
        (make_set_mechanical_zero_frame motor_id host_id) (omega arith) refl (omega arith) refl

  pub send-make_motion_control_frame :
      (torque position velocity kp kd : D) (limits : ActuatorLimits D)
      → let f = make_motion_control_frame motor_id torque position velocity kp kd limits in
        send now f stub ≡ answer f current stub
  unfolding make_motion_control_frame dispatch
  send-make_motion_control_frame torque position velocity kp kd limits =
      send-dispatch CommType.motion_control
        (float_to_uint torque (neg limits.torque) limits.torque 16)
        (make_motion_control_frame motor_id torque position velocity kp kd limits) (omega arith)
        refl (float_to_uint-IsU16 torque (neg limits.torque) limits.torque 16) refl

  module _ (index : ℕ) (hi : IsU16 index) where
    pub send-make_write_param_frame_float :
        (value : ℕ)
        → let f = make_write_param_frame_float motor_id host_id index value in
          send now f stub
          ≡ answer f
              (write_state (float_request motor_id host_id index value) stub.limits current)
              stub
    send-make_write_param_frame_float value =
        let f = make_write_param_frame_float motor_id host_id index value in
        send-dispatch CommType.write_param host_id f (omega arith) refl (omega arith)
          (unfold make_write_param_frame_float in refl)
        ∙ unfold dispatch in
          rw (parse_param_write_request-make_float motor_id host_id index hm hh hi value, dispatch)

    pub send-make_write_param_frame_uint8 :
        (value : ℕ)
        → let f = make_write_param_frame_uint8 motor_id host_id index value in
          send now f stub
          ≡ answer f
              (write_state (uint8_request motor_id host_id index value) stub.limits current)
              stub
    send-make_write_param_frame_uint8 value =
        let f = make_write_param_frame_uint8 motor_id host_id index value in
        send-dispatch CommType.write_param host_id f (omega arith) refl (omega arith)
          (unfold make_write_param_frame_uint8 in refl)
        ∙ unfold dispatch in
          rw (parse_param_write_request-make_uint8 motor_id host_id index hm hh hi value, dispatch)

    pub send-make_read_param_frame :
        let f = make_read_param_frame motor_id host_id index in
        let state = motor motor_id stub in
        send now f stub
        ≡ push_response
            (read_response f (read_request motor_id host_id index) state)
            (set_motor (get_target_motor_id f) state stub)
    send-make_read_param_frame =
        let f = make_read_param_frame motor_id host_id index in
        send-dispatch CommType.read_param host_id f (omega arith) refl (omega arith)
          (unfold make_read_param_frame in refl)
        ∙ unfold dispatch in
          rw (parse_param_read_request-make motor_id host_id index hm hh hi, dispatch)
