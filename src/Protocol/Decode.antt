-- ===== src/Protocol/Decode.antt =====
-- The parsers of protocol.cpp.
use robstride_driver.Common.{
  ℕ, bit_and, bit_or, not, Option, none, some, ◌==◌, ltb, if◌then◌else◌, Bool,
}
use robstride_driver.Common.Bits.{u8, u16, shl, shr}
use robstride_driver.Double.{Double}
use robstride_driver.Protocol.Types.{
  CommType, comm_type_value, CanFrame, Data4, Data8, Feedback, motor_mode_of, ParamResponse,
  ParamReadRequest, ParamWriteRequest,
}
use robstride_driver.Protocol.Limits.{ActuatorLimits}
use robstride_driver.Protocol.Scaling.{uint_to_float}
use robstride_driver.Protocol.Ids.{
  get_comm_type, get_source_motor_id, get_target_motor_id, get_host_id,
}

-- `get_comm_type(frame) == static_cast<std::uint8_t>(type)`.
abbrev pub has_type : CanFrame → CommType → Bool
has_type frame type = get_comm_type frame == comm_type_value type

-- `frame.data[0] | (frame.data[1] << 8)` and `(hi << 8) | lo`, as 16-bit words.
abbrev pub index_of : Data8 → ℕ
index_of payload = u16 (bit_or payload.b0 (shl payload.b1 8))

abbrev pub word_of : ℕ → ℕ → ℕ
word_of hi lo = u16 (bit_or (shl hi 8) lo)

-- The last four bytes of the data.
abbrev pub value_of : Data8 → Data4
value_of payload = record { b0 = payload.b4; b1 = payload.b5; b2 = payload.b6; b3 = payload.b7 }

unfoldable pub parse_param_read_request : CanFrame → Option ParamReadRequest
parse_param_read_request frame =
    if not (has_type frame CommType.read_param)
    then none
    else some (record {
      motor_id = get_target_motor_id frame;
      host_id = get_host_id frame;
      index = index_of frame.payload;
    })

unfoldable pub parse_param_write_request : CanFrame → Option ParamWriteRequest
parse_param_write_request frame =
    if not (has_type frame CommType.write_param)
    then none
    else some (record {
      motor_id = get_target_motor_id frame;
      host_id = get_host_id frame;
      index = index_of frame.payload;
      value = value_of frame.payload;
    })

unfoldable pub parse_param_response : CanFrame → Option ParamResponse
parse_param_response frame =
    if not (has_type frame CommType.read_param)
    then none
    else if ltb frame.dlc 8
    then none
    else some (record {
      motor_id = get_source_motor_id frame;
      index = index_of frame.payload;
      value = value_of frame.payload;
    })

module _ {D : Type 0} ⦃d : Double D⦄ where
  open d use {of_ℕ, neg, mul, tenth}

  -- The body of `parse_feedback` after its two checks.
  abbrev pub decode_feedback : CanFrame → ActuatorLimits D → Feedback D
  decode_feedback frame limits =
      let payload = frame.payload in
      let pos_u = word_of payload.b0 payload.b1 in
      let vel_u = word_of payload.b2 payload.b3 in
      let torque_u = word_of payload.b4 payload.b5 in
      let temp_u = word_of payload.b6 payload.b7 in
      record {
        motor_id = get_source_motor_id frame;
        host_id = u8 (bit_and frame.id 0xFF);
        mode = motor_mode_of (bit_and (shr frame.id 22) 0x03);
        fault = record { raw = u8 (bit_and (shr frame.id 16) 0x3F) };
        position = uint_to_float pos_u (neg limits.position) limits.position 16;
        velocity = uint_to_float vel_u (neg limits.velocity) limits.velocity 16;
        torque = uint_to_float torque_u (neg limits.torque) limits.torque 16;
        temperature = mul (of_ℕ temp_u) tenth;
      }

  unfoldable pub parse_feedback : CanFrame → ActuatorLimits D → Option (Feedback D)
  parse_feedback frame limits =
      if not (has_type frame CommType.feedback)
      then none
      else if ltb frame.dlc 8
      then none
      else some (decode_feedback frame limits)
