-- ===== src/Protocol/Valid.antt =====
-- The frames that protocol.cpp makes are frames of the CAN bus: 29 bits of identifier, eight bytes.
use robstride_driver.Common.{ℕ, ◌^◌, ◌<◌, ◌≡◌, refl, arith, Bool, true, false, All, bit_or}
use robstride_driver.Common.Bits.{IsByte, IsU16, u16, shl}
use robstride_driver.Double.{Double}
use robstride_driver.Protocol.Types.{
  CommType, comm_type_value, CanFrame, Data8, bytes8, zero8, Feedback,
}
use robstride_driver.Protocol.Limits.{ActuatorLimits}
use robstride_driver.Protocol.Scaling.{float_to_uint}
use robstride_driver.Protocol.Ids.{make_id}
use robstride_driver.Protocol.Ids.Layout.{make_id-sum}
use robstride_driver.Protocol.Encode
use robstride_driver.Protocol.Encode.{frame_of, index_data, put_float, put_uint8}
use robstride_driver.Protocol.RoundTrip.Feedback.{float_to_uint-IsU16}

pub record IsFrame (f : CanFrame) : Type 0 where
  pub id_bits : f.id < 2 ^ 29
  pub bytes : All IsByte (bytes8 f.payload)
  pub full : f.dlc ≡ 8

frame_of-IsFrame :
    (type : CommType) (area dest : ℕ) (payload : Data8)
    → comm_type_value type < 32
    → IsU16 area
    → IsByte dest
    → All IsByte (bytes8 payload)
    → IsFrame (frame_of (make_id type area dest) payload)
frame_of-IsFrame type area dest payload small ha hd bytes = record {
  id_bits = omega (arith, make_id-sum type area dest small ha hd);
  bytes = bytes;
  full = refl;
}

put_float-IsFrame : (f : CanFrame) (w : ℕ) → IsFrame f → IsFrame (put_float f w)
put_float-IsFrame f w h = record {
  id_bits = h.id_bits;
  bytes = omega (arith, h.bytes);
  full = h.full;
}

put_uint8-IsFrame : (f : CanFrame) (b : ℕ) → IsByte b → IsFrame f → IsFrame (put_uint8 f b)
put_uint8-IsFrame f b hb h = record {
  id_bits = h.id_bits;
  bytes = omega (arith, h.bytes);
  full = h.full;
}

-- The frames of the library, by the function that makes them, with its arguments.
pub data Made (D : Type 0) : Type 0 where
  enable set_mechanical_zero get_device_id : ℕ → ℕ → Made D
  stop : ℕ → ℕ → Bool → Made D
  set_can_id read_param : ℕ → ℕ → ℕ → Made D
  write_float write_uint8 response_float response_uint8 : ℕ → ℕ → ℕ → ℕ → Made D
  motion_control : ℕ → D → D → D → D → D → ActuatorLimits D → Made D
  feedback : Feedback D → ActuatorLimits D → Made D

module _ {D : Type 0} ⦃d : Double D⦄ where
  abbrev pub frame : Made D → CanFrame
  frame (Made.enable id host) = Encode.make_enable_frame id host
  frame (Made.set_mechanical_zero id host) = Encode.make_set_mechanical_zero_frame id host
  frame (Made.get_device_id id host) = Encode.make_get_device_id_frame id host
  frame (Made.stop id host clear_fault) = Encode.make_stop_frame id host clear_fault
  frame (Made.set_can_id id host new_id) = Encode.make_set_can_id_frame id host new_id
  frame (Made.read_param id host index) = Encode.make_read_param_frame id host index
  frame (Made.write_float id host index w) = Encode.make_write_param_frame_float id host index w
  frame (Made.write_uint8 id host index b) = Encode.make_write_param_frame_uint8 id host index b
  frame (Made.response_float id host index w) =
      Encode.make_param_response_frame_float id host index w
  frame (Made.response_uint8 id host index b) =
      Encode.make_param_response_frame_uint8 id host index b
  frame (Made.motion_control id torque position velocity kp kd limits) =
      Encode.make_motion_control_frame id torque position velocity kp kd limits
  frame (Made.feedback fb limits) = Encode.make_feedback_frame fb limits

  -- The arguments fit into their C++ types.
  abbrev pub Fits : Made D → Type 0
  Fits (Made.enable id host) = IsByte id × IsByte host
  Fits (Made.set_mechanical_zero id host) = IsByte id × IsByte host
  Fits (Made.get_device_id id host) = IsByte id × IsByte host
  Fits (Made.stop id host clear_fault) = IsByte id × IsByte host
  Fits (Made.set_can_id id host new_id) = IsByte id × IsByte host × IsByte new_id
  Fits (Made.read_param id host index) = IsByte id × IsByte host × IsU16 index
  Fits (Made.write_float id host index w) = IsByte id × IsByte host × IsU16 index
  Fits (Made.write_uint8 id host index b) = IsByte id × IsByte host × IsU16 index × IsByte b
  Fits (Made.response_float id host index w) = IsByte id × IsByte host × IsU16 index
  Fits (Made.response_uint8 id host index b) = IsByte id × IsByte host × IsU16 index × IsByte b
  Fits (Made.motion_control id torque position velocity kp kd limits) = IsByte id
  Fits (Made.feedback fb limits) = IsByte fb.motor_id × IsByte fb.host_id

  -- Every frame that the library makes of arguments of their C++ types is a frame of the CAN bus:
  -- its identifier has 29 bits, and its data is eight bytes.
  pub frame-IsFrame : (m : Made D) → Fits m → IsFrame (frame m)
  unfolding Encode.make_enable_frame Encode.make_set_mechanical_zero_frame
      Encode.make_get_device_id_frame Encode.make_stop_frame Encode.make_set_can_id_frame
      Encode.make_read_param_frame Encode.make_write_param_frame_float
      Encode.make_write_param_frame_uint8 Encode.make_param_response_frame_float
      Encode.make_param_response_frame_uint8 Encode.make_motion_control_frame
      Encode.make_feedback_frame
  frame-IsFrame (Made.enable id host) (hi, hh) =
      frame_of-IsFrame CommType.enable host id zero8 (omega arith) (omega arith) hi (omega arith)
  frame-IsFrame (Made.set_mechanical_zero id host) (hi, hh) =
      frame_of-IsFrame CommType.set_mechanical_zero host id (record zero8 { b0 = 1 }) (omega arith)
        (omega arith) hi (omega arith)
  frame-IsFrame (Made.get_device_id id host) (hi, hh) =
      frame_of-IsFrame CommType.get_device_id host id zero8 (omega arith) (omega arith) hi
        (omega arith)
  frame-IsFrame (Made.stop id host true) (hi, hh) =
      frame_of-IsFrame CommType.stop host id (record zero8 { b0 = 1 }) (omega arith) (omega arith)
        hi (omega arith)
  frame-IsFrame (Made.stop id host false) (hi, hh) =
      frame_of-IsFrame CommType.stop host id (record zero8 { b0 = 0 }) (omega arith) (omega arith)
        hi (omega arith)
  frame-IsFrame (Made.set_can_id id host new_id) (hi, hh, hn) =
      frame_of-IsFrame CommType.set_can_id (u16 (bit_or (shl new_id 8) host)) id zero8 (omega arith)
        (omega arith) hi (omega arith)
  frame-IsFrame (Made.read_param id host index) (hi, hh, hx) =
      frame_of-IsFrame CommType.read_param host id (index_data index) (omega arith) (omega arith) hi
        (omega arith)
  frame-IsFrame (Made.write_float id host index w) (hi, hh, hx) = put_float-IsFrame _ w (
      frame_of-IsFrame CommType.write_param host id (index_data index) (omega arith) (omega arith)
        hi (omega arith))
  frame-IsFrame (Made.write_uint8 id host index b) (hi, hh, hx, hb) = put_uint8-IsFrame _ b hb (
      frame_of-IsFrame CommType.write_param host id (index_data index) (omega arith) (omega arith)
        hi (omega arith))
  frame-IsFrame (Made.response_float id host index w) (hi, hh, hx) = put_float-IsFrame _ w (
      frame_of-IsFrame CommType.read_param id host (index_data index) (omega arith) (omega arith) hh
        (omega arith))
  frame-IsFrame (Made.response_uint8 id host index b) (hi, hh, hx, hb) = put_uint8-IsFrame _ b hb (
      frame_of-IsFrame CommType.read_param id host (index_data index) (omega arith) (omega arith) hh
        (omega arith))
  frame-IsFrame (Made.motion_control id torque position velocity kp kd limits) hi =
      frame_of-IsFrame CommType.motion_control
        (float_to_uint torque (d.neg limits.torque) limits.torque 16) id _ (omega arith)
        (float_to_uint-IsU16 torque (d.neg limits.torque) limits.torque 16) hi (omega arith)
  frame-IsFrame (Made.feedback fb limits) (hi, hh) =
      frame_of-IsFrame CommType.feedback _ fb.host_id _ (omega arith) (omega arith) hh (omega arith)
