-- ===== src/Protocol/RoundTrip/Feedback.antt =====
-- `parse_feedback` after `make_feedback_frame`: the ids, mode and fault bits arrive, and each
-- physical value arrives as its 16-bit quantisation.
use robstride_driver.Common.{ℕ, ◌+◌, ◌*◌, ◌%◌, ◌^◌, ◌≡◌, refl, arith, some, bit_and, bit_or, ◌∙◌}
use robstride_driver.Common.Bits.{
  IsByte, IsU16, u8, u16, shl, shr, bit_or-shl, mask_03, mask_3f, mask_ff,
}
use robstride_driver.Common.Int.{u16_of_ℤ}
use robstride_driver.Double.{Double}
use robstride_driver.Protocol.Types.{CommType, CanFrame, motor_mode_value, motor_mode_of, Feedback}
use robstride_driver.Protocol.Limits.{ActuatorLimits}
use robstride_driver.Protocol.Scaling.{float_to_uint, uint_to_float}
use robstride_driver.Protocol.Ids.{make_id, get_comm_type, get_source_motor_id, get_target_motor_id}
use robstride_driver.Protocol.Ids.Layout.{make_id-sum, make_id_fields}
use robstride_driver.Protocol.Encode.{make_feedback_frame}
use robstride_driver.Protocol.Decode.{parse_feedback}
use robstride_driver.Protocol.RoundTrip.Words.{word_of-split, u16_of_ℤ-IsU16}

-- The 16 bits between the type and the destination: mode, fault bits, and the sender's id.
feedback_area : ℕ → ℕ → ℕ → ℕ
feedback_area mode raw motor_id =
    u16 (bit_or (bit_or (u16 (shl (u16 mode) 14)) (u16 (shl (bit_and raw 0x3F) 8))) motor_id)

feedback_area-sum :
    (mode raw motor_id : ℕ)
    → IsByte motor_id
    → feedback_area mode raw motor_id ≡ mode % 4 * 2 ^ 14 + raw % 64 * 2 ^ 8 + motor_id
unfolding feedback_area
feedback_area-sum mode raw motor_id h =
    let high : u16 (shl (u16 mode) 14) ≡ shl (mode % 4) 14 = omega arith in
    let low : u16 (shl (raw % 64) 8) ≡ raw % 64 * 2 ^ 8 = omega arith in
    let both : mode % 4 * 2 ^ 14 + raw % 64 * 2 ^ 8 ≡ shl (mode % 4 * 2 ^ 6 + raw % 64) 8 =
      omega arith in
    rw
      (
        mask_3f raw,
        high,
        low,
        bit_or-shl 14 (mode % 4) (raw % 64 * 2 ^ 8) (omega arith),
        both,
        bit_or-shl 8 (mode % 4 * 2 ^ 6 + raw % 64) motor_id h,
      )
      (omega arith)

module _ (f : CanFrame) (mode raw motor_id host_id : ℕ) (hm : IsByte motor_id) (hh : IsByte host_id)
    (e : f.id ≡ make_id CommType.feedback (feedback_area mode raw motor_id) host_id) where
  id-sum : f.id ≡ 2 * 2 ^ 24 + (mode % 4 * 2 ^ 14 + raw % 64 * 2 ^ 8 + motor_id) * 2 ^ 8 + host_id
  id-sum =
      let area = feedback_area-sum mode raw motor_id hm in
      omega (
        arith,
        e,
        area,
        make_id-sum CommType.feedback (feedback_area mode raw motor_id) host_id (omega arith)
            (omega (arith, area)) hh,
      )

  feedback_mode : bit_and (shr f.id 22) 0x03 ≡ mode % 4
  feedback_mode = rw mask_03 (omega (arith, id-sum))

  feedback_raw : u8 (bit_and (shr f.id 16) 0x3F) ≡ raw % 64
  feedback_raw = rw mask_3f (omega (arith, id-sum))

  feedback_host : u8 (bit_and f.id 0xFF) ≡ host_id
  feedback_host = rw mask_ff (omega (arith, id-sum))

module _ {D : Type 0} ⦃d : Double D⦄ where
  open d use {of_ℕ, neg, mul, tenth, lround}

  pub float_to_uint-IsU16 : (x min max : D) (bits : ℕ) → IsU16 (float_to_uint x min max bits)
  unfolding float_to_uint
  float_to_uint-IsU16 x min max bits = u16_of_ℤ-IsU16 _

  -- What sixteen bits over the range from -limit to limit keep of a value.
  abbrev pub quantised : D → D → D
  quantised x limit = uint_to_float (float_to_uint x (neg limit) limit 16) (neg limit) limit 16

  -- What sixteen bits keep of a temperature: tenths of a degree, modulo 2 ^ 16.
  abbrev pub quantised_temperature : D → D
  quantised_temperature t = mul (of_ℕ (u16_of_ℤ (lround (mul t (of_ℕ 10))))) tenth

  abbrev pub transmitted : Feedback D → ActuatorLimits D → Feedback D
  transmitted fb limits = record {
    motor_id = fb.motor_id;
    host_id = fb.host_id;
    mode = motor_mode_of (motor_mode_value fb.mode % 4);
    fault = record { raw = fb.fault.raw % 64 };
    position = quantised fb.position limits.position;
    velocity = quantised fb.velocity limits.velocity;
    torque = quantised fb.torque limits.torque;
    temperature = quantised_temperature fb.temperature;
  }

  -- `parse_feedback` reads back what `make_feedback_frame` wrote, for ids that are bytes: the ids,
  -- the mode and the six fault bits arrive, and each physical value arrives as its 16-bit
  -- quantisation over the limits, the temperature in tenths modulo 2 ^ 16.
  pub parse_feedback-make_feedback_frame :
      (fb : Feedback D) (limits : ActuatorLimits D)
      → IsByte fb.motor_id
      → IsByte fb.host_id
      → parse_feedback (make_feedback_frame fb limits) limits ≡ some (transmitted fb limits)
  unfolding parse_feedback make_feedback_frame feedback_area
  parse_feedback-make_feedback_frame fb limits hm hh =
      let f = make_feedback_frame fb limits in
      let mode = motor_mode_value fb.mode in
      let raw = fb.fault.raw in
      let area = feedback_area mode raw fb.motor_id in
      let sum = feedback_area-sum mode raw fb.motor_id hm in
      let fields =
        make_id_fields CommType.feedback area fb.host_id f (omega arith) (omega arith) hh refl in
      let source : area % 2 ^ 8 ≡ fb.motor_id = omega arith in
      rw (
        fields.0,
        fields.1 ∙ source,
        feedback_mode f mode raw fb.motor_id fb.host_id hm hh refl,
        feedback_raw f mode raw fb.motor_id fb.host_id hm hh refl,
        feedback_host f mode raw fb.motor_id fb.host_id hm hh refl,
        word_of-split _ (float_to_uint-IsU16 fb.position (neg limits.position) limits.position 16),
        word_of-split _ (float_to_uint-IsU16 fb.velocity (neg limits.velocity) limits.velocity 16),
        word_of-split _ (float_to_uint-IsU16 fb.torque (neg limits.torque) limits.torque 16),
        word_of-split _ (u16_of_ℤ-IsU16 (lround (mul fb.temperature (of_ℕ 10)))),
      )

  -- A feedback frame names its type, its sender and its destination.
  pub make_feedback_frame_fields :
      (fb : Feedback D) (limits : ActuatorLimits D)
      → IsByte fb.motor_id
      → IsByte fb.host_id
      → let f = make_feedback_frame fb limits in
        (get_comm_type f ≡ 2)
        × (get_source_motor_id f ≡ fb.motor_id)
        × (get_target_motor_id f ≡ fb.host_id)
  unfolding make_feedback_frame feedback_area
  make_feedback_frame_fields fb limits hm hh =
      let f = make_feedback_frame fb limits in
      let mode = motor_mode_value fb.mode in
      let raw = fb.fault.raw in
      let area = feedback_area mode raw fb.motor_id in
      let sum = feedback_area-sum mode raw fb.motor_id hm in
      let fields =
        make_id_fields CommType.feedback area fb.host_id f (omega arith) (omega arith) hh refl in
      (fields.0, omega (arith, fields.1, sum), fields.3)
