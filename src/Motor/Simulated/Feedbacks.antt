-- ===== src/Motor/Simulated/Feedbacks.antt =====
-- The commands that are answered by feedback, over the simulated bus.
mod Settled
pub use Settled.*
use robstride_driver.Common.{
  ℕ, suc, ◌<◌, ◌≡◌, ◌∙◌, refl, ap, arith, Bool, true, false, [], ◌∷◌, some, ok, finished,
  if◌then◌else◌,
}
use mathlib.Core.Path.{subst}
use robstride_driver.Common.Bits.{IsByte, IsU16}
use robstride_driver.Double.{Double}
use robstride_driver.Protocol.Types.{CanFrame, CommType, comm_type_value, Feedback}
use robstride_driver.Protocol.Ids.{make_id, get_target_motor_id, get_host_id}
use robstride_driver.Protocol.Ids.Layout.{make_id_fields}
use robstride_driver.Protocol.Encode.{
  make_enable_frame, make_stop_frame, make_set_mechanical_zero_frame, make_write_param_frame_float,
  make_write_param_frame_uint8, make_motion_control_frame, make_feedback_frame,
}
use robstride_driver.Protocol.Decode.{parse_feedback}
use robstride_driver.Protocol.RoundTrip.Feedback.{
  transmitted, parse_feedback-make_feedback_frame, make_feedback_frame_fields,
}
use robstride_driver.Protocol.Scaling.{float_to_uint}
use robstride_driver.Protocol.RoundTrip.Feedback.{float_to_uint-IsU16}
use robstride_driver.Stub.Replies.{host-IsByte}
use robstride_driver.Stub.{Stub, MotorState}
use robstride_driver.Stub
use robstride_driver.Stub.Commands
use robstride_driver.Stub.Commands.{float_request, uint8_request}
use robstride_driver.Stub.Motors.{motor-set_motor_self}
use robstride_driver.Motor.Monad.{World}
use robstride_driver.Motor.Exchange.{transceive_feedback, feedback_or_throw}
use robstride_driver.Motor.Commands.{
  enable, disable, write_param_float, write_param_uint8, send_motion_command,
}
use robstride_driver.Motor.Simulated.{Bench, stub_can, OnTime, transceive-stub}

module _ {D : Type 0} ⦃d : Double D⦄ where
  module _ (fuel : ℕ) (w : World D (Bench D)) (ready : IsReady w) where
    abbrev pub id : ℕ
    id = w.motor.config.motor_id

    abbrev pub host : ℕ
    host = w.motor.config.host_id

    -- The motor's state when the bus reads the clock.
    abbrev pub advanced : MotorState D
    advanced = Stub.advance (w.bus.clock w.bus.tick) (state_of w)

    -- The driver's frames name the motor and the host.
    addressed :
        (type : CommType) (f : CanFrame)
        → comm_type_value type < 32
        → f.id ≡ make_id type host id
        → (get_target_motor_id f ≡ id) × (get_host_id f ≡ host)
    addressed type f small e =
        let h = ready.host_byte in
        let fields = make_id_fields type host id f small (omega arith) ready.motor_byte e in
        (fields.3, omega (arith, fields.2))

    -- Over a ready simulated bus, `enable` advances the motor to the time of the call and enables
    -- it. The result, and the cached feedback, is the 16-bit form of the feedback on that state.
    pub enable-settled :
        let s = record advanced { enabled = true } in
        enable (suc fuel) w ≡ (finished (ok (reported s w)), settled s w)
    unfolding enable make_enable_frame
    enable-settled =
        let f = make_enable_frame id host in
        let (to, from) = addressed CommType.enable f (omega arith) refl in
        transceive_feedback-settled fuel f (record advanced { enabled = true }) w ready
          (Commands.send-make_enable_frame id host (w.bus.clock w.bus.tick) ready.motor_byte
            ready.host_byte w.bus.stub)
          to from

    -- The state after a stop frame.
    abbrev pub stopped : Bool → MotorState D
    stopped clear_fault =
        let s = record advanced { enabled = false } in
        if clear_fault then record s { fault_bits = 0 } else s

    -- Over a ready simulated bus, `disable` advances the motor to the time of the call, stops it,
    -- and clears its fault bits exactly if it is told to. The result, and the cached feedback, is
    -- the 16-bit form of the feedback on that state.
    pub disable-settled :
        (clear_fault : Bool)
        → disable (suc fuel) clear_fault w
          ≡ (finished (ok (reported (stopped clear_fault) w)), settled (stopped clear_fault) w)
    unfolding disable make_stop_frame
    disable-settled clear_fault =
        let f = make_stop_frame id host clear_fault in
        let (to, from) = addressed CommType.stop f (omega arith) refl in
        transceive_feedback-settled fuel f (stopped clear_fault) w ready
          (Commands.send-make_stop_frame id host (w.bus.clock w.bus.tick) ready.motor_byte
            ready.host_byte w.bus.stub clear_fault)
          to from

    pub zero-settled :
        let s = record advanced { position = d.of_ℕ 0 } in
        transceive_feedback (suc fuel) (make_set_mechanical_zero_frame id host) w
        ≡ (finished (ok (reported s w)), settled s w)
    unfolding make_set_mechanical_zero_frame
    zero-settled =
        let f = make_set_mechanical_zero_frame id host in
        let (to, from) = addressed CommType.set_mechanical_zero f (omega arith) refl in
        transceive_feedback-settled fuel f (record advanced { position = d.of_ℕ 0 }) w ready
          (Commands.send-make_set_mechanical_zero_frame id host (w.bus.clock w.bus.tick)
            ready.motor_byte ready.host_byte w.bus.stub)
          to from

    -- A motion command leaves the state as it is; the host of its reply is the low byte of the
    -- torque.
    pub send_motion_command-settled :
        (torque position velocity kp kd : D)
        → let f = make_motion_control_frame id torque position velocity kp kd w.motor.limits in
          send_motion_command (suc fuel) torque position velocity kp kd w ≡ (
            finished (ok (reported_to (get_host_id f) advanced w)),
            settled_to (get_host_id f) advanced w,
          )
    unfolding send_motion_command
    send_motion_command-settled torque position velocity kp kd =
        let limits = w.motor.limits in
        let f = make_motion_control_frame id torque position velocity kp kd limits in
        let area = float_to_uint torque (d.neg limits.torque) limits.torque 16 in
        let fields =
          make_id_fields CommType.motion_control area id f (omega arith)
            (float_to_uint-IsU16 torque (d.neg limits.torque) limits.torque 16) ready.motor_byte
            (unfold make_motion_control_frame in refl) in
        transceive_feedback-answered fuel f advanced w ready
          (Commands.send-make_motion_control_frame id host (w.bus.clock w.bus.tick) ready.motor_byte
            ready.host_byte w.bus.stub torque position velocity kp kd limits)
          fields.3

    module _ (index : ℕ) (hi : IsU16 index) (value : ℕ) where
      abbrev pub float_written : MotorState D
      float_written =
          Stub.write_state (float_request id host index value) w.bus.stub.limits advanced

      abbrev pub uint8_written : MotorState D
      uint8_written =
          Stub.write_state (uint8_request id host index value) w.bus.stub.limits advanced

      -- Over a ready simulated bus, a float parameter write advances the motor to the time of the
      -- call, and stores the value under its index in the addressed motor (and moves it to a CSP
      -- target). The result, and the cached feedback, is the 16-bit form of the feedback on that
      -- state.
      pub write_param_float-settled :
          write_param_float (suc fuel) index value w
          ≡ (finished (ok (reported float_written w)), settled float_written w)
      unfolding write_param_float
      write_param_float-settled =
          let f = make_write_param_frame_float id host index value in
          let (to, from) =
            addressed CommType.write_param f (omega arith)
              (unfold make_write_param_frame_float in refl) in
          transceive_feedback-settled fuel f float_written w ready
            (Commands.send-make_write_param_frame_float id host (w.bus.clock w.bus.tick)
              ready.motor_byte ready.host_byte w.bus.stub index hi value)
            to from

      pub write_param_uint8-settled :
          write_param_uint8 (suc fuel) index value w
          ≡ (finished (ok (reported uint8_written w)), settled uint8_written w)
      unfolding write_param_uint8
      write_param_uint8-settled =
          let f = make_write_param_frame_uint8 id host index value in
          let (to, from) =
            addressed CommType.write_param f (omega arith)
              (unfold make_write_param_frame_uint8 in refl) in
          transceive_feedback-settled fuel f uint8_written w ready
            (Commands.send-make_write_param_frame_uint8 id host (w.bus.clock w.bus.tick)
              ready.motor_byte ready.host_byte w.bus.stub index hi value)
            to from
