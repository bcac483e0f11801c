-- ===== src/Stub/Answers.antt =====
-- What the simulated bus answers to the frames that the library makes.
use robstride_driver.Common.{
  ℕ, ◌≡◌, ◌∙◌, ◌%◌, ◌^◌, ◌<◌, refl, arith, [], ◌∷◌, ◌++◌, Option, none, some, bit_or,
}
use robstride_driver.Common.Bits.{IsByte, IsU16, u16, shl}
use robstride_driver.Double.{Double}
use robstride_driver.Protocol.Types.{CanFrame, CommType, comm_type_value, comm_type_of}
use robstride_driver.Protocol.Ids.{make_id, get_comm_type, get_source_motor_id, get_target_motor_id}
use robstride_driver.Protocol.Ids.Layout.{make_id_fields}
use robstride_driver.Protocol.Scaling.{float_to_uint}
use robstride_driver.Protocol.Encode
use robstride_driver.Protocol.RoundTrip.Feedback.{float_to_uint-IsU16}
use robstride_driver.Protocol.Valid.{Made, Fits, frame}
use robstride_driver.Stub.{Stub, send}
use robstride_driver.Stub.Replies.{Replies, reply_type, send-Replies}

-- The type of an answer, the motor that gives it, and where it goes.
pub record Answer : Type 0 where
  pub kind : CommType
  pub from : ℕ
  pub to : ℕ

abbrev answer_of : CommType → ℕ → ℕ → Option Answer
answer_of kind from to = some (record { kind = kind; from = from; to = to })

module _ {D : Type 0} ⦃d : Double D⦄ where
  -- The answer to a frame. A response to a read has the type of a read, from a motor that has the
  -- host's id, and a motion-control frame has the torque in the place of the host's id.
  abbrev pub answer_to : Made D → Option Answer
  answer_to (Made.enable id host) = answer_of CommType.feedback id host
  answer_to (Made.set_mechanical_zero id host) = answer_of CommType.feedback id host
  answer_to (Made.stop id host clear_fault) = answer_of CommType.feedback id host
  answer_to (Made.write_float id host index w) = answer_of CommType.feedback id host
  answer_to (Made.write_uint8 id host index b) = answer_of CommType.feedback id host
  answer_to (Made.read_param id host index) = answer_of CommType.read_param id host
  answer_to (Made.response_float id host index w) = answer_of CommType.read_param host id
  answer_to (Made.response_uint8 id host index b) = answer_of CommType.read_param host id
  answer_to (Made.motion_control id torque position velocity kp kd limits) =
      answer_of CommType.feedback id
        (float_to_uint torque (d.neg limits.torque) limits.torque 16 % 2 ^ 8)
  answer_to (Made.get_device_id id host) = none
  answer_to (Made.set_can_id id host new_id) = none
  answer_to (Made.feedback fb limits) = none

  -- The answer stands at the end of the queue; without one, nothing changes.
  abbrev pub Answered : Option Answer → Stub D → Stub D → Type 0
  Answered none before after = after ≡ before
  Answered (some a) before after =
      (reply : CanFrame) × (after.responses ≡ before.responses ++ reply ∷ [])
      × (get_comm_type reply ≡ comm_type_value a.kind)
      × (get_source_motor_id reply ≡ a.from)
      × (get_target_motor_id reply ≡ a.to)

  module _ (now : ℕ) (f : CanFrame) (stub : Stub D) (type : CommType) (area dest : ℕ)
      (small : comm_type_value type < 32) (ha : IsU16 area) (hd : IsByte dest)
      (e : f.id ≡ make_id type area dest) where
    answered :
        (kind : CommType)
        → reply_type (comm_type_of (comm_type_value type)) ≡ some kind
        → Answered (answer_of kind dest (area % 2 ^ 8)) stub (send now f stub)
    answered kind typed =
        let fields = make_id_fields type area dest f small ha hd e in
        let known : reply_type (comm_type_of (get_comm_type f)) ≡ some kind = rw fields.0 typed in
        let replied : Replies (some kind) f stub (send now f stub) =
          rw known at (send-Replies now f stub) in
        (
          replied.0,
          replied.2,
          replied.1.type_matches,
          replied.1.from_target ∙ fields.3,
          replied.1.to_second_byte ∙ fields.2,
        )

    answered_host :
        (kind : CommType) (host : ℕ)
        → reply_type (comm_type_of (comm_type_value type)) ≡ some kind
        → area ≡ host
        → IsByte host
        → Answered (answer_of kind dest host) stub (send now f stub)
    answered_host kind host typed same hh =
        let whole : area % 2 ^ 8 ≡ host = omega arith in rw whole at (answered kind typed)

    ignored : reply_type (comm_type_of (comm_type_value type)) ≡ none → send now f stub ≡ stub
    ignored typed =
        let fields = make_id_fields type area dest f small ha hd e in
        let known : reply_type (comm_type_of (get_comm_type f)) ≡ none = rw fields.0 typed in
        rw known at (send-Replies now f stub)

  -- The simulated bus answers a frame that the library makes of arguments of their C++ types by
  -- one reply at the end of its queue. It comes from the addressed motor, and is feedback to
  -- enable, stop, set-zero and parameter writes and a parameter response to parameter reads, all
  -- to the host of the frame; feedback to motion control, to the low byte of the quantised torque;
  -- and for a parameter response, which has the type of a read, another one to its sender. The
  -- other frames, to set or get an id and feedback, change nothing.
  pub send-Answered :
      (now : ℕ) (m : Made D) (stub : Stub D)
      → Fits m
      → Answered (answer_to m) stub (send now (frame m) stub)
  unfolding Encode.make_enable_frame Encode.make_set_mechanical_zero_frame
      Encode.make_get_device_id_frame Encode.make_stop_frame Encode.make_set_can_id_frame
      Encode.make_read_param_frame Encode.make_write_param_frame_float
      Encode.make_write_param_frame_uint8 Encode.make_param_response_frame_float
      Encode.make_param_response_frame_uint8 Encode.make_motion_control_frame
      Encode.make_feedback_frame
  send-Answered now (Made.enable id host) stub (hi, hh) =
      answered_host now _ stub CommType.enable host id (omega arith) (omega arith) hi refl
        CommType.feedback host refl refl hh
  send-Answered now (Made.set_mechanical_zero id host) stub (hi, hh) =
      answered_host now _ stub CommType.set_mechanical_zero host id (omega arith) (omega arith) hi
        refl CommType.feedback host refl refl hh
  send-Answered now (Made.stop id host b) stub (hi, hh) =
      answered_host now _ stub CommType.stop host id (omega arith) (omega arith) hi refl
        CommType.feedback host refl refl hh
  send-Answered now (Made.write_float id host index w) stub (hi, hh, hx) =
      answered_host now _ stub CommType.write_param host id (omega arith) (omega arith) hi refl
        CommType.feedback host refl refl hh
  send-Answered now (Made.write_uint8 id host index b) stub (hi, hh, hx, hb) =
      answered_host now _ stub CommType.write_param host id (omega arith) (omega arith) hi refl
        CommType.feedback host refl refl hh
  send-Answered now (Made.read_param id host index) stub (hi, hh, hx) =
      answered_host now _ stub CommType.read_param host id (omega arith) (omega arith) hi refl
        CommType.read_param host refl refl hh
  send-Answered now (Made.response_float id host index w) stub (hi, hh, hx) =
      answered_host now _ stub CommType.read_param id host (omega arith) (omega arith) hh refl
        CommType.read_param id refl refl hi
  send-Answered now (Made.response_uint8 id host index b) stub (hi, hh, hx, hb) =
      answered_host now _ stub CommType.read_param id host (omega arith) (omega arith) hh refl
        CommType.read_param id refl refl hi
  send-Answered now (Made.motion_control id torque position velocity kp kd limits) stub hi =
      answered now _ stub CommType.motion_control
        (float_to_uint torque (d.neg limits.torque) limits.torque 16) id (omega arith)
        (float_to_uint-IsU16 torque (d.neg limits.torque) limits.torque 16) hi refl
        CommType.feedback refl
  send-Answered now (Made.get_device_id id host) stub (hi, hh) =
      ignored now _ stub CommType.get_device_id host id (omega arith) (omega arith) hi refl refl
  send-Answered now (Made.set_can_id id host new_id) stub (hi, hh, hn) =
      ignored now _ stub CommType.set_can_id (u16 (bit_or (shl new_id 8) host)) id (omega arith)
        (omega arith) hi refl refl
  send-Answered now (Made.feedback fb limits) stub (hi, hh) =
      ignored now _ stub CommType.feedback _ fb.host_id (omega arith) (omega arith) hh refl refl
