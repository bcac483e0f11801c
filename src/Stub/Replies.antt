-- ===== src/Stub/Replies.antt =====
-- What the simulated bus answers to a frame.
use robstride_driver.Common.{
  ℕ, ◌≡◌, sym, ◌≢◌, refl, arith, [], ◌∷◌, ◌++◌, Option, none, some, ◌==◌, Bool-cases, Option-cases,
  inl, inr,
}
use robstride_driver.Common.Bits.{IsByte}
use robstride_driver.Double.{Double}
use robstride_driver.Protocol.Types.{
  CanFrame, CommType, comm_type_value, comm_type_of, ParamReadRequest,
}
use robstride_driver.Protocol.Params
use robstride_driver.Protocol.Ids.{
  make_id, get_comm_type, get_source_motor_id, get_target_motor_id, get_host_id,
}
use robstride_driver.Protocol.Ids.Layout.{make_id_fields}
use robstride_driver.Protocol.Encode.{
  make_param_response_frame_float, make_param_response_frame_uint8,
}
use robstride_driver.Protocol.Decode.{parse_param_read_request, parse_param_write_request}
use robstride_driver.Protocol.RoundTrip.Feedback.{make_feedback_frame_fields}
use robstride_driver.Stub.{
  MotorState, Stub, set_motor, answer, feedback_of, read_response, dispatch, send,
}

pub target-IsByte : (f : CanFrame) → IsByte (get_target_motor_id f)
unfolding get_target_motor_id
target-IsByte f = omega arith

pub host-IsByte : (f : CanFrame) → IsByte (get_host_id f)
unfolding get_host_id
host-IsByte f = omega arith

-- `reply` goes from the motor that `frame` addresses to the byte in bits 15-8 of its identifier,
-- which not every frame has for a host's id.
pub record IsReply (kind : CommType) (frame reply : CanFrame) : Type 0 where
  pub type_matches : get_comm_type reply ≡ comm_type_value kind
  pub from_target : get_source_motor_id reply ≡ get_target_motor_id frame
  pub to_second_byte : get_target_motor_id reply ≡ get_host_id frame

comm_type_value-of : (n : ℕ) → comm_type_value (comm_type_of n) ≡ n
comm_type_value-of n = ground arith

read_request_accepted :
    (frame : CanFrame) → get_comm_type frame ≡ 0x11 → parse_param_read_request frame ≢ none
unfolding parse_param_read_request
read_request_accepted frame e = rw e (λ p. cc)

write_request_accepted :
    (frame : CanFrame) → get_comm_type frame ≡ 0x12 → parse_param_write_request frame ≢ none
unfolding parse_param_write_request
write_request_accepted frame e = rw e (λ p. cc)

-- The type of the answer to a frame of each type, if there is one.
abbrev pub reply_type : CommType → Option CommType
reply_type CommType.enable = some CommType.feedback
reply_type CommType.stop = some CommType.feedback
reply_type CommType.set_mechanical_zero = some CommType.feedback
reply_type CommType.motion_control = some CommType.feedback
reply_type CommType.write_param = some CommType.feedback
reply_type CommType.read_param = some CommType.read_param
reply_type _ = none

module _ {D : Type 0} ⦃d : Double D⦄ where
  -- One reply is queued if the type has an answer; otherwise nothing happens at all.
  abbrev pub Replies : Option CommType → CanFrame → Stub D → Stub D → Type 0
  Replies none frame before after = after ≡ before
  Replies (some kind) frame before after =
      (reply : CanFrame) × IsReply kind frame reply
      × (after.responses ≡ before.responses ++ reply ∷ [])

  answer-Replies :
      (frame : CanFrame) (state : MotorState D) (stub : Stub D)
      → Replies (some CommType.feedback) frame stub (answer frame state stub)
  unfolding answer feedback_of
  answer-Replies frame state stub =
      let motor_id = get_target_motor_id frame in
      let host_id = get_host_id frame in
      let (type_ok, source_ok, target_ok) =
        make_feedback_frame_fields
          (feedback_of motor_id host_id state (set_motor motor_id state stub)) stub.limits
          (target-IsByte frame) (host-IsByte frame) in
      (
        _,
        record { type_matches = type_ok; from_target = source_ok; to_second_byte = target_ok },
        refl,
      )

  read_response-id :
      (frame : CanFrame) (request : ParamReadRequest) (state : MotorState D)
      → (read_response frame request state).id
        ≡ make_id CommType.read_param (get_target_motor_id frame) (get_host_id frame)
  unfolding read_response make_param_response_frame_float make_param_response_frame_uint8
  read_response-id frame request state = elim (Bool-cases (request.index == Params.run_mode)) [
    | inl e ↦ rw e
    | inr e ↦ rw e
  ]

  pub read_response-IsReply :
      (frame : CanFrame) (request : ParamReadRequest) (state : MotorState D)
      → IsReply CommType.read_param frame (read_response frame request state)
  read_response-IsReply frame request state =
      let motor_id = get_target_motor_id frame in
      let small = target-IsByte frame in
      let (type_ok, source_ok, _, target_ok) =
        make_id_fields CommType.read_param motor_id (get_host_id frame)
          (read_response frame request state) (omega arith) (omega arith) (host-IsByte frame)
          (read_response-id frame request state) in
      record { type_matches = type_ok; from_target = omega arith; to_second_byte = target_ok }

  dispatch-Replies :
      (type : CommType) (now : ℕ) (frame : CanFrame) (state : MotorState D) (stub : Stub D)
      → get_comm_type frame ≡ comm_type_value type
      → Replies (reply_type type) frame stub (dispatch type now frame state stub)
  unfolding dispatch set_motor
  dispatch-Replies CommType.enable now frame state stub e = answer-Replies frame _ stub
  dispatch-Replies CommType.stop now frame state stub e = answer-Replies frame _ stub
  dispatch-Replies CommType.set_mechanical_zero now frame state stub e = answer-Replies frame _ stub
  dispatch-Replies CommType.motion_control now frame state stub e = answer-Replies frame _ stub
  dispatch-Replies CommType.read_param now frame state stub e =
      elim (Option-cases (parse_param_read_request frame)) [
        | inl refused ↦ absurd (read_request_accepted frame e refused)
        | inr (request, accepted) ↦
            rw (accepted, dispatch) (_, read_response-IsReply frame request state, refl)
      ]
  dispatch-Replies CommType.write_param now frame state stub e =
      elim (Option-cases (parse_param_write_request frame)) [
        | inl refused ↦ absurd (write_request_accepted frame e refused)
        | inr (request, accepted) ↦ rw (accepted, dispatch) (answer-Replies frame _ stub)
      ]
  dispatch-Replies _ now frame state stub e = refl

  -- A frame is answered by one reply at the end of the queue, from the addressed motor to bits 15-8
  -- of the frame's identifier, or it changes nothing.
  pub send-Replies :
      (now : ℕ) (frame : CanFrame) (stub : Stub D)
      → Replies (reply_type (comm_type_of (get_comm_type frame))) frame stub (send now frame stub)
  unfolding send
  send-Replies now frame stub =
      dispatch-Replies (comm_type_of (get_comm_type frame)) now frame _ stub
        (sym (comm_type_value-of (get_comm_type frame)))
