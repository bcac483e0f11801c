-- ===== src/Stub/Sound.antt =====
-- The state of the simulated bus stays well formed.
use robstride_driver.Common.{
  ℕ, ◌≡◌, arith, ◌==◌, [], ◌∷◌, All, All-append, some, Option-cases, Bool-cases, inl, inr,
}
use robstride_driver.Common.Bits.{IsByte, IsU16}
use robstride_driver.Common.Assoc.{Assoc, find, insert}
use robstride_driver.Double.{Double}
use robstride_driver.Protocol.Types.{
  CanFrame, CommType, comm_type_of, ParamReadRequest, ParamWriteRequest, as_uint8,
}
use robstride_driver.Protocol.Params
use robstride_driver.Protocol.Limits.{ActuatorLimits}
use robstride_driver.Protocol.Ids.{get_comm_type, get_target_motor_id, get_host_id}
use robstride_driver.Protocol.Decode.{parse_param_read_request, parse_param_write_request}
use robstride_driver.Protocol.Valid.{IsFrame, Made, frame-IsFrame}
use robstride_driver.Stub.{
  MotorState, Stub, or_initial, motor, set_motor, answer, read_response, write_state, advance,
  dispatch, send, push_response, param_or_zero, set_fault_bits, feedback_of,
}
use robstride_driver.Stub.Replies.{target-IsByte, host-IsByte}

read_index :
    (f : CanFrame) (r : ParamReadRequest) → parse_param_read_request f ≡ some r → IsU16 r.index
unfolding parse_param_read_request
read_index f r e = ground arith

written-IsByte :
    (f : CanFrame) (r : ParamWriteRequest)
    → IsFrame f
    → parse_param_write_request f ≡ some r
    → IsByte (as_uint8 r.value)
unfolding parse_param_write_request
written-IsByte f r h e = ground arith

module _ {D : Type 0} ⦃d : Double D⦄ where
  abbrev HasMode : ℕ × MotorState D → Type 0
  HasMode (id, s) = IsByte s.run_mode

  -- The frames in the queue are frames of the bus, and the modes are bytes.
  pub record IsSound (stub : Stub D) : Type 0 where
    pub queue : All IsFrame stub.responses
    pub modes : All HasMode stub.motors

  insert-HasMode :
      (id : ℕ) (s : MotorState D) (m : Assoc (MotorState D))
      → IsByte s.run_mode
      → All HasMode m
      → All HasMode (insert id s m)
  unfolding insert
  insert-HasMode id s [] h hs = (h, tt)
  insert-HasMode id s ((j, t) ∷ m) h (ht, hs) = elim (Bool-cases (j == id)) [
    | inl same ↦ rw same (h, hs)
    | inr other ↦ rw other (ht, insert-HasMode id s m h hs)
  ]

  find-HasMode :
      (id : ℕ) (m : Assoc (MotorState D)) → All HasMode m → IsByte (or_initial (find id m)).run_mode
  unfolding find
  find-HasMode id [] hs = omega arith
  find-HasMode id ((j, t) ∷ m) (h, hs) = elim (Bool-cases (j == id)) [
    | inl same ↦ rw same h
    | inr other ↦ rw other (find-HasMode id m hs)
  ]

  answer-IsSound :
      (f : CanFrame) (s : MotorState D) (stub : Stub D)
      → IsByte s.run_mode
      → IsSound stub
      → IsSound (answer f s stub)
  unfolding answer feedback_of
  answer-IsSound f s stub h sound =
      let id = get_target_motor_id f in
      let host = get_host_id f in
      let fb = feedback_of id host s (set_motor id s stub) in
      record {
        queue =
            All-append IsFrame stub.responses _ sound.queue
              (frame-IsFrame (Made.feedback fb stub.limits) (target-IsByte f, host-IsByte f), tt);
        modes = insert-HasMode id s stub.motors h sound.modes;
      }

  read_response-IsFrame :
      (f : CanFrame) (r : ParamReadRequest) (s : MotorState D)
      → IsU16 r.index
      → IsByte s.run_mode
      → IsFrame (read_response f r s)
  unfolding read_response
  read_response-IsFrame f r s hx h =
      let id = get_target_motor_id f in
      let host = get_host_id f in
      elim (Bool-cases (r.index == Params.run_mode)) [
        | inl e ↦ rw e (
            frame-IsFrame {D = D} (Made.response_uint8 id host r.index s.run_mode)
              (target-IsByte f, host-IsByte f, hx, h))
        | inr e ↦ rw e (
            frame-IsFrame {D = D}
              (Made.response_float id host r.index (param_or_zero s.params r.index))
              (target-IsByte f, host-IsByte f, hx))
      ]

  write_state-HasMode :
      (r : ParamWriteRequest) (limits : ActuatorLimits D) (s : MotorState D)
      → IsByte (as_uint8 r.value)
      → IsByte s.run_mode
      → IsByte (write_state r limits s).run_mode
  unfolding write_state
  write_state-HasMode r limits s hb h = ground arith

  push-IsSound :
      (f : CanFrame) (stub : Stub D) → IsFrame f → IsSound stub → IsSound (push_response f stub)
  push-IsSound f stub h sound = record {
    queue = All-append IsFrame stub.responses _ sound.queue (h, tt);
    modes = sound.modes;
  }

  set_motor-IsSound :
      (id : ℕ) (s : MotorState D) (stub : Stub D)
      → IsByte s.run_mode
      → IsSound stub
      → IsSound (set_motor id s stub)
  unfolding set_motor
  set_motor-IsSound id s stub h sound = record {
    queue = sound.queue;
    modes = insert-HasMode id s stub.motors h sound.modes;
  }

  dispatch-IsSound :
      (type : CommType) (now : ℕ) (f : CanFrame) (s : MotorState D) (stub : Stub D)
      → IsFrame f
      → IsByte s.run_mode
      → IsSound stub
      → IsSound (dispatch type now f s stub)
  unfolding dispatch advance
  dispatch-IsSound CommType.enable now f s stub hf h sound = answer-IsSound f _ stub h sound
  dispatch-IsSound CommType.stop now f s stub hf h sound = elim (Bool-cases (f.payload.b0 == 1)) [
    | inl e ↦ rw e (answer-IsSound f _ stub h sound)
    | inr e ↦ rw e (answer-IsSound f _ stub h sound)
  ]
  dispatch-IsSound CommType.set_mechanical_zero now f s stub hf h sound =
      answer-IsSound f _ stub h sound
  dispatch-IsSound CommType.motion_control now f s stub hf h sound = answer-IsSound f _ stub h sound
  dispatch-IsSound CommType.read_param now f s stub hf h sound =
      elim (Option-cases (parse_param_read_request f)) [
        | inl e ↦ rw (e, dispatch) sound
        | inr (r, e) ↦
            rw (e, dispatch)
              (push-IsSound (read_response f r s) _
                (read_response-IsFrame f r s (read_index f r e) h)
                (set_motor-IsSound (get_target_motor_id f) s stub h sound))
      ]
  dispatch-IsSound CommType.write_param now f s stub hf h sound =
      elim (Option-cases (parse_param_write_request f)) [
        | inl e ↦ rw (e, dispatch) sound
        | inr (r, e) ↦
            rw (e, dispatch)
              (answer-IsSound f _ stub
                (write_state-HasMode r stub.limits (advance now s) (written-IsByte f r hf e) h)
                sound)
      ]
  dispatch-IsSound _ now f s stub hf h sound = sound

  -- Each operation of the bus leaves it well formed, for frames of the bus.
  pub send-IsSound :
      (now : ℕ) (f : CanFrame) (stub : Stub D)
      → IsFrame f
      → IsSound stub
      → IsSound (send now f stub)
  unfolding send motor
  send-IsSound now f stub hf sound =
      let id = get_target_motor_id f in
      dispatch-IsSound (comm_type_of (get_comm_type f)) now f (motor id stub) stub hf
        (find-HasMode id stub.motors sound.modes) sound

  pub set_fault_bits-IsSound :
      (id bits : ℕ) (stub : Stub D) → IsSound stub → IsSound (set_fault_bits id bits stub)
  unfolding set_fault_bits
  set_fault_bits-IsSound id bits stub sound = record {
    queue = sound.queue;
    modes = insert-HasMode id _ stub.motors (find-HasMode id stub.motors sound.modes) sound.modes;
  }
