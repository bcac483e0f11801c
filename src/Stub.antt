-- ===== src/Stub.antt =====
-- include/robstride_driver/stub_can_interface.hpp and src/stub_can_interface.cpp: motors that are
-- simulated in the process. Times are readings of the clock in nanoseconds.
pub mod Replies
pub mod Answers
pub mod Commands
pub mod Motors
pub mod Writes
pub mod Sound
pub mod Uses
use robstride_driver.Common.{
  ℕ, ◌*◌, Bool, true, false, ◌&&◌, List, [], ◌∷◌, ◌++◌, Option, none, some, Result, ok, err, ◌==◌,
  if◌then◌else◌,
}
use robstride_driver.Common.Assoc.{Assoc, find, insert}
use robstride_driver.Double.{Double}
use robstride_driver.Protocol.Types.{
  CanFrame, CommType, comm_type_of, RunMode, run_mode_value, MotorMode, Feedback, ParamReadRequest,
  ParamWriteRequest, as_uint8, as_float,
}
use robstride_driver.Protocol.Params
use robstride_driver.Protocol.Limits.{ActuatorType, ActuatorLimits, get_actuator_limits}
use robstride_driver.Protocol.Ids.{get_comm_type, get_target_motor_id, get_host_id}
use robstride_driver.Protocol.Encode.{
  make_feedback_frame, make_param_response_frame_float, make_param_response_frame_uint8,
}
use robstride_driver.Protocol.Decode.{parse_param_read_request, parse_param_write_request}

pub record MotorState (D : Type 0) : Type 0 where
  pub enabled : Bool
  pub run_mode : ℕ
  pub position : D
  pub fault_bits : ℕ
  pub params : Assoc ℕ
  pub last_update : ℕ
  pub has_last_update : Bool

pub record Stub (D : Type 0) : Type 0 where
  pub limits : ActuatorLimits D
  pub motors : Assoc (MotorState D)
  pub responses : List CanFrame
  pub temperature : D

-- The pattern of `0.0F` is 0.
unfoldable pub param_or_zero : Assoc ℕ → ℕ → ℕ
param_or_zero params index = elim (find index params) [ some value ↦ value | none ↦ 0 ]

module _ {D : Type 0} ⦃d : Double D⦄ where
  open d use {of_ℕ, add, sub, mul, remainder, widen, seconds}

  abbrev pub initial_state : MotorState D
  initial_state = record {
    enabled = false;
    run_mode = 0;
    position = of_ℕ 0;
    fault_bits = 0;
    params = [];
    last_update = 0;
    has_last_update = false;
  }

  unfoldable pub make_stub : ActuatorType → Result (Stub D)
  make_stub actuator_type = elim (get_actuator_limits actuator_type) [
    | ok limits ↦
        ok (record { limits = limits; motors = []; responses = []; temperature = of_ℕ 30 })
    | err e ↦ err e
  ]

  abbrev pub or_initial : Option (MotorState D) → MotorState D
  or_initial none = initial_state
  or_initial (some state) = state

  -- `motors_[motor_id]`, which is a new state at the first use of an id.
  unfoldable pub motor : ℕ → Stub D → MotorState D
  motor motor_id stub = or_initial (find motor_id stub.motors)

  -- The write through the reference that `motor` returned.
  unfoldable pub set_motor : ℕ → MotorState D → Stub D → Stub D
  set_motor motor_id state stub = record stub { motors = insert motor_id state stub.motors }

  -- `run_mode == static_cast<std::uint8_t>(mode)`.
  abbrev pub is_mode : MotorState D → RunMode → Bool
  is_mode state mode = state.run_mode == run_mode_value mode

  unfoldable pub advance : ℕ → MotorState D → MotorState D
  unfolding param_or_zero
  advance now state =
      let moved =
        add state.position (
          mul (widen (param_or_zero state.params Params.spd_ref))
            (seconds state.last_update now)) in
      record state {
        position =
            if state.has_last_update && (state.enabled && is_mode state RunMode.velocity)
            then moved
            else state.position;
        last_update = now;
        has_last_update = true;
      }

  -- The feedback that reflects a state.
  unfoldable pub feedback_of : ℕ → ℕ → MotorState D → Stub D → Feedback D
  unfolding param_or_zero
  feedback_of motor_id host_id state stub =
      let moving = state.enabled && is_mode state RunMode.velocity in
      record {
        motor_id = motor_id;
        host_id = host_id;
        mode = if state.enabled then MotorMode.run else MotorMode.reset;
        fault = record { raw = state.fault_bits };
        position = remainder state.position (mul (of_ℕ 2) stub.limits.position);
        velocity = if moving then widen (param_or_zero state.params Params.spd_ref) else of_ℕ 0;
        torque = of_ℕ 0;
        temperature = stub.temperature;
      }

  abbrev pub push_response : CanFrame → Stub D → Stub D
  push_response frame stub = record stub { responses = stub.responses ++ frame ∷ [] }

  unfoldable pub queue_feedback : ℕ → ℕ → MotorState D → Stub D → Stub D
  queue_feedback motor_id host_id state stub =
      push_response (make_feedback_frame (feedback_of motor_id host_id state stub) stub.limits) stub

  -- The end of most cases: the state is stored, and its feedback is queued.
  unfoldable pub answer : CanFrame → MotorState D → Stub D → Stub D
  unfolding queue_feedback set_motor
  answer frame state stub =
      let motor_id = get_target_motor_id frame in
      queue_feedback motor_id (get_host_id frame) state (set_motor motor_id state stub)

  unfoldable pub read_response : CanFrame → ParamReadRequest → MotorState D → CanFrame
  unfolding param_or_zero
  read_response frame request state =
      let motor_id = get_target_motor_id frame in
      let host_id = get_host_id frame in
      if request.index == Params.run_mode
      then make_param_response_frame_uint8 motor_id host_id request.index state.run_mode
      else make_param_response_frame_float motor_id host_id request.index
          (param_or_zero state.params request.index)

  unfoldable pub write_state : ParamWriteRequest → ActuatorLimits D → MotorState D → MotorState D
  write_state request limits state =
      let written =
        if request.index == Params.run_mode
        then record state { run_mode = as_uint8 request.value }
        else record state { params = insert request.index (as_float request.value) state.params } in
      let target = add written.position (
        remainder (sub (widen (as_float request.value)) written.position)
          (mul (of_ℕ 2) limits.position)) in
      if request.index == Params.loc_ref
        && (written.enabled && is_mode written RunMode.position_csp)
      then record written { position = target }
      else written

  -- The cases of the `switch` in `send`.
  unfoldable pub dispatch : CommType → ℕ → CanFrame → MotorState D → Stub D → Stub D
  dispatch CommType.enable now frame state stub =
      answer frame (record (advance now state) { enabled = true }) stub
  dispatch CommType.stop now frame state stub =
      let stopped = record (advance now state) { enabled = false } in
      answer frame (if frame.payload.b0 == 1 then record stopped { fault_bits = 0 } else stopped)
        stub
  dispatch CommType.set_mechanical_zero now frame state stub =
      answer frame (record (advance now state) { position = of_ℕ 0 }) stub
  dispatch CommType.motion_control now frame state stub = answer frame (advance now state) stub
  dispatch CommType.read_param now frame state stub = elim (parse_param_read_request frame) [
    | none ↦ stub
    | some request ↦
        push_response (read_response frame request state)
          (set_motor (get_target_motor_id frame) state stub)
  ]
  dispatch CommType.write_param now frame state stub = elim (parse_param_write_request frame) [
    | none ↦ stub
    | some request ↦ answer frame (write_state request stub.limits (advance now state)) stub
  ]
  dispatch _ now frame state stub = stub

  unfoldable pub send : ℕ → CanFrame → Stub D → Stub D
  unfolding dispatch
  send now frame stub =
      dispatch (comm_type_of (get_comm_type frame)) now frame
        (motor (get_target_motor_id frame) stub) stub

  unfoldable pub receive : Stub D → Option CanFrame × Stub D
  receive stub = elim (stub.responses) [
    | [] ↦ (none, stub)
    | frame ∷ rest ↦ (some frame, record stub { responses = rest })
  ]

  unfoldable pub set_temperature : D → Stub D → Stub D
  set_temperature temperature stub = record stub { temperature = temperature }

  unfoldable pub set_fault_bits : ℕ → ℕ → Stub D → Stub D
  unfolding set_motor motor
  set_fault_bits motor_id fault_bits stub =
      set_motor motor_id (record (motor motor_id stub) { fault_bits = fault_bits }) stub
