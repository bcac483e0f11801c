-- ===== src/Stub/Motors.antt =====
-- The simulated motors by their ids.
use robstride_driver.Common.{
  ℕ, ◌≡◌, ◌≢◌, refl, arith, true, false, List, Option-cases, inl, inr, ◌==◌,
}
use robstride_driver.Common.Assoc.{Assoc, find, insert, find-insert}
use robstride_driver.Double.{Double}
use robstride_driver.Protocol.Types.{CanFrame, CommType, comm_type_of}
use robstride_driver.Protocol.Ids.{get_comm_type, get_target_motor_id}
use robstride_driver.Protocol.Decode.{parse_param_read_request, parse_param_write_request}
use robstride_driver.Stub.{Stub, MotorState, motor, set_motor, answer, dispatch, send}

module _ {D : Type 0} ⦃d : Double D⦄ where
  -- Whatever is queued.
  pub motor-set_motor_self :
      (id : ℕ) (s : MotorState D) (stub : Stub D) (queue : List CanFrame)
      → motor id (record (set_motor id s stub) { responses = queue }) ≡ s
  unfolding motor set_motor
  motor-set_motor_self id s stub queue =
      let same : (id == id) ≡ true = ground arith in rw (find-insert id id s stub.motors, same)

  -- A frame leaves the motors that it does not address, and what the bus reports of all of them.
  abbrev pub Untouched : ℕ → Stub D → Stub D → Type 0
  Untouched j before after =
      (find j after.motors ≡ find j before.motors)
      × (after.limits ≡ before.limits)
      × (after.temperature ≡ before.temperature)

  insert_other :
      (id j : ℕ) (s : MotorState D) (m : Assoc (MotorState D))
      → id ≢ j
      → find j (insert id s m) ≡ find j m
  insert_other id j s m ne =
      let other : (id == j) ≡ false = ground arith in rw (find-insert id j s m, other)

  pub motor-set_motor_other :
      (id j : ℕ) (s : MotorState D) (stub : Stub D) (queue : List CanFrame)
      → id ≢ j
      → motor j (record (set_motor id s stub) { responses = queue }) ≡ motor j stub
  unfolding motor set_motor
  motor-set_motor_other id j s stub queue ne = rw (insert_other id j s stub.motors ne) refl

  dispatch-Untouched :
      (type : CommType) (now : ℕ) (frame : CanFrame) (state : MotorState D) (stub : Stub D) (j : ℕ)
      → get_target_motor_id frame ≢ j
      → Untouched j stub (dispatch type now frame state stub)
  unfolding dispatch answer
  dispatch-Untouched CommType.enable now frame state stub j ne =
      (insert_other _ j _ _ ne, refl, refl)
  dispatch-Untouched CommType.stop now frame state stub j ne = (insert_other _ j _ _ ne, refl, refl)
  dispatch-Untouched CommType.set_mechanical_zero now frame state stub j ne =
      (insert_other _ j _ _ ne, refl, refl)
  dispatch-Untouched CommType.motion_control now frame state stub j ne =
      (insert_other _ j _ _ ne, refl, refl)
  dispatch-Untouched CommType.read_param now frame state stub j ne =
      elim (Option-cases (parse_param_read_request frame)) [
        | inl e ↦ rw (e, dispatch) (refl, refl, refl)
        | inr (request, e) ↦ rw (e, dispatch) (insert_other _ j _ _ ne, refl, refl)
      ]
  dispatch-Untouched CommType.write_param now frame state stub j ne =
      elim (Option-cases (parse_param_write_request frame)) [
        | inl e ↦ rw (e, dispatch) (refl, refl, refl)
        | inr (request, e) ↦ rw (e, dispatch) (insert_other _ j _ _ ne, refl, refl)
      ]
  dispatch-Untouched _ now frame state stub j ne = (refl, refl, refl)

  -- A frame leaves the state of each motor that it does not address, the limits, and the
  -- temperature.
  pub send-Untouched :
      (now : ℕ) (frame : CanFrame) (stub : Stub D) (j : ℕ)
      → get_target_motor_id frame ≢ j
      → Untouched j stub (send now frame stub)
  unfolding send
  send-Untouched now frame stub j ne =
      dispatch-Untouched (comm_type_of (get_comm_type frame)) now frame
        (motor (get_target_motor_id frame) stub) stub j ne
