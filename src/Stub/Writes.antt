-- ===== src/Stub/Writes.antt =====
-- What a parameter write and the passing of time make of a motor's state, and its feedback then.
use robstride_driver.Common.{
  ℕ, ◌≡◌, ◌≢◌, refl, arith, true, false, ◌&&◌, some, ◌==◌, if◌then◌else◌, Bool-cases, inl, inr,
}
use robstride_driver.Common.Bits.{IsU32}
use robstride_driver.Common.Assoc.{Assoc, find, insert, find-insert}
use robstride_driver.Double.{Double}
use robstride_driver.Protocol.Types.{MotorMode, RunMode, run_mode_value}
use robstride_driver.Protocol.Params
use robstride_driver.Protocol.Limits.{ActuatorLimits}
use robstride_driver.Protocol.RoundTrip.Words.{as_float-float_bytes}
use robstride_driver.Stub.{Stub, MotorState, param_or_zero, write_state, advance, feedback_of}
use robstride_driver.Stub.Commands.{float_request}

param_or_zero-insert : (k v : ℕ) (m : Assoc ℕ) → param_or_zero (insert k v m) k ≡ v
unfolding param_or_zero
param_or_zero-insert k v m =
    let same : (k == k) ≡ true = ground arith in
    let found : find k (insert k v m) ≡ some v = rw (find-insert k k v m, same) in
    rw (found, param_or_zero)

pub param_or_zero-insert_lem :
    (k j v : ℕ) (m : Assoc ℕ)
    → param_or_zero (insert k v m) j ≡ (if k == j then v else param_or_zero m j)
unfolding param_or_zero
param_or_zero-insert_lem k j v m = elim (Bool-cases (k == j)) [
  | inl same ↦
      let found : find j (insert k v m) ≡ some v = rw (find-insert k j v m, same) in
      rw (found, same, param_or_zero)
  | inr other ↦
      let found : find j (insert k v m) ≡ find j m = rw (find-insert k j v m, other) in
      rw (found, other, param_or_zero)
]

module _ {D : Type 0} ⦃d : Double D⦄ where
  open d use {of_ℕ, add, sub, mul, remainder, widen}

  module _ (id host index value : ℕ) (s : MotorState D) (limits : ActuatorLimits D)
      (h : IsU32 value) (ne : index ≢ Params.run_mode) where
    abbrev written : MotorState D
    written = write_state (float_request id host index value) limits s

    -- The parts of the state that matter after a write of a float.
    pub written_fields :
        (param_or_zero written.params index ≡ value)
        × (written.run_mode ≡ s.run_mode)
        × (written.enabled ≡ s.enabled)
    unfolding write_state
    written_fields =
        let float : (index == Params.run_mode) ≡ false = ground arith in
        let held = param_or_zero-insert index value s.params in
        elim (Bool-cases (
          index == Params.loc_ref
          && (s.enabled && s.run_mode == run_mode_value RunMode.position_csp))) [
            | inl moved ↦ rw (float, as_float-float_bytes value h, moved) (held, refl, refl)
            | inr stays ↦ rw (float, as_float-float_bytes value h, stays) (held, refl, refl)
          ]

    pub written_rest :
        (written.params ≡ insert index value s.params) × (written.fault_bits ≡ s.fault_bits)
    unfolding write_state
    written_rest =
        let float : (index == Params.run_mode) ≡ false = ground arith in
        elim (Bool-cases (
          index == Params.loc_ref
          && (s.enabled && s.run_mode == run_mode_value RunMode.position_csp))) [
            | inl moved ↦ rw (float, as_float-float_bytes value h, moved) (refl, refl)
            | inr stays ↦ rw (float, as_float-float_bytes value h, stays) (refl, refl)
          ]

  -- A target in position mode is reached at once, over the shorter way.
  pub written_target :
      (id host value : ℕ) (s : MotorState D) (limits : ActuatorLimits D)
      → IsU32 value
      → s.enabled ≡ true
      → s.run_mode ≡ run_mode_value RunMode.position_csp
      → (write_state (float_request id host Params.loc_ref value) limits s).position
        ≡ add s.position (remainder (sub (widen value) s.position) (mul (of_ℕ 2) limits.position))
  unfolding write_state
  written_target id host value s limits h on csp = rw (on, csp, as_float-float_bytes value h)

  -- Time changes the position and nothing else that a command reads.
  pub advance_fields :
      (now : ℕ) (s : MotorState D)
      → ((advance now s).run_mode ≡ s.run_mode)
        × ((advance now s).enabled ≡ s.enabled)
        × ((advance now s).params ≡ s.params)
  unfolding advance
  advance_fields now s = (refl, refl, refl)

  -- The feedback of a motor that runs in velocity mode.
  pub feedback_velocity :
      (id host : ℕ) (s : MotorState D) (stub : Stub D)
      → s.enabled ≡ true
      → s.run_mode ≡ run_mode_value RunMode.velocity
      → ((feedback_of id host s stub).velocity ≡ widen (param_or_zero s.params Params.spd_ref))
        × ((feedback_of id host s stub).mode ≡ MotorMode.run)
  unfolding feedback_of
  feedback_velocity id host s stub on mode = rw (on, mode) (refl, refl)

  -- Time does not move a motor in position mode.
  pub advance_position :
      (now : ℕ) (s : MotorState D)
      → s.run_mode ≡ run_mode_value RunMode.position_csp
      → (advance now s).position ≡ s.position
  unfolding advance
  advance_position now s csp = rw csp (elim (Bool-cases s.has_last_update) [
    | inl e ↦ rw e (elim (Bool-cases s.enabled) [ inl on ↦ rw on | inr off ↦ rw off ])
    | inr e ↦ rw e
  ])

  -- A write of a float under an index that is no target leaves the position.
  pub written_position :
      (id host index value : ℕ) (s : MotorState D) (limits : ActuatorLimits D)
      → index ≢ Params.run_mode
      → index ≢ Params.loc_ref
      → (write_state (float_request id host index value) limits s).position ≡ s.position
  unfolding write_state
  written_position id host index value s limits ne no_target =
      let float : (index == Params.run_mode) ≡ false = ground arith in
      let other : (index == Params.loc_ref) ≡ false = ground arith in rw (float, other)

  pub feedback_position :
      (id host : ℕ) (s : MotorState D) (stub : Stub D)
      → (feedback_of id host s stub).position
        ≡ remainder s.position (mul (of_ℕ 2) stub.limits.position)
  unfolding feedback_of
  feedback_position id host s stub = refl

  -- The parts of a feedback that do not depend on the time.
  pub feedback_of_lem :
      (id host : ℕ) (s : MotorState D) (stub : Stub D)
      → let fb = feedback_of id host s stub in
        (fb.mode ≡ (if s.enabled then MotorMode.run else MotorMode.reset))
        × (fb.fault.raw ≡ s.fault_bits)
        × (fb.velocity ≡ (
            if s.enabled && s.run_mode == run_mode_value RunMode.velocity
            then widen (param_or_zero s.params Params.spd_ref)
            else of_ℕ 0))
  unfolding feedback_of
  feedback_of_lem id host s stub = (refl, refl, refl)
