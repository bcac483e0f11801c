-- ===== src/Motor/Exchange.antt =====
-- The constructor of `RobstrideMotor`, and `transceive` with what it is used for: one exchange of
-- a command and its response.
pub mod Matching
pub mod Ending
use robstride_driver.Common.{
  ℕ, zero, suc, ◌+◌, ◌-◌, ◌*◌, ◌/◌, Bool, not, Option, none, some, Result, ok, err, runtime_error,
  timeout, Call, waiting, leb, ◌==◌, if◌then◌else◌,
}
use robstride_driver.Double.{Double}
use robstride_driver.Protocol.Types.{CanFrame, CommType, Feedback, ParamResponse}
use robstride_driver.Protocol.Limits.{get_actuator_limits}
use robstride_driver.Protocol.Ids.{get_source_motor_id}
use robstride_driver.Protocol.Decode.{parse_feedback, parse_param_response, has_type}
use robstride_driver.Motor.Monad.{
  CanInterface, Config, Motor, M, ◌>>=◌, ◌>>◌, pure, throw, or_throw, get_motor, set_last_feedback,
  on_bus, on_clock,
}

unfoldable pub parse_param_response_or_throw : CanFrame → Result ParamResponse
parse_param_response_or_throw frame = elim (parse_param_response frame) [
  | none ↦ err runtime_error
  | some response ↦ ok response
]

module _ {D : Type 0} ⦃d : Double D⦄ where
  unfoldable pub make_motor : Config → Result (Motor D)
  make_motor config = elim (get_actuator_limits config.actuator_type) [
    | ok limits ↦ ok (record { config = config; limits = limits; last_feedback = none })
    | err e ↦ err e
  ]

  module _ {W : Type 0} ⦃can : CanInterface W⦄ where
    unfoldable pub remember : Option (Feedback D) → M D W (Unit {0})
    remember none = pure tt
    remember (some fb) = set_last_feedback fb

    -- Feedback that is seen on the way is cached.
    unfoldable pub cache : CanFrame → M D W (Unit {0})
    cache frame = do motor ← get_motor; remember (parse_feedback frame motor.limits)

    -- What becomes of a received frame; `again` is the rest of the loop.
    unfoldable pub judge : CommType → M D W CanFrame → CanFrame → M D W CanFrame
    judge expected_type again frame = do
      motor ← get_motor
      if not (get_source_motor_id frame == motor.config.motor_id)
          then again
          else (cache frame >> (if has_type frame expected_type then pure frame else again))

    unfoldable pub got : CommType → M D W CanFrame → Option CanFrame → M D W CanFrame
    got expected_type again none = throw timeout
    got expected_type again (some frame) = judge expected_type again frame

    -- A round of the `while` loop, up to the deadline.
    unfoldable pub transceive_round : ℕ → CommType → M D W CanFrame → M D W CanFrame
    transceive_round deadline expected_type again = do
      now ← on_clock can.now
      if leb deadline now
          then throw timeout
          else (on_bus (can.receive ((deadline - now) / 1000000)) >>= got expected_type again)

    -- The loop, with a number of rounds that it may take at most.
    unfoldable pub transceive_loop : ℕ → ℕ → CommType → M D W CanFrame
    transceive_loop zero deadline expected_type = λ w. (waiting, w)
    transceive_loop (suc fuel) deadline expected_type =
        transceive_round deadline expected_type (transceive_loop fuel deadline expected_type)

    unfoldable pub transceive : ℕ → CanFrame → CommType → M D W CanFrame
    transceive fuel frame expected_type = do
      on_bus (can.send frame)
      start ← on_clock can.now
      motor ← get_motor
      transceive_loop fuel (start + motor.config.response_timeout * 1000000) expected_type

    unfoldable pub feedback_or_throw : Option (Feedback D) → M D W (Feedback D)
    feedback_or_throw none = throw runtime_error
    feedback_or_throw (some fb) = pure fb

    unfoldable pub transceive_feedback : ℕ → CanFrame → M D W (Feedback D)
    transceive_feedback fuel frame = do
      response ← transceive fuel frame CommType.feedback
      motor ← get_motor
      feedback_or_throw (parse_feedback response motor.limits)

    -- Sends a read request and parses the response.
    unfoldable pub transceive_param : ℕ → CanFrame → M D W ParamResponse
    transceive_param fuel frame = do
      response ← transceive fuel frame CommType.read_param
      or_throw (parse_param_response_or_throw response)
