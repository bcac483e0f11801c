-- ===== src/Motor/Monad.antt =====
-- `CanInterface`, the state of a `RobstrideMotor`, and calls that change both and may throw.
use robstride_driver.Common.{ℕ, Option, Result, ok, err, Error, Call, finished, waiting}
use robstride_driver.Protocol.Types.{CanFrame, Feedback}
use robstride_driver.Protocol.Limits.{ActuatorType, ActuatorLimits}

-- A transport and the clock, over a state `W` of the world outside the driver. `receive` takes its
-- timeout in milliseconds, and `now` reads `steady_clock` in nanoseconds. A call whose loop or whose
-- answers are used up still waits.
pub record CanInterface (W : Type 0) : Type 0 where
  pub send : CanFrame → W → Call (Unit {0}) × W
  pub receive : ℕ → W → Call (Option CanFrame) × W
  pub now : W → ℕ × W

pub record Config : Type 0 where
  pub motor_id : ℕ
  pub host_id : ℕ
  pub actuator_type : ActuatorType
  -- In milliseconds.
  pub response_timeout : ℕ

pub record Motor (D : Type 0) : Type 0 where
  pub config : Config
  pub limits : ActuatorLimits D
  pub last_feedback : Option (Feedback D)

pub record World (D W : Type 0) : Type 0 where
  pub motor : Motor D
  pub bus : W

-- A call leaves its outcome and the world, also when it throws.
abbrev pub M : Type 0 → Type 0 → Type 0 → Type 0
M D W A = World D W → Call A × World D W

abbrev pub continue {ℓ} :
    {S : Type ℓ} {A B : Type 0} → (A → S → Call B × S) → Call A × S → Call B × S
continue f (finished (ok a), w) = f a w
continue f (finished (err e), w) = (finished (err e), w)
continue f (waiting, w) = (waiting, w)

infixl 5 ◌>>=◌ ◌>>◌
abbrev pub ◌>>=◌ : {S A B : Type 0} → (S → Call A × S) → (A → S → Call B × S) → S → Call B × S
◌>>=◌ m f w = continue f (m w)

abbrev pub ◌>>◌ : {S A B : Type 0} → (S → Call A × S) → (S → Call B × S) → S → Call B × S
◌>>◌ m k w = continue (λ _. k) (m w)

abbrev pub pure : {S A : Type 0} → A → S → Call A × S
pure a w = (finished (ok a), w)

abbrev pub throw : {S A : Type 0} → Error → S → Call A × S
throw e w = (finished (err e), w)

abbrev pub or_throw : {S A : Type 0} → Result A → S → Call A × S
or_throw r w = (finished r, w)

module _ {D W : Type 0} where
  abbrev pub get_motor : M D W (Motor D)
  get_motor w = (finished (ok w.motor), w)

  abbrev pub set_last_feedback : Feedback D → M D W (Unit {0})
  set_last_feedback fb w =
      (finished (ok tt), record w { motor = record (w.motor) { last_feedback = Option.some fb } })

  -- A call of the transport, which leaves the motor as it is.
  abbrev pub on_bus : {A : Type 0} → (W → Call A × W) → M D W A
  on_bus call w = let (r, bus) = call w.bus in (r, record w { bus = bus })

  abbrev pub on_clock : (W → ℕ × W) → M D W ℕ
  on_clock call w = let (t, bus) = call w.bus in (finished (ok t), record w { bus = bus })
