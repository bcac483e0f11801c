-- ===== src/Motor/Own.antt =====
-- What every call of the driver keeps of its own state, over any transport and however it ends.
pub mod Operations
use robstride_driver.Common.{
  ℕ, zero, suc, ◌+◌, ◌-◌, ◌*◌, ◌/◌, Bool, true, false, not, if◌then◌else◌, ◌≡◌, refl, ap, ◌∙◌, sym,
  arith, leb, ◌==◌, Option, none, some, Result, ok, err, Error, timeout, runtime_error, Call,
  finished, waiting,
}
use robstride_driver.Double.{Double}
use robstride_driver.Protocol.Types.{CanFrame, CommType, Feedback}
use robstride_driver.Protocol.Limits.{ActuatorLimits}
use robstride_driver.Protocol.Ids.{get_source_motor_id}
use robstride_driver.Protocol.Decode.{parse_feedback, has_type}
use robstride_driver.Motor.Monad.{
  CanInterface, Config, Motor, World, M, ◌>>=◌, ◌>>◌, continue, pure, throw, or_throw, get_motor,
  on_bus, on_clock,
}
use robstride_driver.Motor.Exchange.{
  parse_param_response_or_throw, remember, cache, judge, got, transceive_round, transceive_loop,
  transceive, feedback_or_throw, transceive_feedback, transceive_param,
}
use robstride_driver.Motor.Exchange.Matching.{parse_feedback_source}

-- The driver of these settings, whose cached feedback is that of its own motor.
pub record IsOwn {D : Type 0} (c : Config) (l : ActuatorLimits D) (m : Motor D) : Type 0 where
  pub config : m.config ≡ c
  pub limits : m.limits ≡ l
  pub cached : (fb : Feedback D) → m.last_feedback ≡ some fb → fb.motor_id ≡ c.motor_id

module _ {D W : Type 0} (c : Config) (l : ActuatorLimits D) where
  -- What a call leaves, by whatever outcome.
  pub record Leaves {A : Type 0} (r : Call A × World D W) : Type 0 where
    pub own : IsOwn c l r.1.motor

  abbrev pub Keeps : {A : Type 0} → M D W A → Type 0
  Keeps m = (w : World D W) → IsOwn c l w.motor → Leaves (m w)

  pub pure-Keeps : {A : Type 0} (a : A) → Keeps (pure a)
  pure-Keeps a w own = record { own = own }

  pub throw-Keeps : {A : Type 0} (e : Error) → Keeps {A = A} (throw e)
  throw-Keeps e w own = record { own = own }

  or_throw-Keeps : {A : Type 0} (r : Result A) → Keeps (or_throw r)
  or_throw-Keeps r w own = record { own = own }

  on_bus-Keeps : {A : Type 0} (m : W → Call A × W) → Keeps (on_bus m)
  on_bus-Keeps m w own = record { own = own }

  on_clock-Keeps : (m : W → ℕ × W) → Keeps (on_clock m)
  on_clock-Keeps m w own = record { own = own }

  continue-Keeps :
      {A B : Type 0} (f : A → M D W B) (r : Call A) (w : World D W)
      → IsOwn c l w.motor
      → ((a : A) → Keeps (f a))
      → Leaves (continue f (r, w))
  continue-Keeps f (finished (ok a)) w own next = next a w own
  continue-Keeps f (finished (err e)) w own next = record { own = own }
  continue-Keeps f waiting w own next = record { own = own }

  pub bind-Keeps :
      {A B : Type 0} (m : M D W A) (f : A → M D W B)
      → Keeps m
      → ((a : A) → Keeps (f a))
      → Keeps (m >>= f)
  bind-Keeps m f h next w own = continue-Keeps f (m w).0 (m w).1 ((h w own).own) next

  pub then-Keeps : {A B : Type 0} (m : M D W A) (k : M D W B) → Keeps m → Keeps k → Keeps (m >> k)
  then-Keeps m k h next = bind-Keeps m (λ _. k) h (λ _. next)

  pub if-Keeps :
      {A : Type 0} (b : Bool) (m k : M D W A)
      → (b ≡ true → Keeps m)
      → (b ≡ false → Keeps k)
      → Keeps (if b then m else k)
  if-Keeps true m k h g = h refl
  if-Keeps false m k h g = g refl

  pub motor-Keeps :
      {B : Type 0} (f : Motor D → M D W B)
      → ((x : Motor D) → IsOwn c l x → Keeps (f x))
      → Keeps (get_motor >>= f)
  motor-Keeps f next w own = next w.motor own w own

  module _ ⦃d : Double D⦄ ⦃can : CanInterface W⦄ where
    remember-Keeps :
        (o : Option (Feedback D))
        → ((fb : Feedback D) → o ≡ some fb → fb.motor_id ≡ c.motor_id)
        → Keeps (remember o)
    unfolding remember
    remember-Keeps none h w own = record { own = own }
    remember-Keeps (some fb) h w own = record {
      own = record { config = own.config; limits = own.limits; cached = λ fb' e. h fb' e };
    }

    judge-Keeps :
        (expected : CommType) (again : M D W CanFrame) (f : CanFrame)
        → Keeps again
        → Keeps (judge expected again f)
    unfolding judge cache
    judge-Keeps expected again f h = motor-Keeps _ λ x own.
        if-Keeps (not (get_source_motor_id f == x.config.motor_id)) again _ (λ _. h)
          λ mine.
            then-Keeps (cache f) _
              (motor-Keeps _ λ y own'. remember-Keeps (parse_feedback f y.limits) λ fb e.
                parse_feedback_source y.limits f fb e
                ∙ ground (arith, mine, ap (λ (k : Config). k.motor_id) own.config))
              (if-Keeps (has_type f expected) (pure f) again (λ _. pure-Keeps f) (λ _. h))

    got-Keeps :
        (expected : CommType) (again : M D W CanFrame) (o : Option CanFrame)
        → Keeps again
        → Keeps (got expected again o)
    unfolding got
    got-Keeps expected again none h = throw-Keeps timeout
    got-Keeps expected again (some f) h = judge-Keeps expected again f h

    transceive_loop-Keeps :
        (fuel deadline : ℕ) (expected : CommType) → Keeps (transceive_loop fuel deadline expected)
    unfolding transceive_loop transceive_round
    transceive_loop-Keeps zero deadline expected = λ w own. record { own = own }
    transceive_loop-Keeps (suc fuel) deadline expected =
        bind-Keeps (on_clock can.now) _ (on_clock-Keeps can.now) λ now.
          if-Keeps (leb deadline now) (throw timeout) _ (λ _. throw-Keeps timeout)
            λ _.
              bind-Keeps (on_bus (can.receive ((deadline - now) / 1000000))) _ (on_bus-Keeps _)
                λ o. got-Keeps expected _ o (transceive_loop-Keeps fuel deadline expected)

    transceive-Keeps :
        (fuel : ℕ) (f : CanFrame) (expected : CommType) → Keeps (transceive fuel f expected)
    unfolding transceive
    transceive-Keeps fuel f expected =
        then-Keeps (on_bus (can.send f)) _ (on_bus-Keeps (can.send f)) (
          bind-Keeps (on_clock can.now) _ (on_clock-Keeps can.now) λ start. motor-Keeps _ λ x own.
            transceive_loop-Keeps fuel (start + x.config.response_timeout * 1000000) expected)

    feedback_or_throw-Keeps : (o : Option (Feedback D)) → Keeps (feedback_or_throw o)
    unfolding feedback_or_throw
    feedback_or_throw-Keeps none = throw-Keeps runtime_error
    feedback_or_throw-Keeps (some fb) = pure-Keeps fb

    pub transceive_feedback-Keeps : (fuel : ℕ) (f : CanFrame) → Keeps (transceive_feedback fuel f)
    unfolding transceive_feedback
    transceive_feedback-Keeps fuel f =
        bind-Keeps (transceive fuel f CommType.feedback) _
          (transceive-Keeps fuel f CommType.feedback)
          λ response.
            motor-Keeps _ λ x own. feedback_or_throw-Keeps (parse_feedback response x.limits)

    pub transceive_param-Keeps : (fuel : ℕ) (f : CanFrame) → Keeps (transceive_param fuel f)
    unfolding transceive_param
    transceive_param-Keeps fuel f =
        bind-Keeps (transceive fuel f CommType.read_param) _
          (transceive-Keeps fuel f CommType.read_param)
          λ response. or_throw-Keeps (parse_param_response_or_throw response)
