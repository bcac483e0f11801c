-- ===== src/Motor/Alike/Exchanges.antt =====
-- Exchanges over two transports that answer alike.
use robstride_driver.Common.{
  ℕ, zero, suc, ◌+◌, ◌-◌, ◌*◌, ◌/◌, not, ◌==◌, leb, refl, Option, none, some, timeout,
  runtime_error,
}
use robstride_driver.Double.{Double}
use robstride_driver.Protocol.Types.{CanFrame, CommType, Feedback}
use robstride_driver.Protocol.Ids.{get_source_motor_id}
use robstride_driver.Protocol.Decode.{parse_feedback, has_type}
use robstride_driver.Protocol.Valid.{IsFrame}
use robstride_driver.Motor.Monad.{CanInterface, M}
use robstride_driver.Motor.Exchange.{
  parse_param_response_or_throw, remember, cache, judge, got, transceive_round, transceive_loop,
  transceive, feedback_or_throw, transceive_feedback, transceive_param,
}
use robstride_driver.Motor.Alike.{
  Simulates, Alike, pure-Alike, throw-Alike, or_throw-Alike, bind-Alike, then-Alike, if-Alike,
  motor-Alike, set_last_feedback-Alike, on_bus-Alike, on_clock-Alike,
}

module _ {D V W : Type 0} ⦃d : Double D⦄ ⦃cv : CanInterface V⦄ ⦃cw : CanInterface W⦄
    (R : V → W → Type 0) (s : Simulates cv cw R) where
  remember-Alike : (o : Option (Feedback D)) → Alike R (remember o) (remember o)
  unfolding remember
  remember-Alike none = pure-Alike R tt
  remember-Alike (some fb) = set_last_feedback-Alike R fb

  cache-Alike : (f : CanFrame) → Alike {D = D} R (cache f) (cache f)
  unfolding cache
  cache-Alike f = motor-Alike R _ _ λ m hm hh. remember-Alike (parse_feedback f m.limits)

  judge-Alike :
      (expected : CommType) (m : M D V CanFrame) (n : M D W CanFrame) (f : CanFrame)
      → Alike R m n
      → Alike R (judge expected m f) (judge expected n f)
  unfolding judge
  judge-Alike expected m n f h = motor-Alike R _ _ λ x hm hh.
      if-Alike R (not (get_source_motor_id f == x.config.motor_id)) _ _ _ _ h (
        then-Alike R (cache f) (cache f) _ _ (cache-Alike f)
          (if-Alike R (has_type f expected) _ _ _ _ (pure-Alike R f) h))

  got-Alike :
      (expected : CommType) (m : M D V CanFrame) (n : M D W CanFrame) (o : Option CanFrame)
      → Alike R m n
      → Alike R (got expected m o) (got expected n o)
  unfolding got
  got-Alike expected m n none h = throw-Alike R timeout
  got-Alike expected m n (some f) h = judge-Alike expected m n f h

  transceive_loop-Alike :
      (fuel deadline : ℕ) (expected : CommType)
      → Alike {D = D} R
          (transceive_loop fuel deadline expected)
          (transceive_loop fuel deadline expected)
  unfolding transceive_loop transceive_round
  transceive_loop-Alike zero deadline expected = λ v w j. (refl, j)
  transceive_loop-Alike (suc fuel) deadline expected =
      bind-Alike R _ _ _ _ (on_clock-Alike R cv.now cw.now s.reads) λ now.
        if-Alike R (leb deadline now) _ _ _ _ (throw-Alike R timeout) (
          bind-Alike R _ _ _ _ (on_bus-Alike R _ _ (s.receives ((deadline - now) / 1000000)))
            λ o. got-Alike expected _ _ o (transceive_loop-Alike fuel deadline expected))

  transceive-Alike :
      (fuel : ℕ) (f : CanFrame) (expected : CommType)
      → IsFrame f
      → Alike {D = D} R (transceive fuel f expected) (transceive fuel f expected)
  unfolding transceive
  transceive-Alike fuel f expected h =
      then-Alike R _ _ _ _ (on_bus-Alike R _ _ (λ v w r. s.sends f v w h r)) (
        bind-Alike R _ _ _ _ (on_clock-Alike R cv.now cw.now s.reads) λ start.
          motor-Alike R _ _ λ m hm hh.
            transceive_loop-Alike fuel (start + m.config.response_timeout * 1000000) expected)

  feedback_or_throw-Alike :
      (o : Option (Feedback D)) → Alike R (feedback_or_throw o) (feedback_or_throw o)
  unfolding feedback_or_throw
  feedback_or_throw-Alike none = throw-Alike R runtime_error
  feedback_or_throw-Alike (some fb) = pure-Alike R fb

  pub transceive_feedback-Alike :
      (fuel : ℕ) (f : CanFrame)
      → IsFrame f
      → Alike {D = D} R (transceive_feedback fuel f) (transceive_feedback fuel f)
  unfolding transceive_feedback
  transceive_feedback-Alike fuel f h =
      bind-Alike R _ _ _ _ (transceive-Alike fuel f CommType.feedback h) λ response.
        motor-Alike R _ _ λ m hm hh. feedback_or_throw-Alike (parse_feedback response m.limits)

  pub transceive_param-Alike :
      (fuel : ℕ) (f : CanFrame)
      → IsFrame f
      → Alike {D = D} R (transceive_param fuel f) (transceive_param fuel f)
  unfolding transceive_param
  transceive_param-Alike fuel f h =
      bind-Alike R _ _ _ _ (transceive-Alike fuel f CommType.read_param h)
        λ response. or_throw-Alike R (parse_param_response_or_throw response)
