-- ===== src/Motor/Simulated/Feedbacks/Settled.antt =====
-- A command that is answered by the feedback on the state that it leaves.
use robstride_driver.Common.{ℕ, suc, ◌≡◌, ◌∙◌, refl, ap, [], ◌∷◌, some, ok, finished}
use mathlib.Core.Path.{subst}
use robstride_driver.Common.Bits.{IsByte}
use robstride_driver.Double.{Double}
use robstride_driver.Protocol.Types.{CanFrame, CommType, Feedback}
use robstride_driver.Protocol.Ids.{get_target_motor_id, get_host_id}
use robstride_driver.Protocol.Encode.{make_feedback_frame}
use robstride_driver.Protocol.Decode.{parse_feedback}
use robstride_driver.Protocol.RoundTrip.Feedback.{
  transmitted, parse_feedback-make_feedback_frame, make_feedback_frame_fields,
}
use robstride_driver.Stub.Replies.{host-IsByte}
use robstride_driver.Stub.{Stub, MotorState}
use robstride_driver.Stub
use robstride_driver.Stub.Motors.{motor-set_motor_self}
use robstride_driver.Motor.Monad.{World}
use robstride_driver.Motor.Exchange.{transceive_feedback, feedback_or_throw}
use robstride_driver.Motor.Simulated.{Bench, stub_can, OnTime, transceive-stub}

module _ {D : Type 0} ⦃d : Double D⦄ where
  -- Nothing is queued, no exchange is late, the ids are bytes, and both sides scale alike.
  pub record IsReady (w : World D (Bench D)) : Type 0 where
    pub idle : w.bus.stub.responses ≡ []
    pub on_time : OnTime w
    pub motor_byte : IsByte w.motor.config.motor_id
    pub host_byte : IsByte w.motor.config.host_id
    pub scaled_alike : w.bus.stub.limits ≡ w.motor.limits

  -- The simulated state of the driver's motor.
  abbrev pub state_of : World D (Bench D) → MotorState D
  state_of w = Stub.motor w.motor.config.motor_id w.bus.stub

  -- The feedback on a state, for a host, as the driver decodes it.
  abbrev pub reported_to : ℕ → MotorState D → World D (Bench D) → Feedback D
  reported_to host s w =
      transmitted (Stub.feedback_of w.motor.config.motor_id host s w.bus.stub) w.motor.limits

  -- The world in which the motor has come to a state, and the driver has its feedback.
  abbrev pub settled_to : ℕ → MotorState D → World D (Bench D) → World D (Bench D)
  settled_to host s w = record w {
    motor = record (w.motor) { last_feedback = some (reported_to host s w) };
    bus = record (w.bus) {
      stub = record (Stub.set_motor w.motor.config.motor_id s w.bus.stub) { responses = [] };
      tick = suc (suc (suc w.bus.tick));
    };
  }

  abbrev pub reported : MotorState D → World D (Bench D) → Feedback D
  reported s w = reported_to w.motor.config.host_id s w

  abbrev pub settled : MotorState D → World D (Bench D) → World D (Bench D)
  settled s w = settled_to w.motor.config.host_id s w

  pub settled_to-IsReady :
      (host : ℕ) (s : MotorState D) (w : World D (Bench D))
      → IsReady w
      → IsReady (settled_to host s w)
  unfolding Stub.set_motor
  settled_to-IsReady host s w h = record {
    idle = refl;
    on_time = h.on_time;
    motor_byte = h.motor_byte;
    host_byte = h.host_byte;
    scaled_alike = h.scaled_alike;
  }

  pub settled-IsReady :
      (s : MotorState D) (w : World D (Bench D)) → IsReady w → IsReady (settled s w)
  settled-IsReady s w = settled_to-IsReady w.motor.config.host_id s w

  pub state_of-settled_to :
      (host : ℕ) (s : MotorState D) (w : World D (Bench D)) → state_of (settled_to host s w) ≡ s
  state_of-settled_to host s w = motor-set_motor_self w.motor.config.motor_id s w.bus.stub []

  pub state_of-settled : (s : MotorState D) (w : World D (Bench D)) → state_of (settled s w) ≡ s
  state_of-settled s w = state_of-settled_to w.motor.config.host_id s w

  module _ (fuel : ℕ) (frame : CanFrame) (s : MotorState D) (w : World D (Bench D))
      (ready : IsReady w) where
    -- A command that the bus answers by the feedback of a state brings the motor to that state.
    pub transceive_feedback-answered :
        Stub.send (w.bus.clock w.bus.tick) frame w.bus.stub ≡ Stub.answer frame s w.bus.stub
        → get_target_motor_id frame ≡ w.motor.config.motor_id
        → transceive_feedback (suc fuel) frame w ≡ (
          finished (ok (reported_to (get_host_id frame) s w)),
          settled_to (get_host_id frame) s w,
        )
    unfolding transceive_feedback feedback_or_throw Stub.answer Stub.feedback_of
    transceive_feedback-answered sent target =
        let id = w.motor.config.motor_id in
        let stub = w.bus.stub in
        let fb = Stub.feedback_of id (get_host_id frame) s stub in
        let reply = make_feedback_frame fb stub.limits in
        let stored : Stub.send (w.bus.clock w.bus.tick) frame stub
            ≡ record (Stub.set_motor id s stub) { responses = reply ∷ [] } =
          sent ∙ rw (target, ready.idle) in
        let host : IsByte (get_host_id frame) = host-IsByte frame in
        let fields = make_feedback_frame_fields fb stub.limits ready.motor_byte host in
        let parsed : parse_feedback reply w.motor.limits
            ≡ some (reported_to (get_host_id frame) s w) =
          subst (λ l. parse_feedback reply l ≡ some (transmitted fb l)) ready.scaled_alike
            (parse_feedback-make_feedback_frame fb stub.limits ready.motor_byte host) in
        let exchanged =
          transceive-stub fuel frame reply CommType.feedback w ready.on_time
            (ap (λ (x : Stub D). x.responses) stored) fields.1 fields.0 in
        rw (exchanged, stored, parsed) (rw parsed)

    -- The same, of a command that names the host.
    pub transceive_feedback-settled :
        Stub.send (w.bus.clock w.bus.tick) frame w.bus.stub ≡ Stub.answer frame s w.bus.stub
        → get_target_motor_id frame ≡ w.motor.config.motor_id
        → get_host_id frame ≡ w.motor.config.host_id
        → transceive_feedback (suc fuel) frame w ≡ (finished (ok (reported s w)), settled s w)
    transceive_feedback-settled sent target host =
        subst
          (λ h.
            transceive_feedback (suc fuel) frame w
            ≡ (finished (ok (reported_to h s w)), settled_to h s w))
          host (transceive_feedback-answered sent target)
