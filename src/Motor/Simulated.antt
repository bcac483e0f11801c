-- ===== src/Motor/Simulated.antt =====
-- `RobstrideMotor` over `StubCanInterface`: the driver and the simulated bus, joined.
pub mod Feedbacks
pub mod Sessions
pub mod Readings
pub mod Queues
pub mod Positions
use robstride_driver.Common.{
  ℕ, zero, suc, ◌+◌, ◌-◌, ◌*◌, ◌/◌, ◌<◌, ◌≡◌, ◌∙◌, refl, sym, ap, arith, Bool, true, false, not,
  List, [], ◌∷◌, ◌++◌, Option, none, some, Result, ok, err, Call, finished, waiting, leb, ◌==◌,
  if◌then◌else◌, Bool-cases, inl, inr,
}
use robstride_driver.Double.{Double}
use robstride_driver.Protocol.Types.{CanFrame, CommType, comm_type_value, Feedback}
use robstride_driver.Protocol.Ids.{get_comm_type, get_source_motor_id}
use robstride_driver.Protocol.Decode.{parse_feedback, has_type}
use robstride_driver.Stub.{Stub}
use robstride_driver.Stub
use robstride_driver.Motor.Monad.{CanInterface, Config, Motor, World, M, continue}
use robstride_driver.Motor.Exchange.{
  remember, cache, judge, got, transceive_round, transceive_loop, transceive,
}

-- A simulated bus, with the readings that the clock gives one after another.
pub record Bench (D : Type 0) : Type 0 where
  pub stub : Stub D
  pub clock : ℕ → ℕ
  pub tick : ℕ

module _ {D : Type 0} ⦃d : Double D⦄ where
  abbrev pub read_now : Bench D → ℕ × Bench D
  read_now b = (b.clock b.tick, record b { tick = suc b.tick })

  -- `StubCanInterface` as a `CanInterface`: its `send` reads the clock, its `receive` does not wait.
  instance abbrev pub stub_can : CanInterface (Bench D)
  stub_can = record {
    send = λ frame b. (
      finished (ok tt),
      record b { stub = Stub.send (b.clock b.tick) frame b.stub; tick = suc b.tick },
    );
    receive = λ _ b.
        let (frame, stub) = Stub.receive b.stub in (finished (ok frame), record b { stub = stub });
    now = read_now;
  }

  -- No exchange is late: from one reading of the clock to the next, less than the timeout passes.
  abbrev pub OnTime : World D (Bench D) → Type 0
  OnTime w =
      (k : ℕ) → w.bus.clock (suc k) < w.bus.clock k + w.motor.config.response_timeout * 1000000

  -- The motor after a response: feedback is cached.
  abbrev pub remembered : Option (Feedback D) → Motor D → Motor D
  remembered none m = m
  remembered (some fb) m = record m { last_feedback = some fb }

  abbrev pub after_response : CanFrame → Motor D → Motor D
  after_response f m = remembered (parse_feedback f m.limits) m

  -- The world after an exchange that leaves nothing in the queue.
  abbrev pub after_exchange : CanFrame → CanFrame → World D (Bench D) → World D (Bench D)
  after_exchange frame reply w = record w {
    motor = after_response reply w.motor;
    bus = record (w.bus) {
      stub = record (Stub.send (w.bus.clock w.bus.tick) frame w.bus.stub) { responses = [] };
      tick = suc (suc (suc w.bus.tick));
    };
  }

  pub remember-remembered :
      (o : Option (Feedback D)) (w : World D (Bench D))
      → remember o w ≡ (finished (ok tt), record w { motor = remembered o w.motor })
  unfolding remember
  remember-remembered none w = refl
  remember-remembered (some fb) w = refl

  receive_one :
      (s : Stub D) (reply : CanFrame)
      → s.responses ≡ reply ∷ []
      → Stub.receive s ≡ (some reply, record s { responses = [] })
  unfolding Stub.receive
  receive_one s reply e = rw e

  module _ (fuel : ℕ) (frame reply : CanFrame) (expected : CommType) (w : World D (Bench D)) where
    pub transceive-stub :
        OnTime w
        → (Stub.send (w.bus.clock w.bus.tick) frame w.bus.stub).responses ≡ reply ∷ []
        → get_source_motor_id reply ≡ w.motor.config.motor_id
        → get_comm_type reply ≡ comm_type_value expected
        → transceive (suc fuel) frame expected w
          ≡ (finished (ok reply), after_exchange frame reply w)
    unfolding transceive transceive_loop transceive_round got judge cache
    transceive-stub on_time queued source typed =
        let deadline = w.bus.clock (suc w.bus.tick) + w.motor.config.response_timeout * 1000000 in
        let early : leb deadline (w.bus.clock (suc (suc w.bus.tick))) ≡ false =
          ground (arith, on_time (suc w.bus.tick)) in
        let mine : not (get_source_motor_id reply == w.motor.config.motor_id) ≡ false =
          ground arith in
        let right : has_type reply expected ≡ true = ground arith in
        rw (
          early,
          receive_one (Stub.send (w.bus.clock w.bus.tick) frame w.bus.stub) reply queued,
          mine,
          remember-remembered (parse_feedback reply w.motor.limits),
          right,
        )
