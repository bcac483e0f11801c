-- ===== src/AtSerial/Interface/Exchanged.antt =====
-- An exchange of the driver over the serial line.
use robstride_driver.Common.{
  ℕ, suc, ◌+◌, ◌-◌, ◌*◌, ◌/◌, ◌<◌, ◌≤◌, ◌≡◌, refl, ap, ◌∙◌, arith, All, List, [], ◌++◌, length,
  true, false, not, Option, none, some, ok, finished, leb, ◌==◌,
}
use robstride_driver.Double.{Double}
use robstride_driver.Protocol.Types.{CanFrame, CommType, comm_type_value, Feedback}
use robstride_driver.Protocol.Ids.{get_source_motor_id, get_comm_type}
use robstride_driver.Protocol.Decode.{parse_feedback, has_type}
use robstride_driver.Protocol.Valid.{IsFrame}
use robstride_driver.Motor.Monad.{CanInterface, Motor, World, M}
use robstride_driver.Motor.Exchange.{
  remember, cache, judge, got, transceive_round, transceive_loop, transceive,
}
use robstride_driver.AtSerial.Framing.{encode_frame}
use robstride_driver.AtSerial.Transport.{receive}
use robstride_driver.AtSerial.Transport.Sending.{accepted, NoFailure, send_delivers}
use robstride_driver.AtSerial.Transport.Receiving.{arriving}
use robstride_driver.AtSerial.Transport.Delivering.{GoesOn, receive_arriving}
use robstride_driver.AtSerial.Delivery.{carried-eq}
use robstride_driver.AtSerial.Interface.{Port, at_serial}

-- The cache after a response that is this feedback, or none.
abbrev pub kept : {D : Type 0} → Option (Feedback D) → Option (Feedback D) → Option (Feedback D)
kept none before = before
kept (some fb) before = some fb

module _ {D W : Type 0} ⦃d : Double D⦄ ⦃can : CanInterface W⦄ where
  remember-kept :
      (o : Option (Feedback D)) (w : World D W)
      → remember o w ≡ (
        finished (ok tt),
        record w { motor = record (w.motor) { last_feedback = kept o w.motor.last_feedback } },
      )
  unfolding remember
  remember-kept none w = refl
  remember-kept (some fb) w = refl

  -- The response is taken, and its feedback is cached.
  pub judge-kept :
      (expected : CommType) (again : M D W CanFrame) (f : CanFrame) (w : World D W)
      → get_source_motor_id f ≡ w.motor.config.motor_id
      → get_comm_type f ≡ comm_type_value expected
      → judge expected again f w ≡ (
        finished (ok f),
        record w {
          motor = record (w.motor) {
            last_feedback = kept (parse_feedback f w.motor.limits) w.motor.last_feedback;
          };
        },
      )
  unfolding judge cache
  judge-kept expected again f w source typed =
      let mine : not (get_source_motor_id f == w.motor.config.motor_id) ≡ false = ground arith in
      let right : has_type f expected ≡ true = ground arith in
      rw (mine, remember-kept (parse_feedback f w.motor.limits) w, right)

module _ {W : Type 0} (port : Port W) where
  -- The device takes the packet of a frame.
  pub record Takes (f : CanFrame) (w : W) : Type 0 where
    pub none_fails : NoFailure (port.writes w)
    pub enough : length (encode_frame f) ≤ accepted (port.writes w)

  -- During a `receive` with this timeout, the device brings the packet of a frame in time.
  pub record Brings (f : CanFrame) (timeout : ℕ) (more : List ℕ) (w : W) : Type 0 where
    pub early : All (λ now. now < port.start w + timeout * 1000000) (port.readings w)
    pub goes : All GoesOn (port.answers w)
    pub rounds : length (port.answers w) < length (port.readings w)
    pub arrive : arriving (port.answers w) ≡ encode_frame f ++ more

  brought :
      (f : CanFrame) (timeout : ℕ) (more : List ℕ) (w : W)
      → IsFrame f
      → Brings f timeout more w
      → (receive (port.start w) timeout (port.readings w) (port.answers w) []).call
        ≡ finished (ok (some f))
  brought f timeout more w valid b =
      let delivered =
        receive_arriving f (port.start w) timeout (port.readings w) (port.answers w) more
          (omega (arith, valid.full)) b.early b.goes b.rounds b.arrive in
      delivered.0 ∙ ap (λ g. finished (ok (some g))) (carried-eq f valid)

  module _ {D : Type 0} ⦃d : Double D⦄ where
    -- Over the serial line, an exchange returns the response, and its feedback, if it is feedback,
    -- is cached and nothing else of the driver changes. The device takes the packet of the command
    -- and then brings, in chunks and before the timeout, the packet of a frame of the CAN bus that
    -- comes from the configured motor and has the expected type; the buffer is empty at first.
    pub transceive-at_serial :
        (fuel : ℕ) (m : Motor D) (w w1 w2 w3 : W) (t1 t2 : ℕ) (frame reply : CanFrame)
        (expected : CommType) (more : List ℕ)
        → Takes frame w
        → port.taken (encode_frame frame) w ≡ w1
        → port.now w1 ≡ (t1, w2)
        → port.now w2 ≡ (t2, w3)
        → t2 < t1 + m.config.response_timeout * 1000000
        → Brings reply ((t1 + m.config.response_timeout * 1000000 - t2) / 1000000) more w3
        → IsFrame reply
        → get_source_motor_id reply ≡ m.config.motor_id
        → get_comm_type reply ≡ comm_type_value expected
        → let after =
            transceive ⦃can = at_serial port⦄
              (suc fuel)
              frame
              expected
              (record { motor = m; bus = ([], w) }) in
          (after.0 ≡ finished (ok reply))
          × (after.1.motor
              ≡ record m { last_feedback = kept (parse_feedback reply m.limits) m.last_feedback })
    unfolding transceive transceive_loop transceive_round got at_serial
    transceive-at_serial fuel m w w1 w2 w3 t1 t2 frame reply expected more takes e1 e2 e3 early
          brings valid source typed =
        let in_time : leb (t1 + m.config.response_timeout * 1000000) t2 ≡ false = ground arith in
        let sent = send_delivers (port.writes w) frame takes.none_fails takes.enough in
        let got_reply =
          brought reply ((t1 + m.config.response_timeout * 1000000 - t2) / 1000000) more w3 valid
            brings in
        rw (sent, e1, e2, e3, in_time, got_reply)
          (let judged =
              judge-kept ⦃can = at_serial port⦄ expected
                (transceive_loop ⦃can = at_serial port⦄ fuel
                  (t1 + m.config.response_timeout * 1000000) expected)
                reply _ source typed in
            (ap (λ p. p.0) judged, ap (λ p. p.1.motor) judged))
