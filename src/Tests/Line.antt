-- ===== src/Tests/Line.antt =====
-- The driver over a serial device that answers one command.
use robstride_driver.Common.{ℕ, suc, ◌+◌, ◌≡◌, refl, arith, List, [], ◌∷◌, ok, finished}
use robstride_driver.Double.Micro.{micro_double}
use robstride_driver.Protocol.Types.{CanFrame, CommType, zero8}
use robstride_driver.Protocol.Ids.{get_source_motor_id, get_comm_type}
use robstride_driver.Protocol.Decode.{parse_feedback}
use robstride_driver.Protocol.Valid.{IsFrame}
use robstride_driver.Motor.Exchange.{transceive}
use robstride_driver.AtSerial.Framing.{encode_frame}
use robstride_driver.AtSerial.Transport.{WriteAnswer, ReadAnswer}
use robstride_driver.AtSerial.Interface.{Port, at_serial}
use robstride_driver.AtSerial.Interface.Exchanged.{Takes, Brings, kept, transceive-at_serial}
use robstride_driver.Tests.Data.{driver, enable_frame}

-- Feedback of motor 1, and its packet.
abbrev reply : CanFrame
reply = record { id = 0x020001FD; payload = zero8; dlc = 8 }

abbrev front : List ℕ
front = b'A' ∷ b'T' ∷ 0x10 ∷ 0 ∷ []

abbrev back : List ℕ
back = 0x0F ∷ 0xEC ∷ 8 ∷ 0 ∷ 0 ∷ 0 ∷ 0 ∷ 0 ∷ 0 ∷ 0 ∷ 0 ∷ b'\r' ∷ b'\n' ∷ []

-- The state of the device is the time in nanoseconds.
abbrev port : Port ℕ
port = record {
  writes = λ w. WriteAnswer.written 5 ∷ WriteAnswer.written 12 ∷ [];
  taken = λ line w. w;
  start = λ w. w;
  readings = λ w. w ∷ (w + 1) ∷ (w + 2) ∷ [];
  answers = λ w. ReadAnswer.received front ∷ ReadAnswer.received back ∷ [];
  waited = λ later w. w;
  now = λ w. (w, suc w);
}

port-Takes : Takes port enable_frame 0
unfolding encode_frame
port-Takes = record { none_fails = ((λ e. cc), ((λ e. cc), tt)); enough = omega arith }

port-Brings : Brings port reply 199 [] 2
unfolding encode_frame
port-Brings = record {
  early = (omega arith, (omega arith, (omega arith, tt)));
  goes = (tt, (tt, tt));
  rounds = omega arith;
  arrive = refl;
}

reply-IsFrame : IsFrame reply
reply-IsFrame = record { id_bits = omega arith; bytes = omega arith; full = refl }

transceive-at_serial_example :
    let after =
      transceive ⦃can = at_serial port⦄ 1 enable_frame CommType.feedback
        (record { motor = driver.motor; bus = ([], 0) }) in
    (after.0 ≡ finished (ok reply))
    × (after.1.motor ≡ record (driver.motor) {
      last_feedback = kept (parse_feedback reply driver.motor.limits) driver.motor.last_feedback;
    })
unfolding get_source_motor_id get_comm_type
transceive-at_serial_example =
    transceive-at_serial port 0 driver.motor 0 0 1 2 0 1 enable_frame reply CommType.feedback []
      port-Takes refl refl refl (omega arith) port-Brings reply-IsFrame refl refl
