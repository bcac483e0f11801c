-- ===== src/AtSerial/Interface.antt =====
-- `AtSerialCanInterface` as the transport of a driver: its parser's buffer, and the serial device.
pub mod Exchanged
use robstride_driver.Common.{ℕ, List}
use robstride_driver.Motor.Monad.{CanInterface}
use robstride_driver.AtSerial.Transport.{WriteAnswer, ReadAnswer, send, receive}

-- What the device and the clock answer during a call of `send` or `receive`, in the state that the
-- call finds, and what it leaves: the device has taken some bytes, or it has some answers left.
pub record Port (W : Type 0) : Type 0 where
  pub writes : W → List WriteAnswer
  pub taken : List ℕ → W → W
  pub start : W → ℕ
  pub readings : W → List ℕ
  pub answers : W → List ReadAnswer
  pub waited : List ReadAnswer → W → W
  pub now : W → ℕ × W

unfoldable pub at_serial : {W : Type 0} → Port W → CanInterface (List ℕ × W)
at_serial port = record {
  send = λ f s. let (call, line) = send (port.writes s.1) f in (call, (s.0, port.taken line s.1));
  receive = λ timeout s.
      let r = receive (port.start s.1) timeout (port.readings s.1) (port.answers s.1) s.0 in
      (r.call, (r.buffer, port.waited r.later s.1));
  now = λ s. let (n, w) = port.now s.1 in (n, (s.0, w));
}
