-- ===== src/SocketCan/Interface.antt =====
-- `SocketCanInterface` as the transport of a driver: the system calls of an opened socket over the
-- state of the kernel, and a kernel that carries frames between the socket and a bus.
pub mod Relayed
use robstride_driver.Common.{ℕ, Option, none, some, ok, err, Call, finished, waiting, ◌≡◌}
use robstride_driver.Protocol.Types.{CanFrame}
use robstride_driver.Protocol.Valid.{IsFrame}
use robstride_driver.Motor.Monad.{CanInterface}
use robstride_driver.SocketCan.{
  RawFrame, Timeval, SocketAnswer, raw_frame, raw_size, timeval_of, send, receive,
}

-- What the calls on the socket answer, and what they leave: `::write` of a whole frame, `::select`
-- with the `::read` behind it, and the steady clock.
pub record Kernel (W : Type 0) : Type 0 where
  pub write : RawFrame → W → Option ℕ × W
  pub await : Timeval → W → SocketAnswer × W
  pub now : W → ℕ × W

unfoldable pub socket_can : {W : Type 0} → Kernel W → CanInterface W
socket_can k = record {
  send = λ f w. let (written, w') = k.write (raw_frame f) w in (finished (send written f).0, w');
  receive = λ timeout w.
      let (answer, w') = k.await (timeval_of timeout) w in (finished (receive answer), w');
  now = k.now;
}

-- The answer of `::write` for what becomes of a frame on the bus.
abbrev pub write_answer : Call (Unit {0}) → Option ℕ
write_answer (finished (ok u)) = some raw_size
write_answer (finished (err e)) = none
write_answer waiting = none

-- The answers of `::select` and `::read` for what the bus has.
abbrev pub read_answer : Call (Option CanFrame) → SocketAnswer
read_answer (finished (ok none)) = SocketAnswer.select_timeout
read_answer (finished (ok (some f))) = SocketAnswer.read raw_size (raw_frame f)
read_answer (finished (err e)) = SocketAnswer.select_failed
read_answer waiting = SocketAnswer.select_failed

-- The kernel puts a written frame on the bus, and a read fetches the next frame of the bus, if one
-- comes in time.
pub record IsRelay {W : Type 0} (k : Kernel W) (bus : CanInterface W) : Type 0 where
  pub writes :
      (f : CanFrame) (w : W)
      → IsFrame f
      → k.write (raw_frame f) w ≡ (write_answer (bus.send f w).0, (bus.send f w).1)
  pub awaits :
      (timeout : ℕ) (w : W)
      → k.await (timeval_of timeout) w
        ≡ (read_answer (bus.receive timeout w).0, (bus.receive timeout w).1)
  pub reads : (w : W) → k.now w ≡ bus.now w
