-- ===== src/Tests/Relay.antt =====
-- The driver over SocketCAN, with a kernel that carries the frames to a simulated bus.
use robstride_driver.Common.{◌%◌, ◌^◌, ◌≡◌, refl, ap, arith, All, some, ok, finished}
use robstride_driver.Double.Micro.{Micro, micro_double}
use robstride_driver.Protocol.Types.{CanFrame}
use robstride_driver.Protocol.Valid.{IsFrame}
use robstride_driver.Motor.Monad.{World}
use robstride_driver.Motor.Simulated.{Bench, stub_can, read_now}
use robstride_driver.SocketCan.{RawFrame, raw_size, raw_frame}
use robstride_driver.SocketCan.Filter.{raw_frame-can_id}
use robstride_driver.SocketCan.Interface.{Kernel, socket_can, read_answer, IsRelay}
use robstride_driver.Servo.{answers, after}
use robstride_driver.Servo.Runs.{Refines}
use robstride_driver.Servo.Refines.{perform_all}
use robstride_driver.Servo.Transports.{FitsTypes}
use robstride_driver.Servo.Transports.Sockets.{perform_all-socket_can}
use robstride_driver.Tests.Data.{driver, rs00_limits}
use robstride_driver.Tests.Abstract.{fresh, Refines-fresh, session, session-IsUsable, IsSound-stub}

abbrev frame_of_raw : RawFrame → CanFrame
frame_of_raw raw = record { id = raw.can_id % 2 ^ 29; payload = raw.bytes; dlc = raw.can_dlc }

frame_of_raw-raw_frame : (f : CanFrame) → IsFrame f → frame_of_raw (raw_frame f) ≡ f
frame_of_raw-raw_frame f h =
    let id : (raw_frame f).can_id % 2 ^ 29 ≡ f.id = omega (arith, raw_frame-can_id f, h.id_bits) in
    unfold raw_frame in ap (λ i. record f { id = i }) id

abbrev kernel : Kernel (Bench Micro)
kernel = record {
  write = λ raw b. (some raw_size, (stub_can.send (frame_of_raw raw) b).1);
  await = λ tv b. (read_answer (stub_can.receive 0 b).0, (stub_can.receive 0 b).1);
  now = read_now;
}

kernel-IsRelay : IsRelay kernel stub_can
kernel-IsRelay = record {
  writes = λ f b h. ap (λ g. (some raw_size, (stub_can.send g b).1)) (frame_of_raw-raw_frame f h);
  awaits = λ timeout b. refl;
  reads = λ b. refl;
}

session-FitsTypes : All FitsTypes session
session-FitsTypes = (omega arith, (tt, (tt, (tt, (omega arith, (tt, tt))))))

perform_all-socket_can_example :
    (w' : World Micro (Bench Micro)) × (perform_all ⦃can = socket_can kernel⦄ 1 session driver
      ≡ (finished (ok (answers rs00_limits.velocity session fresh)), w'))
    × Refines rs00_limits w' (after session fresh)
perform_all-socket_can_example =
    perform_all-socket_can kernel kernel-IsRelay rs00_limits 0 session driver fresh session-IsUsable
      session-FitsTypes Refines-fresh IsSound-stub
