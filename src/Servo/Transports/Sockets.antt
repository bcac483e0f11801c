-- ===== src/Servo/Transports/Sockets.antt =====
-- The driver over SocketCAN, where the kernel puts the frames on the simulated bus.
use robstride_driver.Common.{
  ℕ, suc, ◌≡◌, ◌∙◌, refl, ap, List, All, Option, none, some, ok, Call, finished,
}
use robstride_driver.Double.{Double}
use robstride_driver.Protocol.Types.{CanFrame}
use robstride_driver.Protocol.Valid.{IsFrame}
use robstride_driver.Protocol.Limits.{ActuatorLimits}
use robstride_driver.Stub
use robstride_driver.Stub.Sound.{IsSound, send-IsSound}
use robstride_driver.Stub.Uses.{given, receive-IsSound}
use robstride_driver.Motor.Monad.{World}
use robstride_driver.Motor.Simulated.{Bench, stub_can}
use robstride_driver.Motor.Alike.{Same, Joined}
use robstride_driver.SocketCan.Interface.{Kernel, socket_can, IsRelay}
use robstride_driver.SocketCan.Interface.Relayed.{OnlyFrames, Carries, Equal, socket_can-Simulates}
use robstride_driver.Servo.{Servo, Command, answers, after}
use robstride_driver.Servo.Runs.{Refines}
use robstride_driver.Servo.Refines.{IsUsable, perform_all, perform_all-Runs}
use robstride_driver.Servo.Transports.{FitsTypes, perform_all-Alike}

given-OnlyFrames : (o : Option CanFrame) → All IsFrame (given o) → OnlyFrames (finished (ok o))
given-OnlyFrames none h = tt
given-OnlyFrames (some f) h = h.0

module _ {D : Type 0} ⦃d : Double D⦄ where
  abbrev pub IsSoundBench : Bench D → Type 0
  IsSoundBench b = IsSound b.stub

  pub stub_can-Carries : Carries (stub_can {D = D}) IsSoundBench
  stub_can-Carries = record {
    sends = λ f b h p. (tt, send-IsSound (b.clock b.tick) f b.stub h p);
    receives = λ timeout b p.
        let r = receive-IsSound b.stub.responses b.stub p refl in
        (given-OnlyFrames (Stub.receive b.stub).0 r.0, r.1);
    reads = λ b p. p;
  }

  -- Over one bus, joined worlds are one world.
  one_outcome :
      {A : Type 0} {x y : Call A × World D (Bench D)}
      → Same (Joined (Equal IsSoundBench)) x y
      → x ≡ y
  one_outcome {x} {y} (outcome, j) = λ i. (outcome i, record { motor = j.motor i; bus = j.bus.0 i })

  module _ (k : Kernel (Bench D)) (relay : IsRelay k stub_can) (l : ActuatorLimits D)
      (fuel : ℕ) where
    -- Over SocketCAN, with a kernel that puts written frames on a ready simulated bus and reads
    -- the frames of that bus, any list of usable commands whose integers fit into their types
    -- gives the answers of the abstract motor and leaves a ready bus whose motor stands for the
    -- abstract motor after those commands.
    pub perform_all-socket_can :
        (cs : List (Command D)) (w : World D (Bench D)) (s : Servo)
        → All IsUsable cs
        → All FitsTypes cs
        → Refines l w s
        → IsSound w.bus.stub
        → (w' : World D (Bench D)) × (perform_all ⦃can = socket_can k⦄ (suc fuel) cs w
            ≡ (finished (ok (answers l.velocity cs s)), w'))
          × Refines l w' (after cs s)
    perform_all-socket_can cs w s usable fits r sound =
        let over_stub = perform_all-Runs l fuel cs w s usable r in
        let alike =
          perform_all-Alike ⦃cv = socket_can k⦄ ⦃cw = stub_can⦄ (Equal IsSoundBench)
            (socket_can-Simulates k stub_can IsSoundBench relay stub_can-Carries) (suc fuel) cs fits
            w w
            (record {
              motor = refl;
              bus = (refl, sound);
              motor_byte = r.ready.motor_byte;
              host_byte = r.ready.host_byte;
            }) in
        let (rs, w', e, same, refines, later) = over_stub in
        (w', one_outcome alike ∙ e ∙ ap (λ rs. (finished (ok rs), w')) same, refines)
