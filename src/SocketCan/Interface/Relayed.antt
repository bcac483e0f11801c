-- ===== src/SocketCan/Interface/Relayed.antt =====
-- A socket on a bus answers as the bus does.
use robstride_driver.Common.{
  ℕ, ◌%◌, ◌^◌, ◌≡◌, ◌∙◌, refl, ap, arith, Option, none, some, ok, err, Call, finished, waiting,
  system_error,
}
use robstride_driver.Protocol.Types.{CanFrame}
use robstride_driver.Protocol.Valid.{IsFrame}
use robstride_driver.Motor.Monad.{CanInterface}
use robstride_driver.Motor.Alike.{Simulates}
use robstride_driver.SocketCan.{send, receive}
use robstride_driver.SocketCan.Filter.{receive-raw_frame}
use robstride_driver.SocketCan.Interface.{Kernel, socket_can, write_answer, read_answer, IsRelay}

-- What a call on the bus may answer: a frame of the CAN bus, or the exception of the system.
abbrev pub OnlySystem : {A : Type 0} → Call A → Type 0
OnlySystem (finished (ok a)) = Unit
OnlySystem (finished (err e)) = e ≡ system_error
OnlySystem waiting = ⊥

abbrev pub OnlyFrames : Call (Option CanFrame) → Type 0
OnlyFrames (finished (ok none)) = Unit
OnlyFrames (finished (ok (some f))) = IsFrame f
OnlyFrames (finished (err e)) = e ≡ system_error
OnlyFrames waiting = ⊥

-- From a state with `P`, a bus carries frames of the CAN bus only.
pub record Carries {W : Type 0} (bus : CanInterface W) (P : W → Type 0) : Type 0 where
  pub sends :
      (f : CanFrame) (w : W) → IsFrame f → P w → OnlySystem (bus.send f w).0 × P (bus.send f w).1
  pub receives :
      (timeout : ℕ) (w : W)
      → P w
      → OnlyFrames (bus.receive timeout w).0 × P (bus.receive timeout w).1
  pub reads : (w : W) → P w → P (bus.now w).1

sent :
    (r : Call (Unit {0})) (f : CanFrame) → OnlySystem r → finished (send (write_answer r) f).0 ≡ r
unfolding send
sent (finished (ok u)) f h = refl
sent (finished (err e)) f h = rw h refl
sent waiting f h = elim h [ ]

received : (r : Call (Option CanFrame)) → OnlyFrames r → finished (receive (read_answer r)) ≡ r
received (finished (ok none)) h = unfold receive in refl
received (finished (ok (some f))) h =
    let same : f.id % 2 ^ 29 ≡ f.id = omega (arith, h.id_bits) in
    ap finished (receive-raw_frame f) ∙ ap (λ i. finished (ok (some (record f { id = i })))) same
received (finished (err e)) h = unfold receive in rw h refl
received waiting h = elim h [ ]

-- The same state, with `P`.
abbrev pub Equal : {W : Type 0} → (W → Type 0) → W → W → Type 0
Equal P v w = (v ≡ w) × P w

module _ {W : Type 0} (k : Kernel W) (bus : CanInterface W) (P : W → Type 0) where
  pub socket_can-Simulates : IsRelay k bus → Carries bus P → Simulates (socket_can k) bus (Equal P)
  unfolding socket_can
  socket_can-Simulates relay carries = record {
    sends = λ f v w h (e, p).
        let c = carries.sends f w h p in
        rw (e, relay.writes f w h) (sent (bus.send f w).0 f c.0, (refl, c.1));
    receives = λ timeout v w (e, p).
        let c = carries.receives timeout w p in
        rw (e, relay.awaits timeout w) (received (bus.receive timeout w).0 c.0, (refl, c.1));
    reads = λ v w (e, p). rw (e, relay.reads w) (refl, (refl, carries.reads w p));
  }
