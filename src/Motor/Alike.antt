-- ===== src/Motor/Alike.antt =====
-- The driver over two transports that answer alike. What differs between them, such as the steps of
-- the kernel under one of them, stays in their states `V` and `W`, which a relation joins.
pub mod Exchanges
pub mod Operations
use robstride_driver.Common.{
  ℕ, Bool, true, false, if◌then◌else◌, ◌≡◌, refl, ap, Option, none, some, Result, ok, err, Error,
  Call, finished, waiting,
}
use mathlib.Core.Path.{subst}
use robstride_driver.Common.Bits.{IsByte}
use robstride_driver.Double.{Double}
use robstride_driver.Protocol.Types.{CanFrame, Feedback}
use robstride_driver.Protocol.Valid.{IsFrame}
use robstride_driver.Motor.Monad.{
  CanInterface, Config, Motor, World, M, ◌>>=◌, ◌>>◌, continue, pure, throw, or_throw, get_motor,
  set_last_feedback, on_bus, on_clock,
}

-- The same outcome, and related states.
abbrev pub Same : {V W A : Type 0} → (V → W → Type 0) → A × V → A × W → Type 0
Same R x y = (x.0 ≡ y.0) × R x.1 y.1

-- Each call of the first transport has the outcome of the second one's, as long as only frames of
-- the CAN bus are sent.
pub record Simulates {V W : Type 0} (first : CanInterface V) (second : CanInterface W)
    (R : V → W → Type 0) : Type 0 where
  pub sends :
      (f : CanFrame) (v : V) (w : W) → IsFrame f → R v w → Same R (first.send f v) (second.send f w)
  pub receives : (t : ℕ) (v : V) (w : W) → R v w → Same R (first.receive t v) (second.receive t w)
  pub reads : (v : V) (w : W) → R v w → Same R (first.now v) (second.now w)

module _ {D V W : Type 0} (R : V → W → Type 0) where
  -- The same driver, with an id of its own and a host id of a byte, over related buses.
  pub record Joined (v : World D V) (w : World D W) : Type 0 where
    pub motor : v.motor ≡ w.motor
    pub bus : R v.bus w.bus
    pub motor_byte : IsByte v.motor.config.motor_id
    pub host_byte : IsByte v.motor.config.host_id

  -- Two calls from worlds that are joined have the same outcome, and leave joined worlds.
  abbrev pub Alike : {A : Type 0} → M D V A → M D W A → Type 0
  Alike m n = (v : World D V) (w : World D W) → Joined v w → Same Joined (m v) (n w)

  pub pure-Alike : {A : Type 0} (a : A) → Alike (pure a) (pure a)
  pure-Alike a v w j = (refl, j)

  pub throw-Alike : {A : Type 0} (e : Error) → Alike {A = A} (throw e) (throw e)
  throw-Alike e v w j = (refl, j)

  pub or_throw-Alike : {A : Type 0} (r : Result A) → Alike (or_throw r) (or_throw r)
  or_throw-Alike r v w j = (refl, j)

  continue-Same :
      {A B : Type 0} (f : A → M D V B) (g : A → M D W B) (x : Call A) (v : World D V)
      (w : World D W)
      → Joined v w
      → ((a : A) → Alike (f a) (g a))
      → Same Joined (continue f (x, v)) (continue g (x, w))
  continue-Same f g (finished (ok a)) v w j next = next a v w j
  continue-Same f g (finished (err e)) v w j next = (refl, j)
  continue-Same f g waiting v w j next = (refl, j)

  pub bind-Alike :
      {A B : Type 0} (m : M D V A) (n : M D W A) (f : A → M D V B) (g : A → M D W B)
      → Alike m n
      → ((a : A) → Alike (f a) (g a))
      → Alike (m >>= f) (n >>= g)
  bind-Alike m n f g h next v w j =
      rw ((h v w j).0) (continue-Same f g (n w).0 (m v).1 (n w).1 (h v w j).1 next)

  pub then-Alike :
      {A B : Type 0} (m : M D V A) (n : M D W A) (f : M D V B) (g : M D W B)
      → Alike m n
      → Alike f g
      → Alike (m >> f) (n >> g)
  then-Alike m n f g h next = bind-Alike m n (λ _. f) (λ _. g) h (λ _. next)

  pub if-Alike :
      {A : Type 0} (b : Bool) (m m' : M D V A) (n n' : M D W A)
      → Alike m n
      → Alike m' n'
      → Alike (if b then m else m') (if b then n else n')
  if-Alike true m m' n n' h k = h
  if-Alike false m m' n n' h k = k

  -- The rest of a call may use that the ids are bytes.
  pub motor-Alike :
      {B : Type 0} (f : Motor D → M D V B) (g : Motor D → M D W B)
      → ((x : Motor D) → IsByte x.config.motor_id → IsByte x.config.host_id → Alike (f x) (g x))
      → Alike (get_motor >>= f) (get_motor >>= g)
  motor-Alike f g next v w j =
      subst (λ x. Same Joined (f v.motor v) (g x w)) j.motor
        (next v.motor j.motor_byte j.host_byte v w j)

  pub set_last_feedback-Alike :
      (fb : Feedback D) → Alike (set_last_feedback fb) (set_last_feedback fb)
  set_last_feedback-Alike fb v w j = (
    refl,
    record {
      motor = ap (λ (x : Motor D). record x { last_feedback = some fb }) j.motor;
      bus = j.bus;
      motor_byte = j.motor_byte;
      host_byte = j.host_byte;
    },
  )

  pub on_bus-Alike :
      {A : Type 0} (m : V → Call A × V) (n : W → Call A × W)
      → ((v : V) (w : W) → R v w → Same R (m v) (n w))
      → Alike (on_bus m) (on_bus n)
  on_bus-Alike m n h v w j =
      let same = h v.bus w.bus j.bus in
      (
        same.0,
        record {
          motor = j.motor;
          bus = same.1;
          motor_byte = j.motor_byte;
          host_byte = j.host_byte;
        },
      )

  pub on_clock-Alike :
      (m : V → ℕ × V) (n : W → ℕ × W)
      → ((v : V) (w : W) → R v w → Same R (m v) (n w))
      → Alike (on_clock m) (on_clock n)
  on_clock-Alike m n h v w j =
      let same = h v.bus w.bus j.bus in
      (
        ap (λ t. finished (ok t)) same.0,
        record {
          motor = j.motor;
          bus = same.1;
          motor_byte = j.motor_byte;
          host_byte = j.host_byte;
        },
      )
