-- ===== src/Examples/Attains.antt =====
-- Programs over the simulated bus: what they attain, in terms of the abstract motor.
pub mod Loops
pub mod Profiles
pub mod Captures
pub mod Standing
pub mod Modes
pub mod Programs
pub mod Turning
pub mod Whole
use robstride_driver.Common.{ℕ, suc, ◌+◌, ◌≤◌, ◌≡◌, ◌∙◌, refl, arith, Result, ok, Call, finished}
use robstride_driver.Double.{Double}
use robstride_driver.Protocol.Limits.{ActuatorLimits}
use robstride_driver.Motor.Monad.{World, M, ◌>>=◌, ◌>>◌, continue, pure, on_clock}
use robstride_driver.Motor.Simulated.{Bench, stub_can}
use robstride_driver.Motor.Simulated.Feedbacks.{IsReady, state_of}
use robstride_driver.Servo.{Servo}
use robstride_driver.Servo.Runs.{
  Refines, Runs, Refines-ticked, Later, Later-trans, Later-refl, Later-ticked,
}
use robstride_driver.Examples.Process.{Thread, Process, P, call, put, rest}

-- Sleeping passes over as many of the clock's readings as the arguments say.
abbrev pub napping : {D : Type 0} → (ℕ → ℕ) → (ℕ → ℕ) → Thread (Bench D)
napping until lasting = record {
  sleep_until = λ t b. record b { tick = b.tick + until t };
  sleep_for = λ t b. record b { tick = b.tick + lasting t };
}

module _ {D O : Type 0} ⦃d : Double D⦄ (l : ActuatorLimits D) where
  -- The program goes on to its end, and leaves a motor that stands for an abstract motor. `Q` holds
  -- of its result, that motor, and what has been put out.
  abbrev pub Attains :
      {A : Type 0} → P D (Bench D) O A → Process D (Bench D) O → (A → Servo → O → Type 0) → Type 0
  Attains {A} m p Q =
      (a : A) × (p' : Process D (Bench D) O) × (s : Servo) × (m p ≡ (finished (ok a), p'))
      × Q a s p'.output
      × Refines l p'.world s
      × Later p.world p'.world

  pub Attains-pure :
      {A : Type 0} (a : A) (p : Process D (Bench D) O) (s : Servo) (Q : A → Servo → O → Type 0)
      → Q a s p.output
      → Refines l p.world s
      → Attains (pure a) p Q
  Attains-pure a p s Q q r = (a, p, s, refl, q, r, Later-refl p.world)

  pub Attains-bind :
      {A B : Type 0} (m : P D (Bench D) O A) (f : A → P D (Bench D) O B) (p : Process D (Bench D) O)
      (Q : A → Servo → O → Type 0) (R : B → Servo → O → Type 0)
      → Attains m p Q
      → ((a : A) (p' : Process D (Bench D) O) (s : Servo)
          → Q a s p'.output
          → Refines l p'.world s
          → Later p.world p'.world
          → Attains (f a) p' R)
      → Attains (m >>= f) p R
  Attains-bind m f p Q R (a, p', s, e, q, r, h) then_attains =
      let (b, p2, t, e2, q2, r2, h2) = then_attains a p' s q r h in
      (b, p2, t, rw (e, e2), q2, r2, Later-trans p.world p'.world p2.world h h2)

  pub Attains-then :
      {A B : Type 0} (m : P D (Bench D) O A) (k : P D (Bench D) O B) (p : Process D (Bench D) O)
      (Q : A → Servo → O → Type 0) (R : B → Servo → O → Type 0)
      → Attains m p Q
      → ((a : A) (p' : Process D (Bench D) O) (s : Servo)
          → Q a s p'.output
          → Refines l p'.world s
          → Later p.world p'.world
          → Attains k p' R)
      → Attains (m >> k) p R
  Attains-then m k p Q R = Attains-bind m (λ _. k) p Q R

  pub Attains-weaken :
      {A : Type 0} (m : P D (Bench D) O A) (p : Process D (Bench D) O)
      (Q R : A → Servo → O → Type 0)
      → Attains m p Q
      → ((a : A) (s : Servo) (o : O) → Q a s o → R a s o)
      → Attains m p R
  Attains-weaken m p Q R (a, p', s, e, q, r, h) stronger =
      (a, p', s, e, stronger a s p'.output q, r, h)

  -- A call of the driver puts nothing out.
  pub call-Attains :
      {A : Type 0} (m : M D (Bench D) A) (p : Process D (Bench D) O) (T : A → Type 0) (s : Servo)
      → Runs l m p.world T s
      → Attains (call m) p (λ a t o. T a × (t ≡ s) × (o ≡ p.output))
  call-Attains m p T s (a, w, e, q, r, h) =
      (a, record p { world = w }, s, rw e, (q, refl, refl), r, h)

  -- The same, with what follows it.
  pub call-then :
      {A B : Type 0} (m : M D (Bench D) A) (k : P D (Bench D) O B) (p : Process D (Bench D) O)
      (T : A → Type 0) (s : Servo) (R : B → Servo → O → Type 0)
      → Runs l m p.world T s
      → ((w : World D (Bench D))
          → Refines l w s
          → Later p.world w
          → Attains k (record p { world = w }) R)
      → Attains (call m >> k) p R
  call-then m k p T s R (a, w, e, q, r, h) then_attains =
      let (b, p2, t, e2, q2, r2, h2) = then_attains w r h in
      (b, p2, t, rw (e, e2), q2, r2, Later-trans p.world w p2.world h h2)

  pub put-Attains :
      (f : O → O) (p : Process D (Bench D) O) (s : Servo)
      → Refines l p.world s
      → Attains (put f) p (λ _ t o. (t ≡ s) × (o ≡ f p.output))
  put-Attains f p s r =
      (tt, record p { output = f p.output }, s, refl, (refl, refl), r, Later-refl p.world)

  pub nap-Attains :
      (n : ℕ) (p : Process D (Bench D) O) (s : Servo)
      → Refines l p.world s
      → Attains (rest (λ b. record b { tick = b.tick + n })) p (λ _ t o. (t ≡ s) × (o ≡ p.output))
  nap-Attains n p s r = (
    tt,
    record p {
      world = record (p.world) { bus = record (p.world.bus) { tick = p.world.bus.tick + n } };
    },
    s,
    refl,
    (refl, refl),
    Refines-ticked l (p.world.bus.tick + n) p.world s r,
    Later-ticked (p.world.bus.tick + n) p.world (omega arith),
  )

  -- A reading of the clock, which uses it up.
  pub clock-Attains :
      (p : Process D (Bench D) O) (s : Servo)
      → Refines l p.world s
      → Attains
          (call (on_clock stub_can.now))
          p
          (λ now t o. (now ≡ p.world.bus.clock p.world.bus.tick) × (t ≡ s) × (o ≡ p.output))
  clock-Attains p s r = (
    p.world.bus.clock p.world.bus.tick,
    record p {
      world = record (p.world) { bus = record (p.world.bus) { tick = suc p.world.bus.tick } };
    },
    s,
    refl,
    (refl, refl, refl),
    Refines-ticked l (suc p.world.bus.tick) p.world s r,
    Later-ticked (suc p.world.bus.tick) p.world (omega arith),
  )

  -- What comes of a part of the program, if that is how it starts.
  pub Attains-from :
      {A : Type 0} (m k : P D (Bench D) O A) (p p1 : Process D (Bench D) O)
      (Q : A → Servo → O → Type 0)
      → m p ≡ k p1
      → Later p.world p1.world
      → Attains k p1 Q
      → Attains m p Q
  Attains-from m k p p1 Q e h (a, p', s, e', q, r, h') =
      (a, p', s, e ∙ e', q, r, Later-trans p.world p1.world p'.world h h')
