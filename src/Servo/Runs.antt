-- ===== src/Servo/Runs.antt =====
-- What it means that a call of the driver over the simulated bus is a step of the abstract motor.
use robstride_driver.Common.{ℕ, ◌≤◌, ◌≡◌, ◌∙◌, refl, arith, ok, finished}
use robstride_driver.Double.{Double}
use robstride_driver.Protocol.Limits.{ActuatorLimits}
use robstride_driver.Protocol.Types.{Feedback}
use robstride_driver.Stub.{MotorState}
use robstride_driver.Stub
use robstride_driver.Stub.Motors.{motor-set_motor_other}
use robstride_driver.Common.{Option, ◌≢◌, suc, [], sym, ap, ◌∙◌}
use robstride_driver.Motor.Monad.{Config, World, M, ◌>>=◌, pure}
use robstride_driver.Motor.Simulated.{Bench, stub_can}
use robstride_driver.Motor.Simulated.Feedbacks.{IsReady, state_of}
use robstride_driver.Servo.{Servo}
use robstride_driver.Servo.Abstracts.{Abstracts}

-- The clock is the same, and no reading of it is taken back; the driver is the same but for the
-- feedback that it keeps, and the other motors of the bus are as they were.
pub record Later {D : Type 0} ⦃d : Double D⦄ (w w' : World D (Bench D)) : Type 0 where
  pub clock : w'.bus.clock ≡ w.bus.clock
  pub ticks : w.bus.tick ≤ w'.bus.tick
  pub config : w'.motor.config ≡ w.motor.config
  pub others :
      (j : ℕ) → w.motor.config.motor_id ≢ j → Stub.motor j w'.bus.stub ≡ Stub.motor j w.bus.stub

module _ {D : Type 0} ⦃d : Double D⦄ where
  pub Later-trans : (a b c : World D (Bench D)) → Later a b → Later b c → Later a c
  Later-trans a b c h k = record {
    clock = k.clock ∙ h.clock;
    ticks = omega (arith, h.ticks, k.ticks);
    config = k.config ∙ h.config;
    others = λ j ne.
        k.others j (λ e. ne (ap (λ (x : Config). x.motor_id) (sym h.config) ∙ e)) ∙ h.others j ne;
  }

  -- Only readings of the clock have been used up.
  pub Later-ticked :
      (n : ℕ) (w : World D (Bench D))
      → w.bus.tick ≤ n
      → Later w (record w { bus = record (w.bus) { tick = n } })
  Later-ticked n w le = record { clock = refl; ticks = le; config = refl; others = λ j ne. refl }

  pub Later-refl : (w : World D (Bench D)) → Later w w
  Later-refl w = Later-ticked w.bus.tick w (omega arith)

  -- The motor has come to a state, and feedback may have been kept.
  pub Later-set :
      (kept : Option (Feedback D)) (s : MotorState D) (w : World D (Bench D))
      → Later w (record w {
        motor = record (w.motor) { last_feedback = kept };
        bus = record (w.bus) {
          stub = record (Stub.set_motor w.motor.config.motor_id s w.bus.stub) { responses = [] };
          tick = suc (suc (suc w.bus.tick));
        };
      })
  Later-set kept s w = record {
    clock = refl;
    ticks = omega arith;
    config = refl;
    others = λ j ne. motor-set_motor_other w.motor.config.motor_id j s w.bus.stub [] ne;
  }

module _ {D : Type 0} ⦃d : Double D⦄ (l : ActuatorLimits D) where
  -- The driver is ready, and the motor that it drives stands for `s`.
  pub record Refines (w : World D (Bench D)) (s : Servo) : Type 0 where
    pub ready : IsReady w
    pub limits : w.motor.limits ≡ l
    pub abstracts : Abstracts (state_of w) s

  -- The bus, at a later reading of its clock.
  pub Refines-ticked :
      (n : ℕ) (w : World D (Bench D)) (s : Servo)
      → Refines w s
      → Refines (record w { bus = record (w.bus) { tick = n } }) s
  Refines-ticked n w s r = record {
    ready = record {
      idle = r.ready.idle;
      on_time = r.ready.on_time;
      motor_byte = r.ready.motor_byte;
      host_byte = r.ready.host_byte;
      scaled_alike = r.ready.scaled_alike;
    };
    limits = r.limits;
    abstracts = r.abstracts;
  }

  -- The call returns a value with the property `P`, and leaves a motor that stands for `s`.
  abbrev pub Runs :
      {A : Type 0} → M D (Bench D) A → World D (Bench D) → (A → Type 0) → Servo → Type 0
  Runs {A} m w P s =
      (a : A) × (w' : World D (Bench D)) × (m w ≡ (finished (ok a), w'))
      × P a
      × Refines w' s
      × Later w w'

  pub Runs-pure :
      {A : Type 0} (a : A) (w : World D (Bench D)) (P : A → Type 0) (s : Servo)
      → P a
      → Refines w s
      → Runs (pure a) w P s
  Runs-pure a w P s p r = (a, w, refl, p, r, Later-refl w)

  pub Runs-bind :
      {A B : Type 0} (m : M D (Bench D) A) (f : A → M D (Bench D) B) (w : World D (Bench D))
      (P : A → Type 0) (Q : B → Type 0) (s t : Servo)
      → Runs m w P s
      → ((a : A) (w' : World D (Bench D)) → P a → Refines w' s → Runs (f a) w' Q t)
      → Runs (m >>= f) w Q t
  Runs-bind m f w P Q s t (a, w', e, p, r, h) then_runs =
      let (b, w2, e2, q, r2, h2) = then_runs a w' p r in
      (b, w2, rw (e, e2), q, r2, Later-trans w w' w2 h h2)
