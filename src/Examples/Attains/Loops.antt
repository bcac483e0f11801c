-- ===== src/Examples/Attains/Loops.antt =====
-- A `while` loop that looks at the clock, over the simulated bus.
use robstride_driver.Common.{
  ℕ, zero, suc, ◌+◌, ◌≤◌, ◌≡◌, ◌∙◌, ap, arith, Bool, true, false, ok, finished, Bool-cases, inl,
  inr,
}
use robstride_driver.Double.{Double}
use robstride_driver.Protocol.Limits.{ActuatorLimits}
use robstride_driver.Motor.Monad.{◌>>◌, pure}
use robstride_driver.Motor.Simulated.{Bench, stub_can}
use robstride_driver.Servo.{Servo}
use robstride_driver.Servo.Runs.{Later-ticked, Refines, Refines-ticked}
use robstride_driver.Examples.Process.{Process, P, while}
use robstride_driver.Examples.Attains.{Attains, Attains-pure, Attains-then, Attains-from}

-- After the clock has been read.
abbrev pub read : {D O : Type 0} → Process D (Bench D) O → Process D (Bench D) O
read p = record p {
  world = record (p.world) { bus = record (p.world.bus) { tick = suc p.world.bus.tick } };
}

module _ {D O : Type 0} ⦃d : Double D⦄ (l : ActuatorLimits D) (test : P D (Bench D) O Bool)
    (body : P D (Bench D) O (Unit {0})) (go : ℕ → Bool)
    (reads : (p : Process D (Bench D) O)
      → test p ≡ (finished (ok (go (p.world.bus.clock p.world.bus.tick))), read p)) where
  abbrev again : ℕ → P D (Bench D) O (Unit {0})
  again fuel = while fuel test body

  round-stops :
      (fuel : ℕ) (p : Process D (Bench D) O)
      → go (p.world.bus.clock p.world.bus.tick) ≡ false
      → again (suc fuel) p ≡ pure tt (read p)
  unfolding while
  round-stops fuel p e = rw (reads p, e)

  round-goes_on :
      (fuel : ℕ) (p : Process D (Bench D) O)
      → go (p.world.bus.clock p.world.bus.tick) ≡ true
      → again (suc fuel) p ≡ (body >> again fuel) (read p)
  unfolding while
  round-goes_on fuel p e = rw (reads p, e)

  module _ (clock : ℕ → ℕ) (stop : ℕ) (over : (j : ℕ) → stop ≤ j → go (clock j) ≡ false)
      (Inv : Servo → O → Type 0)
      (step : (p : Process D (Bench D) O) (s : Servo)
        → Inv s p.output
        → Refines l p.world s
        → Attains l body p (λ _ t o. Inv t o)) where
    ends :
        (fuel : ℕ) (p : Process D (Bench D) O) (s : Servo)
        → Inv s p.output
        → Refines l p.world s
        → go (p.world.bus.clock p.world.bus.tick) ≡ false
        → Attains l (again (suc fuel)) p (λ _ t o. Inv t o)
    ends fuel p s i r e =
        Attains-from l (again (suc fuel)) (pure tt) p (read p) (λ _ t o. Inv t o)
          (round-stops fuel p e) (Later-ticked (suc p.world.bus.tick) p.world (omega arith))
          (Attains-pure l tt (read p) s (λ _ t o. Inv t o) i
            (Refines-ticked l (suc p.world.bus.tick) p.world s r))

    pub while-Attains :
        (fuel : ℕ) (p : Process D (Bench D) O) (s : Servo)
        → Inv s p.output
        → Refines l p.world s
        → p.world.bus.clock ≡ clock
        → stop ≤ p.world.bus.tick + fuel
        → Attains l (again (suc fuel)) p (λ _ t o. Inv t o)
    while-Attains zero p s i r c enough = ends zero p s i r (
        ap (λ (k : ℕ → ℕ). go (k p.world.bus.tick)) c
        ∙ over p.world.bus.tick (omega (arith, enough)))
    while-Attains (suc fuel) p s i r c enough =
        elim (Bool-cases (go (p.world.bus.clock p.world.bus.tick))) [
          | inr e ↦ ends (suc fuel) p s i r e
          | inl e ↦
              Attains-from l (again (suc (suc fuel))) (body >> again (suc fuel)) p (read p)
                (λ _ t o. Inv t o) (round-goes_on (suc fuel) p e)
                (Later-ticked (suc p.world.bus.tick) p.world (omega arith))
                (Attains-then l body (again (suc fuel)) (read p) (λ _ t o. Inv t o)
                  (λ _ t o. Inv t o)
                  (step (read p) s i (Refines-ticked l (suc p.world.bus.tick) p.world s r))
                  λ _ p' t i' r' h.
                    while-Attains fuel p' t i' r' (h.clock ∙ c) (omega (arith, h.ticks, enough)))
        ]
