-- ===== src/Examples/Attains/Turning.antt =====
-- velocity_control, over the simulated bus.
use robstride_driver.Common.{
  ℕ, suc, ◌+◌, ◌≤◌, ◌≡◌, ◌∙◌, refl, sym, ap, arith, false, ltb, List, [], ◌∷◌, ◌++◌, All,
  All-append,
}
use mathlib.Core.List.{append_assoc, append-nil}
use robstride_driver.Common.Bits.{IsU32}
use robstride_driver.Common.Int.{ℤ}
use robstride_driver.Double.{Double}
use robstride_driver.Protocol.Types.{RunMode, run_mode_value, Feedback}
use robstride_driver.Protocol.Params
use robstride_driver.Protocol.Limits.{ActuatorLimits}
use robstride_driver.Motor.Monad.{◌>>=◌, pure, on_clock}
use robstride_driver.Motor.Simulated.{Bench, stub_can}
use robstride_driver.Motor.Commands.{
  enable, disable, set_run_mode, configure_velocity_mode, send_velocity_command, write_param_float,
}
use robstride_driver.Servo.{Servo}
use robstride_driver.Servo.Runs.{Later-ticked, Refines, Refines-ticked}
use robstride_driver.Servo.Calls.{enable-Runs, disable-Runs, write_param_float-Runs}
use robstride_driver.Servo.Sequences.{set_run_mode-Runs, configure-Runs}
use robstride_driver.Examples.Process.{Thread, Process, P, call, put, rest, while}
use robstride_driver.Examples.Velocity.{Line, later_by, print_feedback, run_once, velocity_control}
use robstride_driver.Examples.Attains.{
  napping, Attains, Attains-pure, Attains-bind, Attains-then, Attains-from, Attains-weaken,
  call-Attains, call-then, put-Attains, nap-Attains,
}
use robstride_driver.Examples.Attains.Loops.{read, while-Attains}
use robstride_driver.Examples.Attains.Captures.{Turns, velocity_of, turning}

-- Lines have been printed, which show a velocity.
abbrev pub Prints : {D : Type 0} → D → List (Line D) → List (Line D) → Type 0
Prints {D} v before after =
    (lines : List (Line D)) × (after ≡ before ++ lines) × All (λ line. line.vel ≡ v) lines

Prints-line :
    {D : Type 0} (v : D) (before after : List (Line D)) (line : Line D)
    → Prints v before after
    → line.vel ≡ v
    → Prints v before (after ++ line ∷ [])
Prints-line v before after line (lines, e, h) good = (
  lines ++ line ∷ [],
  ap (λ (x : List (Line _)). x ++ line ∷ []) e ∙ append_assoc before lines (line ∷ []),
  All-append (λ (x : Line _). x.vel ≡ v) lines (line ∷ []) h (good, tt),
)

not_before : (a b : ℕ) → b ≤ a → ltb a b ≡ false
not_before a b h = ground arith

-- From any reading of the clock, `n` more take at least so many milliseconds.
abbrev pub Takes : ℕ → (ℕ → ℕ) → ℤ → Type 0
Takes n clock count = (i j : ℕ) → i + n ≤ j → later_by count (clock i) ≤ clock j

module _ {D : Type 0} ⦃d : Double D⦄ (l : ActuatorLimits D) (until lasting : ℕ → ℕ) (n : ℕ)
    (patterns : (x : D) → IsU32 (d.narrow x)) (velocity : D) (before : List (Line D)) where
  open d use {of_ℕ, narrow, mul, to_int}

  instance abbrev thread : Thread (Bench D)
  thread = napping until lasting

  abbrev On : Servo → List (Line D) → Type 0
  On s lines = Turns D s × Prints (velocity_of l velocity) before lines

  abbrev printed : Feedback D → List (Line D) → List (Line D)
  printed fb lines = lines ++ print_feedback fb ∷ []

  run_once-Attains :
      (p : Process D (Bench D) (List (Line D))) (s : Servo)
      → On s p.output
      → Refines l p.world s
      → Attains l (run_once (suc n) velocity) p (λ _ t o. On t o)
  unfolding run_once send_velocity_command print_feedback
  run_once-Attains p s (turns, prints) r =
      let write = write_param_float (suc n) Params.spd_ref (narrow velocity) in
      Attains-bind l (call write) _ p _ _
        (call-Attains l write p _ _ (
          write_param_float-Runs l n p.world s r Params.spd_ref (narrow velocity) (omega arith)
            (patterns velocity) (ground arith)))
        λ fb p1 t1 (shown, e1, o1) r1 h1.
          Attains-then l (put (printed fb)) _ p1 _ _ (put-Attains l (printed fb) p1 t1 r1)
            λ _ p2 t2 (e2, o2) r2 h2.
              Attains-weaken l (rest (thread.sleep_for 100_000_000)) p2 _ _
                (nap-Attains l (lasting 100_000_000) p2 t2 r2)
                λ _ u o (eu, ew).
                  rw (eu, ew, e2, o2, o1, e1)
                    (
                      turns,
                      Prints-line _ before p.output (print_feedback fb) prints
                          (turning l velocity s fb turns shown),
                    )

  -- The loop up to a time, and the reading of the clock before it.
  abbrev loop : ℕ → P D (Bench D) (List (Line D)) (Unit {0})
  loop end =
      while (suc n) (do now ← call (on_clock stub_can.now); pure (ltb now end))
        (run_once (suc n) velocity)

  abbrev started : ℕ → P D (Bench D) (List (Line D)) (Unit {0})
  started end p = loop end (read p)

  started-Attains :
      (count : ℤ) (p : Process D (Bench D) (List (Line D))) (s : Servo)
      → Takes n p.world.bus.clock count
      → On s p.output
      → Refines l p.world s
      → Attains l
          (started (later_by count (p.world.bus.clock p.world.bus.tick)))
          p
          (λ _ t o. On t o)
  started-Attains count p s takes on r =
      let i = p.world.bus.tick in
      let end = later_by count (p.world.bus.clock i) in
      Attains-from l (started end) (loop end) p (read p) _ refl
        (Later-ticked (suc p.world.bus.tick) p.world (omega arith))
        (while-Attains l _ (run_once (suc n) velocity) (λ now. ltb now end) (λ q. refl)
          p.world.bus.clock (i + n) (λ j hj. not_before _ _ (takes i j hj)) On run_once-Attains n
          (read p) s on (Refines-ticked l (suc i) p.world s r) refl (omega arith))

  -- Over a ready simulated bus whose motor stands for an abstract motor, `velocity_control` comes
  -- to its end, if `n` readings of the clock take as long as the duration and a `float` is a
  -- 32-bit pattern, with at most `n + 1` rounds. It leaves the motor disabled, in velocity mode,
  -- with a target of zero and the limits of 10 and 20, and every printed line shows the 16-bit
  -- form of the commanded velocity.
  pub velocity_control-Attains :
      (duration_s : D) (p : Process D (Bench D) (List (Line D))) (s : Servo)
      → p.output ≡ before
      → Takes n p.world.bus.clock (to_int (mul duration_s (of_ℕ 1000)))
      → Refines l p.world s
      → Attains l (velocity_control (suc n) velocity duration_s) p λ _ t o.
        (t.enabled ≡ false)
        × (t.run_mode ≡ run_mode_value RunMode.velocity)
        × (t.memory Params.spd_ref ≡ narrow (of_ℕ 0))
        × (t.memory Params.limit_cur ≡ narrow (of_ℕ 10))
        × (t.memory Params.acc_rad ≡ narrow (of_ℕ 20))
        × Prints (velocity_of l velocity) before o
  unfolding velocity_control send_velocity_command
  velocity_control-Attains duration_s p s e takes r =
      let count = to_int (mul duration_s (of_ℕ 1000)) in
      call-then l (set_run_mode (suc n) RunMode.velocity) _ p _ _ _
        (set_run_mode-Runs l n RunMode.velocity p.world s r)
        λ w1 r1 h1. call-then l (enable (suc n)) _ _ _ _ _ (enable-Runs l n w1 _ r1) λ w2 r2 h2.
          call-then l (configure_velocity_mode (suc n) (of_ℕ 10) (of_ℕ 20)) _ _ _ _ _
            (configure-Runs l n (of_ℕ 10) (of_ℕ 20) w2 _ (patterns (of_ℕ 10)) (patterns (of_ℕ 20))
              r2)
            λ w3 r3 h3.
              let p3 : Process D (Bench D) (List (Line D)) = record p { world = w3 } in
              let takes3 : Takes n w3.bus.clock count = rw (h3.clock, h2.clock, h1.clock) takes in
              Attains-then l (started (later_by count (w3.bus.clock w3.bus.tick))) _ p3 _ _
                (started-Attains count p3 _ takes3
                  ((refl, refl, refl, refl), ([], e ∙ sym (append-nil before), tt)) r3)
                λ _ p4 t4 ((_, mode, limit, acceleration), prints) r4 h4.
                  call-then l (write_param_float (suc n) Params.spd_ref (narrow (of_ℕ 0))) _ p4 _ _
                    _
                    (write_param_float-Runs l n p4.world t4 r4 Params.spd_ref (narrow (of_ℕ 0))
                      (omega arith) (patterns (of_ℕ 0)) (ground arith))
                    λ w5 r5 h5.
                      call-then l (disable (suc n) false) (pure tt) _ _ _ _
                        (disable-Runs l n w5 _ r5 false)
                        λ w6 r6 h6.
                          Attains-pure l tt _ _ _ (refl, mode, refl, limit, acceleration, prints) r6
