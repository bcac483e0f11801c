-- ===== src/Examples/Attains/Captures.antt =====
-- The capture programs, over the simulated bus.
use robstride_driver.Common.{ℕ, suc, ◌≡◌, ◌∙◌, refl, sym, ap, arith, true, false, List, [], ◌++◌}
use mathlib.Core.List.{append-nil}
use robstride_driver.Common.Bits.{IsU32}
use robstride_driver.Double.{Double}
use robstride_driver.Protocol.Types.{RunMode, run_mode_value, Feedback}
use robstride_driver.Protocol.Params
use robstride_driver.Protocol.Limits.{ActuatorLimits}
use robstride_driver.Protocol.RoundTrip.Feedback.{quantised}
use robstride_driver.Motor.Monad.{pure}
use robstride_driver.Motor.Simulated.{Bench, stub_can}
use robstride_driver.Motor.Commands.{
  enable, disable, set_run_mode, configure_velocity_mode, send_velocity_command, write_param_float,
}
use robstride_driver.Servo.{Servo, Status, store}
use robstride_driver.Servo.Runs.{Refines}
use robstride_driver.Servo.Calls.{Shows, enable-Runs, disable-Runs, write_param_float-Runs}
use robstride_driver.Servo.Sequences.{set_run_mode-Runs, configure-Runs}
use robstride_driver.Examples.Process.{Thread, Process, call}
use robstride_driver.Examples.Profile.{Recording, run_profile}
use robstride_driver.Examples.Captures.{velocity_profile, capture_velocity}
use robstride_driver.Examples.Attains.{
  napping, Attains, Attains-pure, Attains-then, Attains-weaken, call-Attains, call-then,
}
use robstride_driver.Examples.Attains.Profiles.{Adds, AllLast, run_profile-Attains}

-- The motor turns, within the limits that the program has set.
abbrev pub Turns : (D : Type 0) → ⦃d : Double D⦄ → Servo → Type 0
Turns D ⦃d⦄ s =
    (s.enabled ≡ true)
    × (s.run_mode ≡ run_mode_value RunMode.velocity)
    × (s.memory Params.limit_cur ≡ d.narrow (d.of_ℕ 10))
    × (s.memory Params.acc_rad ≡ d.narrow (d.of_ℕ 20))

module _ {D : Type 0} ⦃d : Double D⦄ where
  open d use {of_ℕ, narrow, widen}

  module _ (l : ActuatorLimits D) where
    -- What a motor in velocity mode reports of a target: the `float` next to it, on 16 bits.
    abbrev pub velocity_of : D → D
    velocity_of target = quantised (widen (narrow target)) l.velocity

    pub turning :
        (target : D) (s : Servo) (fb : Feedback D)
        → Turns D s
        → Shows l (store Params.spd_ref (narrow target) s) fb
        → fb.velocity ≡ velocity_of target
    turning target s fb (on, mode, _, _) shown =
        ap (λ (x : Status D). x.velocity) shown ∙ rw (on, mode) refl

module _ {D : Type 0} ⦃d : Double D⦄ (l : ActuatorLimits D) (until lasting : ℕ → ℕ) (n : ℕ)
    (patterns : (x : D) → IsU32 (d.narrow x)) where
  open d use {of_ℕ, narrow, widen}

  instance abbrev thread : Thread (Bench D)
  thread = napping until lasting

  -- No more cells.
  pub nothing_more :
      {J : Servo → Type 0} (p : Process D (Bench D) (Recording D)) (s : Servo)
      → J s
      → Refines l p.world s
      → Attains l
          (pure tt)
          p
          (λ _ t o. J t × (xs : List D) × (o ≡ record (p.output) { cells = p.output.cells ++ xs }))
  nothing_more p s j r =
      Attains-pure l tt p s _
        (
          j,
          [],
          ap (λ (x : List D). record (p.output) { cells = x }) (sym (append-nil p.output.cells)),
        )
        r

  velocity_sent :
      (target : D) (p : Process D (Bench D) (Recording D)) (s : Servo)
      → Turns D s
      → Refines l p.world s
      → Attains l
          (call (send_velocity_command (suc n) target))
          p
          (λ fb t o. (fb.velocity ≡ velocity_of l target) × Turns D t × (o ≡ p.output))
  unfolding send_velocity_command
  velocity_sent target p s turns r =
      let write = write_param_float (suc n) Params.spd_ref (narrow target) in
      Attains-weaken l (call write) p _ _
        (call-Attains l write p _ _ (
          write_param_float-Runs l n p.world s r Params.spd_ref (narrow target) (omega arith)
            (patterns target) (ground arith)))
        λ fb t o (shown, e, eo). (turning l target s fb turns shown, rw e turns, eo)

  pub capture_velocity-Attains :
      (p : Process D (Bench D) (Recording D)) (s : Servo)
      → p.output.cells ≡ []
      → AllLast {D = D} n p.world.bus.clock velocity_profile
      → Refines l p.world s
      → Attains l (capture_velocity (suc n)) p λ _ t o.
        (t.enabled ≡ false)
        × (t.run_mode ≡ run_mode_value RunMode.velocity)
        × (t.memory Params.spd_ref ≡ narrow (of_ℕ 0))
        × (t.memory Params.limit_cur ≡ narrow (of_ℕ 10))
        × (t.memory Params.acc_rad ≡ narrow (of_ℕ 20))
        × Adds (velocity_of l) p.output.rows o.rows
  unfolding capture_velocity send_velocity_command
  capture_velocity-Attains p s empty lasts r =
      call-then l (set_run_mode (suc n) RunMode.velocity) _ p _ _ _
        (set_run_mode-Runs l n RunMode.velocity p.world s r)
        λ w1 r1 h1. call-then l (enable (suc n)) _ _ _ _ _ (enable-Runs l n w1 _ r1) λ w2 r2 h2.
          call-then l (configure_velocity_mode (suc n) (of_ℕ 10) (of_ℕ 20)) _ _ _ _ _
            (configure-Runs l n (of_ℕ 10) (of_ℕ 20) w2 _ (patterns (of_ℕ 10)) (patterns (of_ℕ 20))
              r2)
            λ w3 r3 h3.
              Attains-then l
                (run_profile (suc n) velocity_profile
                  (λ target. call (send_velocity_command (suc n) target)) (pure tt))
                _ (record p { world = w3 }) _ _
                (run_profile-Attains l until lasting (velocity_of l) (Turns D)
                  (λ target. call (send_velocity_command (suc n) target)) (pure tt) velocity_sent
                  nothing_more p.output.rows n velocity_profile _ _
                  (rw (h3.clock, h2.clock, h1.clock) lasts)
                  ((refl, refl, refl, refl), empty, ([], sym (append-nil p.output.rows), tt)) r3)
                λ _ p4 t4 ((_, mode, limit, acceleration), _, adds) r4 h4.
                  call-then l (write_param_float (suc n) Params.spd_ref (narrow (of_ℕ 0))) _ p4 _ _
                    _
                    (write_param_float-Runs l n p4.world t4 r4 Params.spd_ref (narrow (of_ℕ 0))
                      (omega arith) (patterns (of_ℕ 0)) (ground arith))
                    λ w5 r5 h5.
                      call-then l (disable (suc n) false) (pure tt) _ _ _ _
                        (disable-Runs l n w5 _ r5 false)
                        λ w6 r6 h6.
                          Attains-pure l tt _ _ _ (refl, mode, refl, limit, acceleration, adds) r6
