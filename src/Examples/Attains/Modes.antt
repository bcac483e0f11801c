-- ===== src/Examples/Attains/Modes.antt =====
-- The capture programs of the modes other than the velocity mode, over the simulated bus.
use robstride_driver.Common.{ℕ, suc, ◌≡◌, ◌∙◌, refl, sym, ap, arith, true, false, []}
use mathlib.Core.List.{append-nil}
use robstride_driver.Common.Bits.{IsU32}
use robstride_driver.Double.{Double}
use robstride_driver.Protocol.Types.{RunMode, run_mode_value, Feedback}
use robstride_driver.Protocol.Params
use robstride_driver.Protocol.Limits.{ActuatorLimits}
use robstride_driver.Motor.Monad.{pure}
use robstride_driver.Motor.Simulated.{Bench, stub_can}
use robstride_driver.Motor.Commands.{
  send_motion_command, enable, disable, set_run_mode, write_param_float,
}
use robstride_driver.Servo.{Servo, Status}
use robstride_driver.Servo.Runs.{Refines}
use robstride_driver.Servo.Calls.{enable-Runs, motion-Runs, disable-Runs, write_param_float-Runs}
use robstride_driver.Servo.Sequences.{set_run_mode-Runs}
use robstride_driver.Examples.Process.{Thread, Process, P, call}
use robstride_driver.Examples.Profile.{Recording, run_profile}
use robstride_driver.Examples.Captures.{
  operation_profile, capture_operation, current_profile, position_profile, pp_profile,
  capture_current, capture_position, capture_pp, put_iq,
}
use robstride_driver.Examples.Attains.{
  napping, Attains, Attains-pure, Attains-then, Attains-weaken, call-Attains, call-then,
}
use robstride_driver.Examples.Attains.Profiles.{Adds, AllLast, run_profile-Attains}
use robstride_driver.Examples.Attains.Standing.{
  standing, to, target_sent, iq_put, zeroed-then, Stopped, profile-stops,
}

module _ {D : Type 0} ⦃d : Double D⦄ (l : ActuatorLimits D) (until lasting : ℕ → ℕ) (n : ℕ)
    (patterns : (x : D) → IsU32 (d.narrow x)) where
  open d use {of_ℕ, narrow, widen}

  instance abbrev thread : Thread (Bench D)
  thread = napping until lasting

  -- The motor is enabled, in a mode, with a value in a parameter.
  abbrev Stands : RunMode → ℕ → D → Servo → Type 0
  Stands mode index x s =
      (s.enabled ≡ true) × (s.run_mode ≡ run_mode_value mode) × (s.memory index ≡ narrow x)

  pub capture_position-Attains :
      (p : Process D (Bench D) (Recording D)) (s : Servo)
      → p.output.cells ≡ []
      → AllLast {D = D} n p.world.bus.clock position_profile
      → Refines l p.world s
      → Attains l (capture_position (suc n)) p λ _ t o.
        Stopped (Stands RunMode.position_csp Params.limit_spd (of_ℕ 4)) t
        × Adds (standing l) p.output.rows o.rows
  unfolding capture_position
  capture_position-Attains p s empty lasts r =
      let J = Stands RunMode.position_csp Params.limit_spd (of_ℕ 4) in
      zeroed-then l until lasting n patterns RunMode.position_csp _ p s _ r λ w1 r1 h1.
        call-then l (write_param_float (suc n) Params.limit_spd (narrow (of_ℕ 4))) _ _ _ _ _
          (write_param_float-Runs l n w1 _ r1 Params.limit_spd (narrow (of_ℕ 4)) (omega arith)
            (patterns (of_ℕ 4)) (ground arith))
          λ w2 r2 h2.
            profile-stops l until lasting n patterns position_profile J _
              (target_sent l until lasting n patterns Params.loc_ref (omega arith) (ground arith) J
                (λ t (on, mode, _). rw (on, mode) refl) (λ w t j. j))
              (record p { world = w2 }) _ (refl, refl, refl) empty (rw (h2.clock, h1.clock) lasts)
              r2

  pub capture_pp-Attains :
      (p : Process D (Bench D) (Recording D)) (s : Servo)
      → p.output.cells ≡ []
      → AllLast {D = D} n p.world.bus.clock pp_profile
      → Refines l p.world s
      → Attains l (capture_pp (suc n)) p λ _ t o.
        Stopped
          (λ t.
            Stands RunMode.position_pp Params.vel_max (of_ℕ 4) t
            × (t.memory Params.acc_set ≡ narrow (of_ℕ 20)))
          t
        × Adds (standing l) p.output.rows o.rows
  unfolding capture_pp
  capture_pp-Attains p s empty lasts r =
      let J : Servo → Type 0 = λ t.
        Stands RunMode.position_pp Params.vel_max (of_ℕ 4) t
        × (t.memory Params.acc_set ≡ narrow (of_ℕ 20)) in
      zeroed-then l until lasting n patterns RunMode.position_pp _ p s _ r λ w1 r1 h1.
        call-then l (write_param_float (suc n) Params.vel_max (narrow (of_ℕ 4))) _ _ _ _ _
          (write_param_float-Runs l n w1 _ r1 Params.vel_max (narrow (of_ℕ 4)) (omega arith)
            (patterns (of_ℕ 4)) (ground arith))
          λ w2 r2 h2.
            call-then l (write_param_float (suc n) Params.acc_set (narrow (of_ℕ 20))) _ _ _ _ _
              (write_param_float-Runs l n w2 _ r2 Params.acc_set (narrow (of_ℕ 20)) (omega arith)
                (patterns (of_ℕ 20)) (ground arith))
              λ w3 r3 h3.
                profile-stops l until lasting n patterns pp_profile J _
                  (target_sent l until lasting n patterns Params.loc_ref (omega arith)
                    (ground arith) J (λ t ((on, mode, _), _). rw (on, mode) refl) (λ w t j. j))
                  (record p { world = w3 }) _ ((refl, refl, refl), refl) empty
                  (rw (h3.clock, h2.clock, h1.clock) lasts) r3

  pub capture_current-Attains :
      (p : Process D (Bench D) (Recording D)) (s : Servo)
      → p.output.cells ≡ []
      → AllLast {D = D} n p.world.bus.clock current_profile
      → Refines l p.world s
      → Attains l (capture_current (suc n)) p λ _ t o.
        (t.enabled ≡ false)
        × (t.run_mode ≡ run_mode_value RunMode.current)
        × (t.memory Params.iq_ref ≡ 0)
        × Adds (standing l) p.output.rows o.rows
  unfolding capture_current
  capture_current-Attains p s empty lasts r =
      let send = to l until lasting n patterns Params.iq_ref in
      let J : Servo → Type 0 =
        λ t. (t.enabled ≡ true) × (t.run_mode ≡ run_mode_value RunMode.current) in
      call-then l (set_run_mode (suc n) RunMode.current) _ p _ _ _
        (set_run_mode-Runs l n RunMode.current p.world s r)
        λ w1 r1 h1. call-then l (enable (suc n)) _ _ _ _ _ (enable-Runs l n w1 _ r1) λ w2 r2 h2.
          Attains-then l (run_profile (suc n) current_profile send (put_iq (suc n))) _
            (record p { world = w2 }) _ _
            (run_profile-Attains l until lasting (standing l) J send (put_iq (suc n))
              (target_sent l until lasting n patterns Params.iq_ref (omega arith) (ground arith) J
                (λ t (on, mode). rw (on, mode) refl) (λ w t j. j))
              (iq_put l until lasting n patterns) p.output.rows n current_profile _ _
              (rw (h2.clock, h1.clock) lasts)
              ((refl, refl), empty, ([], sym (append-nil p.output.rows), tt)) r2)
            λ _ p3 t3 ((_, mode), _, adds) r3 h3.
              call-then l (write_param_float (suc n) Params.iq_ref 0) _ p3 _ _ _
                (write_param_float-Runs l n p3.world t3 r3 Params.iq_ref 0 (omega arith)
                  (omega arith) (ground arith))
                λ w4 r4 h4.
                  call-then l (disable (suc n) false) (pure tt) _ _ _ _
                    (disable-Runs l n w4 _ r4 false)
                    λ w5 r5 h5. Attains-pure l tt _ _ _ (refl, mode, refl, adds) r5

  -- The motor is enabled, in operation mode.
  abbrev Operates : Servo → Type 0
  Operates s = (s.enabled ≡ true) × (s.run_mode ≡ run_mode_value RunMode.operation_control)

  module _ (kp kd : D) where
    abbrev move : D → P D (Bench D) (Recording D) (Feedback D)
    move target = call (send_motion_command (suc n) (of_ℕ 0) target (of_ℕ 0) kp kd)

    moved :
        (target : D) (p : Process D (Bench D) (Recording D)) (s : Servo)
        → Operates s
        → Refines l p.world s
        → Attains l
            (move target)
            p
            (λ fb t o. (fb.velocity ≡ standing l target) × Operates t × (o ≡ p.output))
    moved target p s (on, mode) r =
        Attains-weaken l (move target) p _ _
          (call-Attains l (send_motion_command (suc n) (of_ℕ 0) target (of_ℕ 0) kp kd) p _ _
            (motion-Runs l n p.world s r (of_ℕ 0) target (of_ℕ 0) kp kd))
          λ fb t o (shown, e, eo).
            (ap (λ (x : Status D). x.velocity) shown ∙ rw (on, mode) refl, rw e (on, mode), eo)

    pub capture_operation-Attains :
        (p : Process D (Bench D) (Recording D)) (s : Servo)
        → p.output.cells ≡ []
        → AllLast {D = D} n p.world.bus.clock operation_profile
        → Refines l p.world s
        → Attains l
            (capture_operation (suc n) kp kd)
            p
            (λ _ t o. Stopped Operates t × Adds (standing l) p.output.rows o.rows)
    unfolding capture_operation
    capture_operation-Attains p s empty lasts r =
        zeroed-then l until lasting n patterns RunMode.operation_control _ p s _ r λ w1 r1 h1.
          profile-stops l until lasting n patterns operation_profile Operates move moved
            (record p { world = w1 }) _ (refl, refl) empty (rw h1.clock lasts) r1
