-- ===== src/Examples/Attains/Programs.antt =====
-- The capture programs, over the simulated bus.
use robstride_driver.Common.{ℕ, suc, ◌≡◌, ◌∙◌, ap, false, List, []}
use robstride_driver.Common.Bits.{IsU32}
use robstride_driver.Double.{Double}
use robstride_driver.Protocol.Types.{RunMode, run_mode_value}
use robstride_driver.Protocol.Params
use robstride_driver.Protocol.Limits.{ActuatorLimits}
use robstride_driver.Motor.Simulated.{Bench, stub_can}
use robstride_driver.Servo.{Servo}
use robstride_driver.Servo.Runs.{Refines}
use robstride_driver.Examples.Process.{Thread, Process}
use robstride_driver.Examples.Profile.{Segment, Recording}
use robstride_driver.Examples.Captures.{
  capture_operation, Capture, run, operation_profile, velocity_profile, current_profile,
  position_profile, pp_profile, capture_velocity, capture_current, capture_position, capture_pp,
}
use robstride_driver.Examples.Attains.{napping, Attains, Attains-weaken}
use robstride_driver.Examples.Attains.Profiles.{Adds, AllLast}
use robstride_driver.Examples.Attains.Captures.{velocity_of, capture_velocity-Attains}
use robstride_driver.Examples.Attains.Standing.{standing}
use robstride_driver.Examples.Attains.Modes.{
  capture_current-Attains, capture_position-Attains, capture_pp-Attains, capture_operation-Attains,
}

-- The mode and the parameters that a program sets.
abbrev pub Sets : (D : Type 0) → ⦃d : Double D⦄ → Capture D → Servo → Type 0
Sets D ⦃d⦄ Capture.velocity s =
    (s.run_mode ≡ run_mode_value RunMode.velocity)
    × (s.memory Params.spd_ref ≡ d.narrow (d.of_ℕ 0))
    × (s.memory Params.limit_cur ≡ d.narrow (d.of_ℕ 10))
    × (s.memory Params.acc_rad ≡ d.narrow (d.of_ℕ 20))
Sets D ⦃d⦄ Capture.current s =
    (s.run_mode ≡ run_mode_value RunMode.current) × (s.memory Params.iq_ref ≡ 0)
Sets D ⦃d⦄ Capture.position s =
    (s.run_mode ≡ run_mode_value RunMode.position_csp)
    × (s.memory Params.limit_spd ≡ d.narrow (d.of_ℕ 4))
Sets D ⦃d⦄ Capture.pp s =
    (s.run_mode ≡ run_mode_value RunMode.position_pp)
    × (s.memory Params.vel_max ≡ d.narrow (d.of_ℕ 4))
    × (s.memory Params.acc_set ≡ d.narrow (d.of_ℕ 20))
Sets D ⦃d⦄ (Capture.operation kp kd) s = s.run_mode ≡ run_mode_value RunMode.operation_control

at_index : {f g : ℕ → ℕ} → f ≡ g → {i : ℕ} → f i ≡ g i
at_index e {i} = ap (λ (h : ℕ → ℕ). h i) e

module _ {D : Type 0} ⦃d : Double D⦄ where
  open d use {of_ℕ, narrow}

  abbrev pub profile_of : Capture D → List (Segment D)
  profile_of Capture.velocity = velocity_profile
  profile_of Capture.current = current_profile
  profile_of Capture.position = position_profile
  profile_of Capture.pp = pp_profile
  profile_of (Capture.operation kp kd) = operation_profile

  -- The velocity that a row shows with its target.
  abbrev pub shown : ActuatorLimits D → Capture D → D → D
  shown l Capture.velocity = velocity_of l
  shown l _ = standing l

  module _ (l : ActuatorLimits D) (until lasting : ℕ → ℕ) (n : ℕ)
      (patterns : (x : D) → IsU32 (narrow x)) where
    instance abbrev thread : Thread (Bench D)
    thread = napping until lasting

    pub capture-Attains :
        (c : Capture D) (p : Process D (Bench D) (Recording D)) (s : Servo)
        → p.output.cells ≡ []
        → AllLast n p.world.bus.clock (profile_of c)
        → Refines l p.world s
        → Attains l
            (run (suc n) c)
            p
            (λ _ t o. (t.enabled ≡ false) × Sets D c t × Adds (shown l c) p.output.rows o.rows)
    capture-Attains Capture.velocity p s e h r =
        Attains-weaken l (capture_velocity (suc n)) p _ _
          (capture_velocity-Attains l until lasting n patterns p s e h r)
          λ _ t o (off, mode, zero, limit, acceleration, adds).
            (off, (mode, zero, limit, acceleration), adds)
    capture-Attains Capture.current p s e h r =
        Attains-weaken l (capture_current (suc n)) p _ _
          (capture_current-Attains l until lasting n patterns p s e h r)
          λ _ t o (off, mode, zero, adds). (off, (mode, zero), adds)
    capture-Attains Capture.position p s e h r =
        Attains-weaken l (capture_position (suc n)) p _ _
          (capture_position-Attains l until lasting n patterns p s e h r)
          λ _ t o ((off, s', (_, mode, limit), same, kept), adds).
            (off, (same ∙ mode, at_index kept ∙ limit), adds)
    capture-Attains Capture.pp p s e h r =
        Attains-weaken l (capture_pp (suc n)) p _ _
          (capture_pp-Attains l until lasting n patterns p s e h r)
          λ _ t o ((off, s', ((_, mode, speed), acceleration), same, kept), adds).
            (off, (same ∙ mode, at_index kept ∙ speed, at_index kept ∙ acceleration), adds)
    capture-Attains (Capture.operation kp kd) p s e h r =
        Attains-weaken l (capture_operation (suc n) kp kd) p _ _
          (capture_operation-Attains l until lasting n patterns kp kd p s e h r)
          λ _ t o ((off, s', (_, mode), same, _), adds). (off, same ∙ mode, adds)
