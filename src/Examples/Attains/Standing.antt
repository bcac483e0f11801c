-- ===== src/Examples/Attains/Standing.antt =====
-- The capture programs of the modes other than the velocity mode, over the simulated bus, which
-- reports no velocity there.
use robstride_driver.Common.{
  ℕ, suc, ◌≡◌, ◌≢◌, ◌∙◌, refl, sym, ap, arith, true, false, List, [], ◌∷◌, ◌++◌,
}
use mathlib.Core.List.{append-nil}
use robstride_driver.Common.Bits.{IsU16, IsU32}
use robstride_driver.Double.{Double}
use robstride_driver.Protocol.Types.{RunMode, run_mode_value, Feedback}
use robstride_driver.Protocol.Params
use robstride_driver.Protocol.Limits.{ActuatorLimits}
use robstride_driver.Protocol.RoundTrip.Feedback.{quantised}
use robstride_driver.Motor.Monad.{World, ◌>>◌, pure}
use robstride_driver.Motor.Simulated.{Bench, stub_can}
use robstride_driver.Motor.Commands.{
  enable, disable, set_run_mode, set_mechanical_zero, write_param_float, read_param_float,
}
use robstride_driver.Servo.{Servo, Status, store, moving}
use robstride_driver.Servo.Runs.{Later, Later-trans, Refines}
use robstride_driver.Servo.Calls.{
  enable-Runs, disable-Runs, write_param_float-Runs, read_param_float-Runs,
}
use robstride_driver.Servo.Sequences.{set_mechanical_zero-Runs, set_run_mode-Runs}
use robstride_driver.Examples.Process.{Thread, Process, P, call, put}
use robstride_driver.Examples.Profile.{Segment, Recording, put_cell, run_profile}
use robstride_driver.Examples.Captures.{put_iq}
use robstride_driver.Examples.Attains.{
  napping, Attains, Attains-pure, Attains-bind, Attains-then, Attains-weaken, call-Attains,
  call-then, put-Attains,
}
use robstride_driver.Examples.Attains.Profiles.{Adds, AllLast, run_profile-Attains}
use robstride_driver.Examples.Attains.Captures.{nothing_more}

-- The motor that ran through a profile, and is stopped.
abbrev pub Stopped : (Servo → Type 0) → Servo → Type 0
Stopped J t =
    (t.enabled ≡ false) × (s : Servo) × J s × (t.run_mode ≡ s.run_mode) × (t.memory ≡ s.memory)

module _ {D : Type 0} ⦃d : Double D⦄ (l : ActuatorLimits D) where
  abbrev pub standing : D → D
  standing target = quantised (d.of_ℕ 0) l.velocity

module _ {D : Type 0} ⦃d : Double D⦄ (l : ActuatorLimits D) (until lasting : ℕ → ℕ) (n : ℕ)
    (patterns : (x : D) → IsU32 (d.narrow x)) where
  open d use {of_ℕ, narrow, widen}

  instance abbrev thread : Thread (Bench D)
  thread = napping until lasting

  -- A target that is written to a parameter.
  abbrev pub to : ℕ → D → P D (Bench D) (Recording D) (Feedback D)
  to index target = call (write_param_float (suc n) index (narrow target))

  module _ (index : ℕ) (hi : IsU16 index) (ne : index ≢ Params.run_mode) (J : Servo → Type 0)
      (still : (s : Servo) → J s → moving s ≡ false)
      (keeps : (w : ℕ) (s : Servo) → J s → J (store index w s)) where
    pub target_sent :
        (target : D) (p : Process D (Bench D) (Recording D)) (s : Servo)
        → J s
        → Refines l p.world s
        → Attains l
            (to index target)
            p
            (λ fb t o. (fb.velocity ≡ standing l target) × J t × (o ≡ p.output))
    target_sent target p s j r =
        let write = write_param_float (suc n) index (narrow target) in
        Attains-weaken l (call write) p _ _
          (call-Attains l write p _ _
            (write_param_float-Runs l n p.world s r index (narrow target) hi (patterns target) ne))
          λ fb t o (shown, e, eo). (
            ap (λ (x : Status D). x.velocity) shown ∙ rw (still s j) refl,
            rw e (keeps (narrow target) s j),
            eo,
          )

  pub iq_put :
      {J : Servo → Type 0} (p : Process D (Bench D) (Recording D)) (s : Servo)
      → J s
      → Refines l p.world s
      → Attains l
          (put_iq (suc n))
          p
          (λ _ t o. J t × (xs : List D) × (o ≡ record (p.output) { cells = p.output.cells ++ xs }))
  unfolding put_iq
  iq_put p s j r =
      let m = read_param_float (suc n) Params.iq_filtered in
      Attains-bind l (call m) _ p _ _
        (call-Attains l m p _ _
          (read_param_float-Runs l n p.world s r Params.iq_filtered (omega arith) (ground arith)))
        λ w p' t (_, et, eo) r' h.
          Attains-weaken l (put (put_cell (widen w))) p' _ _
            (put-Attains l (put_cell (widen w)) p' t r')
            λ _ u o (eu, ew). (rw (eu, et) j, widen w ∷ [], ew ∙ ap (put_cell (widen w)) eo)

  -- The mode is set, the position becomes zero, and the motor is enabled, before the rest.
  pub zeroed-then :
      {O : Type 0} (mode : RunMode) (k : P D (Bench D) O (Unit {0})) (p : Process D (Bench D) O)
      (s : Servo) (R : Unit {0} → Servo → O → Type 0)
      → Refines l p.world s
      → ((w : World D (Bench D))
          → Refines l w (record s { enabled = true; run_mode = run_mode_value mode })
          → Later p.world w
          → Attains l k (record p { world = w }) R)
      → Attains l
          (call (set_run_mode (suc n) mode)
            >> (call (set_mechanical_zero (suc n)) >> (call (enable (suc n)) >> k)))
          p
          R
  zeroed-then mode k p s R r then_attains =
      call-then l (set_run_mode (suc n) mode) _ p _ _ _ (set_run_mode-Runs l n mode p.world s r)
        λ w1 r1 h1.
          call-then l (set_mechanical_zero (suc n)) _ _ _ _ _ (set_mechanical_zero-Runs l n w1 _ r1)
            λ w2 r2 h2. call-then l (enable (suc n)) _ _ _ _ _ (enable-Runs l n w2 _ r2) λ w3 r3 h3.
              then_attains w3 r3 (Later-trans p.world w2 w3 (Later-trans p.world w1 w2 h1 h2) h3)

  -- The profile, and the stop behind it.
  pub profile-stops :
      (profile : List (Segment D)) (J : Servo → Type 0)
      (send : D → P D (Bench D) (Recording D) (Feedback D))
      → ((target : D) (p : Process D (Bench D) (Recording D)) (s : Servo)
          → J s
          → Refines l p.world s
          → Attains l
              (send target)
              p
              (λ fb t o. (fb.velocity ≡ standing l target) × J t × (o ≡ p.output)))
      → (p : Process D (Bench D) (Recording D)) (s : Servo) → J s
      → p.output.cells ≡ []
      → AllLast {D = D} n p.world.bus.clock profile
      → Refines l p.world s
      → Attains l
          (run_profile (suc n) profile send (pure tt) >> (call (disable (suc n) false) >> pure tt))
          p
          (λ _ t o. Stopped J t × Adds (standing l) p.output.rows o.rows)
  profile-stops profile J send sends p s j empty lasts r =
      Attains-then l (run_profile (suc n) profile send (pure tt)) _ p _ _
        (run_profile-Attains l until lasting (standing l) J send (pure tt) sends
          (nothing_more l until lasting n patterns) p.output.rows n profile p s lasts
          (j, empty, ([], sym (append-nil p.output.rows), tt)) r)
        λ _ p1 t1 (j1, _, adds) r1 h1.
          call-then l (disable (suc n) false) (pure tt) p1 _ _ _
            (disable-Runs l n p1.world t1 r1 false)
            λ w2 r2 h2. Attains-pure l tt _ _ _ ((refl, t1, j1, refl, refl), adds) r2
