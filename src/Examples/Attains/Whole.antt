-- ===== src/Examples/Attains/Whole.antt =====
-- `main` of the capture programs, over the simulated bus.
use robstride_driver.Common.{
  ℕ, suc, ◌≡◌, refl, sym, true, false, List, [], ◌∷◌, All, some, ok, finished, Call, Option,
}
use mathlib.Core.Path.{subst}
use robstride_driver.Common.Bits.{IsU32}
use robstride_driver.Double.{Double}
use robstride_driver.Protocol.Limits.{ActuatorLimits}
use robstride_driver.Motor.Monad.{World}
use robstride_driver.Motor.Simulated.{Bench, stub_can}
use robstride_driver.Servo.{Servo}
use robstride_driver.Servo.Runs.{Refines}
use robstride_driver.Examples.Process.{Thread, Process, P, Column}
use robstride_driver.Examples.Profile.{Recording}
use robstride_driver.Examples.Setup.{Args, Opener, parse_args, open_csv}
use robstride_driver.Examples.Captures.{Capture, run}
use robstride_driver.Examples.Mains.{Exit, open_world, capture_main, late}
use robstride_driver.Examples.Attains.{napping}
use robstride_driver.Examples.Attains.Profiles.{IsRow, AllLast}
use robstride_driver.Examples.Attains.Programs.{profile_of, Sets, shown, capture-Attains}

abbrev pub extra_header : {D : Type 0} → Capture D → List Column
extra_header Capture.current = Column.iq ∷ []
extra_header _ = []

module _ {D : Type 0} ⦃d : Double D⦄ (l : ActuatorLimits D) (until lasting : ℕ → ℕ) (n : ℕ)
    (patterns : (x : D) → IsU32 (d.narrow x)) where
  instance abbrev thread : Thread (Bench D)
  thread = napping until lasting

  -- The motor is stopped, with the settings of the program, and what is recorded are whole rows.
  abbrev pub Succeeds : Capture D → Call Exit × Option (Process D (Bench D) (Recording D)) → Type 0
  Succeeds c result =
      (p : Process D (Bench D) (Recording D)) × (t : Servo) × (result
        ≡ (finished (ok Exit.success), some p))
      × Refines l p.world t
      × (t.enabled ≡ false)
      × Sets D c t
      × All (IsRow (shown l c)) p.output.rows

  abbrev opened : Capture D → World D (Bench D) → Process D (Bench D) (Recording D)
  opened c world = record { world = world; output = open_csv (extra_header c) world.motor.limits }

  late-Succeeds :
      (c : Capture D) (world : World D (Bench D)) (s : Servo)
      → AllLast {D = D} n world.bus.clock (profile_of c)
      → Refines l world s
      → Succeeds c (late (run (suc n) c) (opened c world))
  unfolding open_csv
  late-Succeeds c world s lasts r =
      let (_, p, t, e, (off, sets, (rows, added, good)), r', _) =
        capture-Attains l until lasting n patterns c (opened c world) s refl lasts r in
      (p, t, rw e refl, r', off, sets, rw added good)

  capture_main-late :
      (opener : Opener (Bench D)) (body : P D (Bench D) (Recording D) (Unit {0}))
      (header : List Column) (argv : List (List ℕ)) (args : Args) (world : World D (Bench D))
      → parse_args argv ≡ some args
      → open_world opener args.interface_name args.motor_id ≡ ok world
      → capture_main opener true header body argv
        ≡ late body (record { world = world; output = open_csv header world.motor.limits })
  unfolding capture_main
  capture_main-late opener body header argv args world parsed connected =
      rw (capture_main, parsed, connected) refl

  -- With arguments that parse, a CSV file that opens, and a transport that opens to a ready
  -- simulated bus whose motor stands for an abstract motor, `main` of each of the five captures
  -- (of the operation capture, once its gains are read) ends with EXIT_SUCCESS. It leaves the
  -- motor disabled, in the mode and with the parameters that the program sets, and every recorded
  -- row shows the velocity that a motor in that mode reports of the row's target, on 16 bits. The
  -- conditions are that `n` readings of the clock last as long as any segment, and that a `float`
  -- is a 32-bit pattern; the loops take at most `n + 1` rounds.
  pub capture_main-Succeeds :
      (c : Capture D) (opener : Opener (Bench D)) (argv : List (List ℕ)) (args : Args)
      (world : World D (Bench D)) (s : Servo)
      → parse_args argv ≡ some args
      → open_world opener args.interface_name args.motor_id ≡ ok world
      → AllLast {D = D} n world.bus.clock (profile_of c)
      → Refines l world s
      → Succeeds c (capture_main opener true (extra_header c) (run (suc n) c) argv)
  capture_main-Succeeds c opener argv args world s parsed connected lasts r =
      let reaches =
        capture_main-late opener (run (suc n) c) (extra_header c) argv args world parsed
          connected in
      subst (Succeeds c) (sym reaches) (late-Succeeds c world s lasts r)
