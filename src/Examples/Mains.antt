-- ===== src/Examples/Mains.antt =====
-- examples: `main` of the programs, from their arguments to their exit.
use robstride_driver.Common.{
  ℕ, List, [], ◌∷◌, Option, none, some, Result, ok, err, Call, finished, waiting, Bool, true, false,
}
use robstride_driver.Double.{Double}
use robstride_driver.Motor.Monad.{CanInterface, World}
use robstride_driver.Examples.Process.{Thread, Process, P, Column}
use robstride_driver.Examples.Profile.{Recording}
use robstride_driver.Examples.Setup.{
  Opener, stoi, u8_of_ℤ, parse_args, make_can_interface, make_rs02_motor, open_csv,
}
use robstride_driver.Examples.Captures.{
  capture_velocity, capture_current, capture_position, capture_pp, capture_operation,
}
use robstride_driver.Examples.Velocity.{Line, velocity_control}

-- `EXIT_SUCCESS` and `EXIT_FAILURE`, and an exception that nothing catches.
pub data Exit : Type 0 where
  success failure terminated : Exit

-- The `catch` of `std::exception` at the end of a program.
abbrev pub exit_of : Call (Unit {0}) → Call Exit
exit_of (finished (ok _)) = finished (ok Exit.success)
exit_of (finished (err _)) = finished (ok Exit.failure)
exit_of waiting = waiting

-- A program that ends before it has a driver.
abbrev pub early : {D W O : Type 0} → Exit → Call Exit × Option (Process D W O)
early e = (finished (ok e), none)

-- A program that runs with its driver.
abbrev pub late :
    {D W O : Type 0} → P D W O (Unit {0}) → Process D W O → Call Exit × Option (Process D W O)
late body p = let (r, p') = body p in (exit_of r, some p')

module _ {D : Type 0} ⦃d : Double D⦄ {W : Type 0} (opener : Opener W) where
  -- The driver of a motor, over the transport of that name.
  unfoldable pub open_world : List ℕ → ℕ → Result (World D W)
  open_world interface_name motor_id = elim (make_can_interface opener interface_name motor_id) [
    | err e ↦ err e
    | ok bus ↦ elim (make_rs02_motor motor_id) [
      | err e ↦ err e
      | ok motor ↦ ok (record { motor = motor; bus = bus })
    ]
  ]

  -- What the capture programs share; `opens` is whether the CSV file can be opened.
  unfoldable pub capture_main :
      Bool
      → List Column
      → P D W (Recording D) (Unit {0})
      → List (List ℕ)
      → Call Exit × Option (Process D W (Recording D))
  capture_main opens extra_header body argv = elim (parse_args argv) [
    | none ↦ early Exit.failure
    | some args ↦ elim (open_world args.interface_name args.motor_id) [
      | err e ↦ early Exit.failure
      | ok world ↦ elim opens [
        | false ↦ early Exit.failure
        | true ↦
            late body (record { world = world; output = open_csv extra_header world.motor.limits })
      ]
    ]
  ]

  module _ ⦃can : CanInterface W⦄ ⦃thread : Thread W⦄ (fuel : ℕ) (opens : Bool) where
    abbrev pub main_velocity : List (List ℕ) → Call Exit × Option (Process D W (Recording D))
    main_velocity = capture_main opens [] (capture_velocity fuel)

    abbrev pub main_current : List (List ℕ) → Call Exit × Option (Process D W (Recording D))
    main_current = capture_main opens (Column.iq ∷ []) (capture_current fuel)

    abbrev pub main_position : List (List ℕ) → Call Exit × Option (Process D W (Recording D))
    main_position = capture_main opens [] (capture_position fuel)

    abbrev pub main_pp : List (List ℕ) → Call Exit × Option (Process D W (Recording D))
    main_pp = capture_main opens [] (capture_pp fuel)

  -- The programs that take numbers with `std::stod`, which is `none` if it throws.
  module _ ⦃can : CanInterface W⦄ ⦃thread : Thread W⦄ (fuel : ℕ) (stod : List ℕ → Option D) where
    open d use {of_ℕ}

    -- The gains, which default to 4 and 1.
    unfoldable pub gains : List (List ℕ) → Option (D × D)
    gains [] = some (of_ℕ 4, of_ℕ 1)
    gains (kp ∷ []) = elim (stod kp) [ none ↦ none | some p ↦ some (p, of_ℕ 1) ]
    gains (kp ∷ kd ∷ more) = elim (stod kp) [
      | none ↦ none
      | some p ↦ elim (stod kd) [ none ↦ none | some q ↦ some (p, q) ]
    ]

    abbrev after_four : List (List ℕ) → List (List ℕ)
    after_four (_ ∷ _ ∷ _ ∷ _ ∷ more) = more
    after_four _ = []

    unfoldable pub main_operation :
        Bool → List (List ℕ) → Call Exit × Option (Process D W (Recording D))
    main_operation opens argv = elim (parse_args argv) [
      | none ↦ early Exit.failure
      | some args ↦ elim (gains (after_four argv)) [
        | none ↦ early Exit.failure
        | some (kp, kd) ↦ capture_main opens [] (capture_operation fuel kp kd) argv
      ]
    ]

    -- The time, which defaults to 3 s.
    unfoldable pub duration : List (List ℕ) → Option D
    duration [] = some (of_ℕ 3)
    duration (text ∷ more) = stod text

    -- `velocity_control` opens its transport and its motor as the capture programs do; its
    -- arguments are read outside its `try`.
    unfoldable pub run_velocity_control :
        List ℕ → ℕ → D → D → Call Exit × Option (Process D W (List (Line D)))
    run_velocity_control interface_name motor_id velocity duration_s =
        elim (open_world interface_name motor_id) [
          | err e ↦ early Exit.failure
          | ok world ↦
              late (velocity_control fuel velocity duration_s)
                (record { world = world; output = [] })
        ]

    unfoldable pub main_velocity_control :
        List (List ℕ) → Call Exit × Option (Process D W (List (Line D)))
    main_velocity_control (program ∷ interface_name ∷ motor_id ∷ velocity ∷ more) =
        elim (stoi motor_id) [
          | none ↦ early Exit.terminated
          | some id ↦ elim (stod velocity) [
            | none ↦ early Exit.terminated
            | some v ↦ elim (duration more) [
              | none ↦ early Exit.terminated
              | some seconds ↦ run_velocity_control interface_name (u8_of_ℤ id) v seconds
            ]
          ]
        ]
    main_velocity_control _ = early Exit.failure
