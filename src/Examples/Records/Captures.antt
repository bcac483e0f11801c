-- ===== src/Examples/Records/Captures.antt =====
-- Each of the capture programs.
use robstride_driver.Common.{ℕ, ◌≡◌, ◌∙◌, refl, ap, [], ◌++◌, false}
use mathlib.Core.List.{append-nil}
use robstride_driver.Double.{Double}
use robstride_driver.Protocol.Types.{RunMode}
use robstride_driver.Protocol.Params
use robstride_driver.Motor.Monad.{CanInterface, ◌>>◌, pure}
use robstride_driver.Motor.Commands.{
  enable, disable, set_run_mode, set_mechanical_zero, configure_velocity_mode,
  send_velocity_command, write_param_float, read_param_float,
}
use robstride_driver.Examples.Process.{Thread, Process, P, call}
use robstride_driver.Examples.Profile.{Recording, put_cell, run_profile}
use robstride_driver.Examples.Captures.{
  Capture, run, current_limit_a, acceleration_rad, csp_speed_limit, pp_vel_max, pp_acc_set,
  capture_velocity, capture_current, capture_position, capture_pp, capture_operation, put_iq,
}
use robstride_driver.Examples.Records.{
  Item, Log, empty_log, note, rows_of, recorded, put_cell-recorded,
}
use robstride_driver.Examples.Records.Logged.{profile_of, order, around, log_extra, logged}
use robstride_driver.Examples.Records.Programs.{
  Shows, pure-Shows, call-Shows, put-Shows, bind-Shows, then-Shows, next-Shows, run_profile-Shows,
}

module _ {D W : Type 0} ⦃d : Double D⦄ ⦃can : CanInterface W⦄ ⦃thread : Thread W⦄ (fuel : ℕ) where
  open d use {of_ℕ, narrow, widen}

  abbrev write_extra : Capture D → P D W (Recording D) (Unit {0})
  write_extra Capture.current = put_iq fuel
  write_extra _ = pure tt

  -- The programs, by what their cycles command and write.
  run-around :
      (c : Capture D)
      → run fuel c
        ≡ around fuel c
            (run_profile fuel (profile_of c) (λ target. call (order fuel c target)) (write_extra c))
  unfolding capture_velocity capture_current capture_position capture_pp capture_operation
  run-around Capture.velocity = refl
  run-around Capture.current = refl
  run-around Capture.position = refl
  run-around Capture.pp = refl
  run-around (Capture.operation kp kd) = refl

  module _ (o : Recording D) where
    extra-Shows : (c : Capture D) → Shows o (write_extra c) (log_extra fuel c)
    unfolding put_iq
    extra-Shows Capture.current =
        bind-Shows o _ _ _ _ (call-Shows o (read_param_float fuel Params.iq_filtered)) (λ iq.
          put-Shows o (put_cell (widen iq)) (note (Item.extra (widen iq)))
            (λ log. put_cell-recorded o log (widen iq)))
    extra-Shows Capture.velocity = pure-Shows o tt
    extra-Shows Capture.position = pure-Shows o tt
    extra-Shows Capture.pp = pure-Shows o tt
    extra-Shows (Capture.operation kp kd) = pure-Shows o tt

    stop-Shows :
        Shows {W = W} o
          (call (disable fuel false) >> pure tt)
          (call (disable fuel false) >> pure tt)
    stop-Shows = next-Shows o (disable fuel false) _ _ (pure-Shows o tt)

    around-Shows :
        (c : Capture D) (m : P D W (Recording D) (Unit {0})) (n : P D W (Log D) (Unit {0}))
        → Shows o m n
        → Shows o (around fuel c m) (around fuel c n)
    around-Shows Capture.velocity m n h = next-Shows o (set_run_mode fuel RunMode.velocity) _ _ (
        next-Shows o (enable fuel) _ _ (
          next-Shows o (configure_velocity_mode fuel current_limit_a acceleration_rad) _ _ (
            then-Shows o _ _ _ _ h
              (next-Shows o (send_velocity_command fuel (of_ℕ 0)) _ _ stop-Shows))))
    around-Shows Capture.current m n h = next-Shows o (set_run_mode fuel RunMode.current) _ _ (
        next-Shows o (enable fuel) _ _ (
          then-Shows o _ _ _ _ h
            (next-Shows o (write_param_float fuel Params.iq_ref 0) _ _ stop-Shows)))
    around-Shows Capture.position m n h =
        next-Shows o (set_run_mode fuel RunMode.position_csp) _ _ (
          next-Shows o (set_mechanical_zero fuel) _ _ (
            next-Shows o (enable fuel) _ _ (
              next-Shows o (write_param_float fuel Params.limit_spd (narrow csp_speed_limit)) _ _
                (then-Shows o _ _ _ _ h stop-Shows))))
    around-Shows Capture.pp m n h = next-Shows o (set_run_mode fuel RunMode.position_pp) _ _ (
        next-Shows o (set_mechanical_zero fuel) _ _ (
          next-Shows o (enable fuel) _ _ (
            next-Shows o (write_param_float fuel Params.vel_max (narrow pp_vel_max)) _ _ (
              next-Shows o (write_param_float fuel Params.acc_set (narrow pp_acc_set)) _ _
                (then-Shows o _ _ _ _ h stop-Shows)))))
    around-Shows (Capture.operation kp kd) m n h =
        next-Shows o (set_run_mode fuel RunMode.operation_control) _ _ (
          next-Shows o (set_mechanical_zero fuel) _ _
            (next-Shows o (enable fuel) _ _ (then-Shows o _ _ _ _ h stop-Shows)))

  -- Over any transport and however a capture program ends, by its end, an exception or out of
  -- rounds, its outcome and what it leaves of the driver and the transport are those of the same
  -- calls without a file, which log what they answer. It keeps the header and has added exactly
  -- one row for each ended line of that log, in order: the time and the target of the cycle, the
  -- position of its feedback as an unwrapper fed with the positions so far gives it, the velocity,
  -- torque and temperature of the feedback, and the filtered current where it was read. The
  -- condition is that no row is begun at the start.
  pub run-recorded :
      (c : Capture D) (p : Process D W (Recording D))
      → p.output.cells ≡ []
      → let q = logged fuel c (record { world = p.world; output = empty_log }) in
        ((run fuel c p).0 ≡ q.0)
        × ((run fuel c p).1.world ≡ q.1.world)
        × ((run fuel c p).1.output.header ≡ p.output.header)
        × ((run fuel c p).1.output.rows
            ≡ p.output.rows ++ rows_of p.output.unwrapper q.1.output.lines)
  unfolding recorded
  run-recorded c p empty =
      let start : p ≡ record p { output = recorded p.output empty_log } =
        rw (append-nil p.output.rows, ← empty) refl in
      let same : run fuel c p ≡ _ =
        ap (λ m. m p) (run-around c)
        ∙ around-Shows p.output c _ _
            (run_profile-Shows p.output fuel c (write_extra c) (extra-Shows p.output c)) p
            (record { world = p.world; output = empty_log }) start in
      (
        ap (λ x. x.0) same,
        ap (λ x. x.1.world) same,
        ap (λ x. x.1.output.header) same,
        ap (λ x. x.1.output.rows) same,
      )
