-- ===== src/Tests/Bus.antt =====
-- The driver over the simulated bus, and the bus itself.
use robstride_driver.Common.{ℕ, suc, ◌≡◌, ◌≢◌, refl, arith, [], ◌∷◌, some, ok, finished, waiting}
use robstride_driver.Double.Micro.{Micro, micro_double}
use robstride_driver.Protocol.Types.{CommType, RunMode}
use robstride_driver.Protocol.Ids.{get_target_motor_id}
use robstride_driver.Protocol.Params
use robstride_driver.Stub
use robstride_driver.Protocol.Valid.{Made, frame}
use robstride_driver.Stub.Answers.{Answered, send-Answered}
use robstride_driver.Stub.Motors.{Untouched, send-Untouched}
use robstride_driver.Motor.Monad.{World, CanInterface}
use robstride_driver.Motor.Exchange.{transceive, transceive_feedback}
use robstride_driver.Motor.Exchange.Matching.{
  Ensures, Matches, Thrown, IsLatest, transceive-Ensures, transceive_feedback-Ensures,
}
use robstride_driver.Motor.Exchange.Ending.{Ticking, transceive_ends}
use robstride_driver.Motor.Commands.{set_run_mode}
use robstride_driver.Motor.Simulated.{Bench, stub_can}
use robstride_driver.Motor.Simulated.Feedbacks.{IsReady}
use robstride_driver.Motor.Simulated.Sessions.{IsChanged, set_run_mode-stub}
use robstride_driver.Motor.Own.{IsOwn}
use robstride_driver.Servo.{Command}
use robstride_driver.Servo.Refines.{perform_all}
use robstride_driver.Servo.Keeping.{perform_all-IsOwn}
use robstride_driver.Tests.Data.{rs00_limits, enable_frame, driver, stub}

ready : IsReady driver
ready = record {
  idle = refl;
  on_time = λ k. omega arith;
  motor_byte = omega arith;
  host_byte = omega arith;
  scaled_alike = refl;
}

set_run_mode-stub_example :
    (w' : World Micro (Bench Micro)) × (set_run_mode 1 RunMode.velocity driver
      ≡ (finished (ok tt), w'))
    × IsChanged RunMode.velocity driver w'
set_run_mode-stub_example = set_run_mode-stub 0 RunMode.velocity driver ready

transceive-Ensures_example :
    Ensures
      (Matches driver.motor.config rs00_limits CommType.feedback)
      (Thrown driver.motor.config rs00_limits)
      (transceive 1 enable_frame CommType.feedback driver)
transceive-Ensures_example =
    transceive-Ensures driver.motor.config rs00_limits CommType.feedback 1 enable_frame driver
      (refl, refl)

transceive_feedback-Ensures_example :
    Ensures
      (IsLatest driver.motor.config rs00_limits)
      (Thrown driver.motor.config rs00_limits)
      (transceive_feedback 1 enable_frame driver)
transceive_feedback-Ensures_example =
    transceive_feedback-Ensures driver.motor.config rs00_limits 1 enable_frame driver (refl, refl)

-- A bus on which another motor talks all the time, over the time in nanoseconds.
abbrev chatter : CanInterface ℕ
chatter = record {
  send = λ frame w. (finished (ok tt), w);
  receive = λ t w. (finished (ok (some enable_frame)), w);
  now = λ w. (w, suc w);
}

chatter-Ticking : Ticking chatter
chatter-Ticking = record {
  time = λ w. w;
  reads = λ w. refl;
  moves = λ w. omega arith;
  waits = λ t w. omega arith;
  sends_end = λ f w e. cc;
  receives_end = λ t w e. cc;
}

abbrev listener : World Micro ℕ
listener = record { motor = driver.motor; bus = 0 }

transceive_ends_example :
    (transceive ⦃can = chatter⦄ 200_000_001 enable_frame CommType.feedback listener).0 ≢ waiting
transceive_ends_example =
    transceive_ends ⦃can = chatter⦄ chatter-Ticking 200_000_001 enable_frame CommType.feedback
      listener (omega arith)

abbrev read_request : Made Micro
read_request = Made.read_param 1 0xFD Params.loc_ref

send-Answered_example :
    Answered
      (some (record { kind = CommType.read_param; from = 1; to = 0xFD }))
      stub
      (Stub.send 5 (frame read_request) stub)
send-Answered_example = send-Answered 5 read_request stub (omega arith, omega arith, omega arith)

send-Untouched_example : Untouched 3 stub (Stub.send 5 enable_frame stub)
unfolding get_target_motor_id
send-Untouched_example = send-Untouched 5 enable_frame stub 3 (ground arith)

listener-IsOwn : IsOwn driver.motor.config rs00_limits listener.motor
listener-IsOwn = record { config = refl; limits = refl; cached = λ fb e. cc }

perform_all-IsOwn_example :
    IsOwn driver.motor.config rs00_limits
      (perform_all ⦃can = chatter⦄ 3 (Command.enable ∷ Command.get_run_mode ∷ []) listener).1.motor
perform_all-IsOwn_example =
    perform_all-IsOwn ⦃can = chatter⦄ driver.motor.config rs00_limits 3
      (Command.enable ∷ Command.get_run_mode ∷ []) listener listener-IsOwn
