-- ===== src/Tests/Abstract.antt =====
-- A session of the driver against the abstract motor, and the frames of the library.
use robstride_driver.Common.{
  ◌≡◌, refl, finished, ok, ℕ, ◌+◌, arith, List, [], ◌∷◌, map, All, true, false,
}
use mathlib.Core.List.{append-nil}
use robstride_driver.Common.Int.{pos}
use robstride_driver.Common.Assoc.{find}
use robstride_driver.Double.Micro.{Micro, micro_double}
use robstride_driver.Protocol.Types.{RunMode}
use robstride_driver.Protocol.Params
use robstride_driver.Protocol.Valid.{Made, frame, IsFrame, frame-IsFrame}
use robstride_driver.Stub
use robstride_driver.Stub.{Stub, MotorState}
use robstride_driver.Stub.Sound.{IsSound}
use robstride_driver.Stub.Uses.{Use, SendsFrame, used_all, used_all-IsSound}
use robstride_driver.AtSerial.Parser.Stream.{flat, receive_chunks}
use robstride_driver.AtSerial.Parser.Packets.{encode_all}
use robstride_driver.AtSerial.Delivery.{receive_chunks-made}
use robstride_driver.Motor.Simulated.{stub_can, Bench}
use robstride_driver.Servo.{Servo, Command, Reply, answers, after, status_of}
use robstride_driver.Servo.Runs.{Refines, Runs}
use robstride_driver.Servo.Refines.{perform_all, IsUsable, perform_all-Runs}
use robstride_driver.Servo.Fleet.{
  Fleet, AllRefine, perform_each, after_each, answers_each, perform_each_lem,
}
use robstride_driver.Tests.Data.{driver, stub, rs00_limits, enable_frame, sample_feedback}

-- A motor that has seen nothing.
abbrev pub fresh : Servo
fresh = record { enabled = false; run_mode = 0; fault_bits = 0; memory = λ i. 0 }

pub Refines-fresh : Refines rs00_limits driver fresh
unfolding Stub.motor find Stub.param_or_zero
Refines-fresh = record {
  ready = record {
    idle = refl;
    on_time = λ k. omega arith;
    motor_byte = omega arith;
    host_byte = omega arith;
    scaled_alike = refl;
  };
  limits = refl;
  abstracts = record {
    enabled = refl;
    run_mode = refl;
    fault_bits = refl;
    memory = λ i other. refl;
    patterns = λ i. omega arith;
  };
}

abbrev pub session : List (Command Micro)
session =
    Command.set_run_mode RunMode.velocity
    ∷ Command.enable
    ∷ Command.configure_velocity_mode (pos 10_000_000) (pos 20_000_000)
    ∷ Command.send_velocity_command (pos 2_000_000)
    ∷ Command.read_param Params.limit_cur
    ∷ Command.disable true
    ∷ []

pub session-IsUsable : All IsUsable session
session-IsUsable =
    (tt, (tt, ((omega arith, omega arith), (omega arith, ((omega arith, ground arith), (tt, tt))))))

answer_of_session :
    answers (pos 50_000_000) (Command.enable ∷ Command.read_param 0x7018 ∷ []) fresh
    ≡ Reply.status (status_of (pos 50_000_000) (record fresh { enabled = true }))
      ∷ Reply.value 0
      ∷ []
answer_of_session = refl

perform_all-Runs_example :
    Runs rs00_limits
      (perform_all 1 session)
      driver
      (λ rs. rs ≡ answers rs00_limits.velocity session fresh)
      (after session fresh)
perform_all-Runs_example =
    perform_all-Runs rs00_limits 0 session driver fresh session-IsUsable Refines-fresh

abbrev requests : List (Made Micro)
requests = Made.enable 0x7F 0xFD ∷ Made.stop 1 0xFD true ∷ []

frame-IsFrame_example : IsFrame (frame (Made.feedback sample_feedback rs00_limits))
frame-IsFrame_example =
    frame-IsFrame (Made.feedback sample_feedback rs00_limits) (omega arith, omega arith)

-- The whole stream in one chunk.
whole_stream : flat (encode_all (map frame requests) ∷ [] ∷ []) ≡ encode_all (map frame requests)
whole_stream = append-nil (encode_all (map frame requests))

receive_chunks-made_example :
    receive_chunks [] (encode_all (map frame requests) ∷ [] ∷ []) ≡ (map frame requests, [])
receive_chunks-made_example =
    receive_chunks-made requests (encode_all (map frame requests) ∷ [] ∷ [])
      ((omega arith, omega arith), ((omega arith, omega arith), tt)) whole_stream

pub IsSound-stub : IsSound stub
IsSound-stub = record { queue = tt; modes = tt }

abbrev uses : List (Use Micro)
uses = Use.sets_fault_bits 1 0x44 ∷ Use.sends 5 enable_frame ∷ Use.receives ∷ Use.receives ∷ []

uses-SendsFrame : All SendsFrame uses
uses-SendsFrame =
    (tt, (record { id_bits = omega arith; bytes = omega arith; full = refl }, (tt, (tt, tt))))

used_all-IsSound_example : All IsFrame (used_all uses stub).0 × IsSound (used_all uses stub).1
used_all-IsSound_example = used_all-IsSound uses stub uses-SendsFrame IsSound-stub

-- Two drivers, of the motors 1 and 2.
abbrev fleet : Fleet Micro (Bench Micro)
fleet = record {
  drivers =
      λ k. record (driver.motor) { config = record (driver.motor.config) { motor_id = k + 1 } };
  bus = driver.bus;
}

fleet-AllRefine : AllRefine rs00_limits 2 fleet (λ k. fresh)
unfolding Stub.motor find Stub.param_or_zero
fleet-AllRefine k lt = record {
  ready = record {
    idle = refl;
    on_time = λ i. omega arith;
    motor_byte = omega arith;
    host_byte = omega arith;
    scaled_alike = refl;
  };
  limits = refl;
  abstracts = record {
    enabled = refl;
    run_mode = refl;
    fault_bits = refl;
    memory = λ i other. refl;
    patterns = λ i. omega arith;
  };
}

abbrev calls : List (ℕ × Command Micro)
calls =
    (0, Command.enable)
    ∷ (1, Command.set_run_mode RunMode.velocity)
    ∷ (0, Command.write_param Params.limit_cur 7)
    ∷ (1, Command.read_param Params.limit_cur)
    ∷ []

perform_each_lem_example :
    (f' : Fleet Micro (Bench Micro)) × (perform_each 1 calls fleet
      ≡ (finished (ok (answers_each rs00_limits.velocity calls (λ k. fresh))), f'))
    × AllRefine rs00_limits 2 f' (after_each calls (λ k. fresh))
perform_each_lem_example =
    perform_each_lem rs00_limits 0 2 calls fleet (λ k. fresh)
      (
        (omega arith, tt),
        (
          (omega arith, tt),
          (
            (omega arith, (omega arith, omega arith, ground arith)),
            ((omega arith, (omega arith, ground arith)), tt),
          ),
        ),
      )
      (λ j k hj hk ne e. ne (omega arith)) fleet-AllRefine
