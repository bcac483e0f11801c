-- ===== src/Tests/Bench.antt =====
-- The example programs, on a simulated RS02 motor.
use robstride_driver.Common.{
  ℕ, ◌*◌, ◌≤◌, ◌≡◌, refl, arith, List, [], ◌∷◌, ◌++◌, true, false, none, some, ok, err,
  system_error,
}
use robstride_driver.Common.Bits.{IsU32}
use robstride_driver.Common.Int.{pos, negsuc, ◌+ℤ◌}
use robstride_driver.Common.Assoc.{find}
use robstride_driver.Double.Micro.{Micro, micro_double}
use robstride_driver.Protocol.Types.{RunMode, run_mode_value}
use robstride_driver.Protocol.Params
use robstride_driver.Protocol.Limits.{ActuatorType, ActuatorLimits, get_actuator_limits}
use robstride_driver.Stub
use robstride_driver.Motor.Monad.{World}
use robstride_driver.Motor.Exchange.{make_motor}
use robstride_driver.Motor.Simulated.{Bench, stub_can}
use robstride_driver.Servo.Runs.{Refines}
use robstride_driver.Examples.Setup.{
  Opener, read_digits, stoi, parse_args, make_can_interface, make_rs02_motor,
}
use robstride_driver.Examples.Setup.Digits.{text_of, parse_args-text_of}
use robstride_driver.Examples.Mains.{open_world, capture_main}
use robstride_driver.Examples.Attains.{napping, Attains}
use robstride_driver.Examples.Attains.Profiles.{Lasts}
use robstride_driver.Examples.Captures.{Capture, run}
use robstride_driver.Examples.Attains.Whole.{Succeeds, capture_main-Succeeds}
use robstride_driver.Examples.Velocity.{velocity_control}
use robstride_driver.Examples.Attains.Captures.{velocity_of}
use robstride_driver.Examples.Attains.Turning.{Takes, Prints, velocity_control-Attains}
use robstride_driver.Examples.Profile.{Recording}
use robstride_driver.Examples.Process.{Process}
use robstride_driver.Examples.Records.{empty_log, rows_of}
use robstride_driver.Examples.Records.Logged.{logged}
use robstride_driver.Examples.Records.Captures.{run-recorded}
use robstride_driver.Tests.Abstract.{fresh}

-- Twenty readings of the clock in a second.
abbrev rs02_limits : ActuatorLimits Micro
rs02_limits = record {
  position = pos 12_566_372;
  velocity = pos 44_000_000;
  torque = pos 17_000_000;
  kp_max = pos 500_000_000;
  kd_max = pos 5_000_000;
}

abbrev ticking : ℕ → ℕ
ticking k = k * 50_000_000

abbrev bench : Bench Micro
bench = record {
  stub = record { limits = rs02_limits; motors = []; responses = []; temperature = pos 30_000_000 };
  clock = ticking;
  tick = 0;
}

abbrev bench_world : World Micro (Bench Micro)
bench_world = record {
  motor = record {
    config = record {
      motor_id = 127;
      host_id = 0xFD;
      actuator_type = ActuatorType.rs02;
      response_timeout = 100;
    };
    limits = rs02_limits;
    last_feedback = none;
  };
  bus = bench;
}

Refines-bench : Refines rs02_limits bench_world fresh
unfolding Stub.motor find Stub.param_or_zero
Refines-bench = record {
  ready = record {
    idle = refl;
    on_time = λ k. omega arith;
    motor_byte = omega arith;
    host_byte = omega arith;
    scaled_alike = refl;
  };
  limits = refl;
  abstracts = record {
    enabled = refl;
    run_mode = refl;
    fault_bits = refl;
    memory = λ i other. refl;
    patterns = λ i. omega arith;
  };
}

patterns : (x : Micro) → IsU32 (micro_double.narrow x)
patterns (pos n) = ground arith
patterns (negsuc n) = ground arith

ticks_last : (c : ℕ) → c ≤ 4_000_000 → Lasts 80 ticking (pos c)
unfolding ◌+ℤ◌
ticks_last c small k i j ki ij = ground arith

-- The serial module is there, and there is no CAN interface.
abbrev opener : Opener (Bench Micro)
opener = record {
  at_serial = λ name. ok bench;
  socket_can = λ name. err system_error;
  filter_fails = λ name. false;
  filtered = λ filter b. b;
}

-- "/dev/tty", "127" and "o".
abbrev device : List ℕ
device = b'/' ∷ b'd' ∷ b'e' ∷ b'v' ∷ b'/' ∷ b't' ∷ b't' ∷ b'y' ∷ []

abbrev argv : List (List ℕ)
argv = [] ∷ device ∷ (b'1' ∷ b'2' ∷ b'7' ∷ []) ∷ (b'o' ∷ []) ∷ []

parse_argv :
    parse_args argv
    ≡ some (record { interface_name = device; motor_id = 127; out_path = b'o' ∷ [] })
unfolding parse_args stoi read_digits
parse_argv = refl

open_device : open_world opener device 127 ≡ ok bench_world
unfolding open_world make_can_interface make_rs02_motor make_motor get_actuator_limits
open_device = refl

capture_main-Succeeds_example :
    Succeeds rs02_limits
      (λ t. 1)
      (λ t. 2)
      80
      patterns
      Capture.velocity
      (capture_main opener true []
        (run ⦃thread = napping (λ t. 1) (λ t. 2)⦄ 81 Capture.velocity)
        argv)
capture_main-Succeeds_example =
    capture_main-Succeeds rs02_limits (λ t. 1) (λ t. 2) 80 patterns Capture.velocity opener argv
      (record { interface_name = device; motor_id = 127; out_path = b'o' ∷ [] }) bench_world fresh
      parse_argv open_device
      (
        ticks_last 1_000_000 (omega arith),
        (
          ticks_last 4_000_000 (omega arith),
          (
            ticks_last 4_000_000 (omega arith),
            (ticks_last 4_000_000 (omega arith), (ticks_last 3_000_000 (omega arith), tt)),
          ),
        ),
      )
      Refines-bench

ticks_take : Takes 80 ticking (pos 3000)
ticks_take i j ij = omega arith

velocity_control-Attains_example :
    Attains rs02_limits
      (velocity_control ⦃thread = napping (λ t. 1) (λ t. 2)⦄ 81 (pos 2_000_000) (pos 3_000_000))
      (record { world = bench_world; output = [] })
      λ _ t o.
        (t.enabled ≡ false)
        × (t.run_mode ≡ run_mode_value RunMode.velocity)
        × (t.memory Params.spd_ref ≡ 0)
        × (t.memory Params.limit_cur ≡ 10_000_000)
        × (t.memory Params.acc_rad ≡ 20_000_000)
        × Prints (velocity_of rs02_limits (pos 2_000_000)) [] o
velocity_control-Attains_example =
    velocity_control-Attains rs02_limits (λ t. 1) (λ t. 2) 80 patterns (pos 2_000_000) []
      (pos 3_000_000) (record { world = bench_world; output = [] }) fresh refl ticks_take
      Refines-bench

-- The id 383, which is no motor's, is taken for 127.
parse_args-text_of_example :
    parse_args ([] ∷ device ∷ text_of (3 ∷ 8 ∷ 3 ∷ []) ∷ (b'o' ∷ []) ∷ [])
    ≡ some (record { interface_name = device; motor_id = 127; out_path = b'o' ∷ [] })
parse_args-text_of_example =
    parse_args-text_of [] device (b'o' ∷ []) 3 (8 ∷ 3 ∷ []) []
      (omega arith, (omega arith, (omega arith, tt))) (omega arith)

abbrev empty_recording : Recording Micro
empty_recording = record {
  header = [];
  rows = [];
  cells = [];
  unwrapper = record { span = pos 25_132_744; offset = pos 0; last_wrapped = none };
}

abbrev capturing : Process Micro (Bench Micro) (Recording Micro)
capturing = record { world = bench_world; output = empty_recording }

abbrev operation : Capture Micro
operation = Capture.operation (pos 4_000_000) (pos 1_000_000)

run-recorded_example :
    let (r, p) = run ⦃thread = napping (λ t. 1) (λ t. 2)⦄ 81 operation capturing in
    let (s, q) =
      logged 81 ⦃thread = napping (λ t. 1) (λ t. 2)⦄ operation
        (record { world = bench_world; output = empty_log }) in
    (r ≡ s)
    × (p.world ≡ q.world)
    × (p.output.header ≡ [])
    × (p.output.rows ≡ [] ++ rows_of empty_recording.unwrapper q.output.lines)
run-recorded_example = run-recorded ⦃thread = napping (λ t. 1) (λ t. 2)⦄ 81 operation capturing refl
