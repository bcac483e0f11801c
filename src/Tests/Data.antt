-- ===== src/Tests/Data.antt =====
-- Test data: frames, feedback, and a driver of a simulated RS00 motor. Numbers are in millionths.
use robstride_driver.Common.{ℕ, ◌≡◌, refl, List, [], ◌∷◌, none, ok, err, out_of_range}
use robstride_driver.Common.Int.{pos, negsuc}
use robstride_driver.Double.Micro.{Micro, micro_double}
use robstride_driver.Protocol.Types.{CanFrame, zero8, Feedback, MotorMode}
use robstride_driver.Protocol.Limits.{ActuatorType, ActuatorLimits, get_actuator_limits}
use robstride_driver.Protocol.Ids.{make_id}
use robstride_driver.Protocol.Encode.{make_enable_frame}
use robstride_driver.Stub.{Stub}
use robstride_driver.Stub
use robstride_driver.Motor.Monad.{World}
use robstride_driver.Motor.Exchange.{make_motor}
use robstride_driver.Motor.Simulated.{Bench}

abbrev pub rs00_limits : ActuatorLimits Micro
rs00_limits = record {
  position = pos 12_566_372;
  velocity = pos 50_000_000;
  torque = pos 17_000_000;
  kp_max = pos 500_000_000;
  kd_max = pos 5_000_000;
}

get_actuator_limits_rs00 : get_actuator_limits {D = Micro} ActuatorType.rs00 ≡ ok rs00_limits
unfolding get_actuator_limits
get_actuator_limits_rs00 = refl

get_actuator_limits_unknown :
    get_actuator_limits {D = Micro} (ActuatorType.other 7) ≡ err out_of_range
unfolding get_actuator_limits
get_actuator_limits_unknown = refl

abbrev pub enable_frame : CanFrame
enable_frame = record { id = 0x0300FD7F; payload = zero8; dlc = 8 }

make_enable_frame_7f : make_enable_frame 0x7F 0xFD ≡ enable_frame
unfolding make_enable_frame make_id
make_enable_frame_7f = refl

-- A frame with two bytes of data.
abbrev pub short_frame : CanFrame
short_frame = record {
  id = 0x1200FD01;
  payload = record { b0 = 5; b1 = 0x70; b2 = 0; b3 = 0; b4 = 0; b5 = 0; b6 = 0; b7 = 0 };
  dlc = 2;
}

abbrev pub short_packet : List ℕ
short_packet = b'A' ∷ b'T' ∷ 0x90 ∷ 0x07 ∷ 0xE8 ∷ 0x0C ∷ 2 ∷ 5 ∷ 0x70 ∷ b'\r' ∷ b'\n' ∷ []

abbrev pub sample_feedback : Feedback Micro
sample_feedback = record {
  motor_id = 1;
  host_id = 0xFD;
  mode = MotorMode.run;
  fault = record { raw = 0x04 };
  position = pos 1_500_000;
  velocity = negsuc 2_999_999;
  torque = pos 250_000;
  temperature = pos 36_500_000;
}

-- The driver of motor 1, on a bus that has seen nothing, with a clock that goes on by a nanosecond.
abbrev pub driver : World Micro (Bench Micro)
driver = record {
  motor = record {
    config = record {
      motor_id = 1;
      host_id = 0xFD;
      actuator_type = ActuatorType.rs00;
      response_timeout = 200;
    };
    limits = rs00_limits;
    last_feedback = none;
  };
  bus = record {
    stub = record {
      limits = rs00_limits;
      motors = [];
      responses = [];
      temperature = pos 30_000_000;
    };
    clock = λ k. k;
    tick = 0;
  };
}

abbrev pub stub : Stub Micro
stub = driver.bus.stub

make_stub_rs00 : Stub.make_stub {D = Micro} ActuatorType.rs00 ≡ ok stub
unfolding Stub.make_stub get_actuator_limits
make_stub_rs00 = refl

make_motor_rs00 : make_motor {D = Micro} driver.motor.config ≡ ok driver.motor
unfolding make_motor get_actuator_limits
make_motor_rs00 = refl
