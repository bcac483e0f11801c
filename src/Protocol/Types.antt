-- ===== src/Protocol/Types.antt =====
-- The types of protocol.hpp: frames, the enumerations over `uint8_t`, feedback and requests.
use robstride_driver.Common.{ℕ, ◌*◌, ◌+◌, ◌^◌, Bool, not, ◌==◌, List, get_or, bit_and}
use robstride_driver.Common.{[], ◌∷◌, if◌then◌else◌}
use robstride_driver.Common.Bits.{u8, shr}

-- `std::array<std::uint8_t, 8>` and `std::array<std::uint8_t, 4>`, a field for each place.
pub record Data8 : Type 0 where
  pub b0 : ℕ
  pub b1 : ℕ
  pub b2 : ℕ
  pub b3 : ℕ
  pub b4 : ℕ
  pub b5 : ℕ
  pub b6 : ℕ
  pub b7 : ℕ

pub record Data4 : Type 0 where
  pub b0 : ℕ
  pub b1 : ℕ
  pub b2 : ℕ
  pub b3 : ℕ

abbrev pub zero8 : Data8
zero8 = record { b0 = 0; b1 = 0; b2 = 0; b3 = 0; b4 = 0; b5 = 0; b6 = 0; b7 = 0 }

abbrev pub bytes8 : Data8 → List ℕ
bytes8 d = d.b0 ∷ d.b1 ∷ d.b2 ∷ d.b3 ∷ d.b4 ∷ d.b5 ∷ d.b6 ∷ d.b7 ∷ []

-- A zeroed array over whose front `xs` is copied.
abbrev pub copy8 : List ℕ → Data8
copy8 xs = record {
  b0 = get_or xs 0 0;
  b1 = get_or xs 1 0;
  b2 = get_or xs 2 0;
  b3 = get_or xs 3 0;
  b4 = get_or xs 4 0;
  b5 = get_or xs 5 0;
  b6 = get_or xs 6 0;
  b7 = get_or xs 7 0;
}

-- `std::memcpy` of a little-endian `float`, given by its bit pattern, to and from four bytes.
abbrev pub float_bytes : ℕ → Data4
float_bytes w = record { b0 = u8 w; b1 = u8 (shr w 8); b2 = u8 (shr w 16); b3 = u8 (shr w 24) }

abbrev pub bytes_float : Data4 → ℕ
bytes_float d = d.b0 + d.b1 * 2 ^ 8 + d.b2 * 2 ^ 16 + d.b3 * 2 ^ 24

pub record CanFrame : Type 0 where
  pub id : ℕ
  pub payload : Data8
  pub dlc : ℕ

-- An enumeration over `uint8_t` holds any byte: `other` is a value that has no enumerator.
pub data CommType : Type 0 where
  get_device_id motion_control feedback enable stop set_mechanical_zero set_can_id : CommType
  read_param write_param fault_feedback save_data set_baud_rate active_report : CommType
  set_protocol : CommType
  other : ℕ → CommType

abbrev pub comm_type_value : CommType → ℕ
comm_type_value get_device_id = 0x00
comm_type_value motion_control = 0x01
comm_type_value feedback = 0x02
comm_type_value enable = 0x03
comm_type_value stop = 0x04
comm_type_value set_mechanical_zero = 0x06
comm_type_value set_can_id = 0x07
comm_type_value read_param = 0x11
comm_type_value write_param = 0x12
comm_type_value fault_feedback = 0x15
comm_type_value save_data = 0x16
comm_type_value set_baud_rate = 0x17
comm_type_value active_report = 0x18
comm_type_value set_protocol = 0x19
comm_type_value (other n) = n

-- `static_cast<CommType>` of a byte.
abbrev pub comm_type_of : ℕ → CommType
comm_type_of n =
    if n == 0x00
    then get_device_id
    else if n == 0x01
    then motion_control
    else if n == 0x02
    then feedback
    else if n == 0x03
    then enable
    else if n == 0x04
    then stop
    else if n == 0x06
    then set_mechanical_zero
    else if n == 0x07
    then set_can_id
    else if n == 0x11
    then read_param
    else if n == 0x12
    then write_param
    else if n == 0x15
    then fault_feedback
    else if n == 0x16
    then save_data
    else if n == 0x17
    then set_baud_rate
    else if n == 0x18
    then active_report
    else if n == 0x19
    then set_protocol
    else other n

pub data RunMode : Type 0 where
  operation_control position_pp velocity current set_zero position_csp : RunMode
  other : ℕ → RunMode

abbrev pub run_mode_value : RunMode → ℕ
run_mode_value operation_control = 0
run_mode_value position_pp = 1
run_mode_value velocity = 2
run_mode_value current = 3
run_mode_value set_zero = 4
run_mode_value position_csp = 5
run_mode_value (other n) = n

-- `static_cast<RunMode>` of a byte.
abbrev pub run_mode_of : ℕ → RunMode
run_mode_of n =
    if n == 0
    then operation_control
    else if n == 1
    then position_pp
    else if n == 2
    then velocity
    else if n == 3
    then current
    else if n == 4
    then set_zero
    else if n == 5
    then position_csp
    else other n

pub data MotorMode : Type 0 where
  reset calibration run : MotorMode
  other : ℕ → MotorMode

abbrev pub motor_mode_value : MotorMode → ℕ
motor_mode_value reset = 0
motor_mode_value calibration = 1
motor_mode_value run = 2
motor_mode_value (other n) = n

abbrev pub motor_mode_of : ℕ → MotorMode
motor_mode_of n =
    if n == 0 then reset else if n == 1 then calibration else if n == 2 then run else other n

pub record FaultStatus : Type 0 where
  pub raw : ℕ

unfoldable pub undervoltage : FaultStatus → Bool
undervoltage f = not (bit_and f.raw 0x01 == 0)

unfoldable pub overcurrent : FaultStatus → Bool
overcurrent f = not (bit_and f.raw 0x02 == 0)

unfoldable pub overtemperature : FaultStatus → Bool
overtemperature f = not (bit_and f.raw 0x04 == 0)

unfoldable pub magnetic_encoding : FaultStatus → Bool
magnetic_encoding f = not (bit_and f.raw 0x08 == 0)

unfoldable pub stall_overload : FaultStatus → Bool
stall_overload f = not (bit_and f.raw 0x10 == 0)

unfoldable pub uncalibrated : FaultStatus → Bool
uncalibrated f = not (bit_and f.raw 0x20 == 0)

unfoldable pub any : FaultStatus → Bool
any f = not (f.raw == 0)

pub record Feedback (D : Type 0) : Type 0 where
  pub motor_id : ℕ
  pub host_id : ℕ
  pub mode : MotorMode
  pub fault : FaultStatus
  pub position : D
  pub velocity : D
  pub torque : D
  pub temperature : D

pub record ParamResponse : Type 0 where
  pub motor_id : ℕ
  pub index : ℕ
  pub value : Data4

pub record ParamReadRequest : Type 0 where
  pub motor_id : ℕ
  pub host_id : ℕ
  pub index : ℕ

pub record ParamWriteRequest : Type 0 where
  pub motor_id : ℕ
  pub host_id : ℕ
  pub index : ℕ
  pub value : Data4

-- `as_float` of both is `std::memcpy` to a `float`, and `as_uint8` the first byte.
abbrev pub as_float : Data4 → ℕ
as_float d = bytes_float d

abbrev pub as_uint8 : Data4 → ℕ
as_uint8 d = d.b0
