-- ===== src/Examples/Setup.antt =====
-- examples/tracking_capture_common.hpp: the arguments, the transport, the motor and the CSV file.
-- Texts are lists of bytes.
pub mod Digits
use robstride_driver.Common.{
  ℕ, suc, ◌+◌, ◌-◌, ◌*◌, ◌%◌, ◌^◌, Bool, true, false, ◌&&◌, ◌||◌, ltb, leb, ◌==◌, if◌then◌else◌,
  List, [], ◌∷◌, ◌++◌, Option, none, some, Result, ok, err,
}
use robstride_driver.Common.Int.{ℤ, pos, negsuc, sub_ℕ}
use robstride_driver.Double.{Double}
use robstride_driver.Protocol.Limits.{ActuatorType, ActuatorLimits}
use robstride_driver.SocketCan.{CanFilter, set_motor_id_filter}
use robstride_driver.Unwrapper.{unwrapper_of_limits}
use robstride_driver.Motor.Monad.{Motor}
use robstride_driver.Motor.Exchange.{make_motor}
use robstride_driver.Examples.Process.{Column}
use robstride_driver.Examples.Profile.{Recording}

abbrev pub is_digit : ℕ → Bool
is_digit c = leb b'0' c && leb c b'9'

-- `std::isspace` of the C locale.
abbrev pub is_space : ℕ → Bool
is_space c = c == b' ' || (leb 9 c && leb c 13)

abbrev skip_spaces : List ℕ → List ℕ
skip_spaces [] = []
skip_spaces (c ∷ text) = let rest = skip_spaces text in if is_space c then rest else c ∷ text

-- The digits at the front, behind a number that was read before them.
unfoldable pub read_digits : ℕ → List ℕ → ℕ
read_digits n [] = n
read_digits n (c ∷ text) =
    let rest = read_digits (10 * n + (c - b'0')) text in if is_digit c then rest else n

abbrev pub unsigned : List ℕ → Option ℕ
unsigned [] = none
unsigned (c ∷ text) = if is_digit c then some (read_digits 0 (c ∷ text)) else none

abbrev positive : Option ℕ → Option ℤ
positive none = none
positive (some n) = if ltb n (2 ^ 31) then some (pos n) else none

abbrev negative : Option ℕ → Option ℤ
negative none = none
negative (some n) = if leb n (2 ^ 31) then some (sub_ℕ 0 n) else none

abbrev signed : List ℕ → Option ℤ
signed [] = none
signed (c ∷ text) =
    if c == b'-'
    then negative (unsigned text)
    else if c == b'+'
    then positive (unsigned text)
    else positive (unsigned (c ∷ text))

-- `std::stoi`, with `none` for its exceptions.
unfoldable pub stoi : List ℕ → Option ℤ
unfolding read_digits
stoi text = signed (skip_spaces text)

-- `static_cast<std::uint8_t>` of an `int`.
abbrev pub u8_of_ℤ : ℤ → ℕ
u8_of_ℤ (pos n) = n % 256
u8_of_ℤ (negsuc n) = 255 - n % 256

pub record Args : Type 0 where
  pub interface_name : List ℕ
  pub motor_id : ℕ
  pub out_path : List ℕ

-- `argv`, of which the first is the program's name.
unfoldable pub parse_args : List (List ℕ) → Option Args
parse_args (program ∷ interface_name ∷ motor_id ∷ out_path ∷ more) = elim (stoi motor_id) [
  | none ↦ none
  | some id ↦
      some (record { interface_name = interface_name; motor_id = u8_of_ℤ id; out_path = out_path })
]
parse_args _ = none

-- What opening a transport by its name comes to, with the state of the world, and `setsockopt`.
pub record Opener (W : Type 0) : Type 0 where
  pub at_serial : List ℕ → Result W
  pub socket_can : List ℕ → Result W
  pub filter_fails : List ℕ → Bool
  pub filtered : CanFilter → W → W

abbrev pub starts_with : List ℕ → List ℕ → Bool
starts_with [] text = true
starts_with (c ∷ prefix) [] = false
starts_with (c ∷ prefix) (x ∷ text) = c == x && starts_with prefix text

-- "/dev/".
abbrev pub dev : List ℕ
dev = b'/' ∷ b'd' ∷ b'e' ∷ b'v' ∷ b'/' ∷ []

unfoldable pub make_can_interface : {W : Type 0} → Opener W → List ℕ → ℕ → Result W
make_can_interface opener interface_name motor_id =
    if starts_with dev interface_name
    then opener.at_serial interface_name
    else elim (opener.socket_can interface_name) [
      | err e ↦ err e
      | ok bus ↦ elim (set_motor_id_filter motor_id (opener.filter_fails interface_name)) [
        | err e ↦ err e
        | ok filter ↦ ok (opener.filtered filter bus)
      ]
    ]

module _ {D : Type 0} ⦃d : Double D⦄ where
  unfoldable pub make_rs02_motor : ℕ → Result (Motor D)
  make_rs02_motor motor_id = make_motor (record {
    motor_id = motor_id;
    host_id = 0xFD;
    actuator_type = ActuatorType.rs02;
    response_timeout = 100;
  })

  -- A file that could be opened, with its row of headers, and the unwrapper of the program.
  unfoldable pub open_csv : List Column → ActuatorLimits D → Recording D
  open_csv extra_header limits = record {
    header =
        Column.t ∷ Column.target ∷ Column.position ∷ Column.velocity ∷ Column.torque
        ∷ Column.temperature ∷ extra_header;
    rows = [];
    cells = [];
    unwrapper = unwrapper_of_limits limits;
  }
