-- ===== src/SocketCan.antt =====
-- src/socket_can_interface.cpp: the raw CAN socket of Linux. What the system calls answer is an
-- argument.
pub mod Filter
pub mod Opening
pub mod Interface
use robstride_driver.Common.{
  ℕ, ◌+◌, ◌*◌, ◌/◌, ◌%◌, Bool, not, ◌||◌, ◌==◌, if◌then◌else◌, bit_and, bit_or, Option, none, some,
  Result, ok, err, system_error,
}
use robstride_driver.Common.Bits.{shl}
use robstride_driver.Protocol.Types.{CanFrame, Data8}

-- `struct can_frame` and `struct can_filter` of the kernel's interface.
pub record RawFrame : Type 0 where
  pub can_id : ℕ
  pub can_dlc : ℕ
  pub bytes : Data8

pub record CanFilter : Type 0 where
  pub can_id : ℕ
  pub can_mask : ℕ

abbrev pub can_eff_flag : ℕ
can_eff_flag = 0x8000_0000

abbrev pub can_eff_mask : ℕ
can_eff_mask = 0x1FFF_FFFF

-- `sizeof(struct can_frame)`.
abbrev pub raw_size : ℕ
raw_size = 16

-- The filter that `set_motor_id_filter` installs, and what becomes of `setsockopt`'s answer.
unfoldable pub motor_id_filter : ℕ → CanFilter
motor_id_filter motor_id = record {
  can_id = bit_or (shl motor_id 8) can_eff_flag;
  can_mask = bit_or (shl 0xFF 8) can_eff_flag;
}

unfoldable pub set_motor_id_filter : ℕ → Bool → Result CanFilter
unfolding motor_id_filter
set_motor_id_filter motor_id fails =
    if fails then err system_error else ok (motor_id_filter motor_id)

-- The frame that `send` writes.
unfoldable pub raw_frame : CanFrame → RawFrame
raw_frame frame = record {
  can_id = bit_or (bit_and frame.id can_eff_mask) can_eff_flag;
  can_dlc = frame.dlc;
  bytes = frame.payload;
}

-- `written` is the answer of `::write`, none if it is negative. A full write puts the frame on the
-- bus.
unfoldable pub send : Option ℕ → CanFrame → Result (Unit {0}) × Option RawFrame
unfolding raw_frame
send none frame = (err system_error, none)
send (some written) frame =
    if written == raw_size then (ok tt, some (raw_frame frame)) else (err system_error, none)

-- The timeout of `::select`, from milliseconds.
pub record Timeval : Type 0 where
  pub tv_sec : ℕ
  pub tv_usec : ℕ

unfoldable pub timeval_of : ℕ → Timeval
timeval_of timeout = record { tv_sec = timeout / 1000; tv_usec = timeout % 1000 * 1000 }

-- The answers of `::select` and `::read`: the number of bytes and the frame that they fill.
pub data SocketAnswer : Type 0 where
  select_failed select_timeout read_failed : SocketAnswer
  read : ℕ → RawFrame → SocketAnswer

unfoldable pub receive : SocketAnswer → Result (Option CanFrame)
receive select_failed = err system_error
receive select_timeout = ok none
receive read_failed = err system_error
receive (read received raw) =
    if not (received == raw_size) || bit_and raw.can_id can_eff_flag == 0
    then ok none
    else ok (
        some
          (record { id = bit_and raw.can_id can_eff_mask; payload = raw.bytes; dlc = raw.can_dlc }))
