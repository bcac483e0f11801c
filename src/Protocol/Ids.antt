-- ===== src/Protocol/Ids.antt =====
-- `make_id` and the functions that read a 29-bit identifier.
pub mod Layout
use robstride_driver.Common.{ℕ, bit_and, bit_or}
use robstride_driver.Common.Bits.{u8, u32, shl, shr}
use robstride_driver.Protocol.Types.{CommType, comm_type_value, CanFrame}

unfoldable pub make_id : CommType → ℕ → ℕ → ℕ
make_id type data_area2 dest =
    bit_or (bit_or (u32 (shl (comm_type_value type) 24)) (u32 (shl data_area2 8))) dest

unfoldable pub get_comm_type : CanFrame → ℕ
get_comm_type frame = u8 (bit_and (shr frame.id 24) 0x1F)

unfoldable pub get_source_motor_id : CanFrame → ℕ
get_source_motor_id frame = u8 (bit_and (shr frame.id 8) 0xFF)

unfoldable pub get_target_motor_id : CanFrame → ℕ
get_target_motor_id frame = u8 (bit_and frame.id 0xFF)

unfoldable pub get_host_id : CanFrame → ℕ
get_host_id frame = u8 (bit_and (shr frame.id 8) 0xFF)
