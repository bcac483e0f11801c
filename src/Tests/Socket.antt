-- ===== src/Tests/Socket.antt =====
-- The raw socket on a feedback frame.
use robstride_driver.Common.{
  Bool, true, false, [], ◌∷◌, ◌==◌, ◌≡◌, ◌↔◌, refl, arith, none, some, ok,
}
use robstride_driver.Protocol.Types.{CanFrame}
use robstride_driver.Protocol.Ids.{get_source_motor_id}
use robstride_driver.SocketCan.{
  RawFrame, raw_size, SocketAnswer, receive, motor_id_filter, send, raw_frame,
}
use robstride_driver.SocketCan.Filter.{carried_raw, receive-send, Passes, motor_id_filter-Passes}
use robstride_driver.SocketCan.Opening.{open_socket, open_socket-IsBalanced}
use robstride_driver.AtSerial.Opening.{Termios, open_device, open_device-IsBalanced}
use robstride_driver.Common.Files.{IsBalanced}
use robstride_driver.Tests.Data.{short_frame}

abbrev short_raw : RawFrame
short_raw = record { can_id = 0x9200FD01; can_dlc = 2; bytes = short_frame.payload }

send_short : send (some 16) short_frame ≡ (ok tt, some short_raw)
unfolding send raw_frame
send_short = refl

receive_standard : receive (SocketAnswer.read 16 (record short_raw { can_id = 0x123 })) ≡ ok none
unfolding receive
receive_standard = refl

receive-send_example :
    receive (SocketAnswer.read raw_size short_raw) ≡ ok (some (carried_raw short_frame))
unfolding send raw_frame
receive-send_example = receive-send (some 16) short_frame short_raw refl

motor_id_filter-Passes_example :
    Passes (motor_id_filter 0xFD) short_raw
    ↔ (f : CanFrame) × (receive (SocketAnswer.read raw_size short_raw) ≡ ok (some f))
      × (get_source_motor_id f ≡ 0xFD)
motor_id_filter-Passes_example = motor_id_filter-Passes 0xFD short_raw (omega arith) (omega arith)

open_socket-IsBalanced_example :
    IsBalanced (0 ∷ 1 ∷ []) (open_socket (some 3) true false (0 ∷ 1 ∷ []))
open_socket-IsBalanced_example = open_socket-IsBalanced (some 3) true false (0 ∷ 1 ∷ [])

-- A device that takes no other speed than 115200.
abbrev takes : Termios → Bool
takes settings = settings.c_ispeed == 115_200

open_device-IsBalanced_example :
    IsBalanced (0 ∷ 1 ∷ []) (open_device (some 3) true takes 0x18B0 921_600 (0 ∷ 1 ∷ []))
open_device-IsBalanced_example =
    open_device-IsBalanced (some 3) true takes 0x18B0 921_600 (0 ∷ 1 ∷ [])
