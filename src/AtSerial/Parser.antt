-- ===== src/AtSerial/Parser.antt =====
-- `at_serial::FrameParser`. Its state is the buffer of bytes that are not consumed.
pub mod Rounds
pub mod Stream
pub mod Packets
use robstride_driver.Common.{
  ℕ, zero, suc, ◌+◌, ◌-◌, List, [], ◌∷◌, ◌++◌, Bool, not, ◌||◌, ltb, ◌==◌, if◌then◌else◌, get_or,
  drop, length, Option, none, some,
}
use robstride_driver.Protocol.Types.{CanFrame}
use robstride_driver.AtSerial.Framing.{header_size, tail_size, decode_packet}

-- What a round of `poll` does: leave the loop and wait for more bytes, drop the first byte and go
-- on, or return the frame at the front.
pub data Verdict : Type 0 where
  wait skip accept : Verdict

-- `header_size + dlc + tail_size`, with `dlc` the seventh byte of the buffer.
abbrev pub total_size : List ℕ → ℕ
total_size buffer = header_size + get_or buffer 6 0 + tail_size

-- The tests of a round, in their order.
unfoldable pub inspect : List ℕ → Verdict
inspect buffer =
    if ltb (length buffer) (header_size + tail_size)
    then wait
    else if not (get_or buffer 0 0 == b'A') || not (get_or buffer 1 0 == b'T')
    then skip
    else if ltb 8 (get_or buffer 6 0)
    then skip
    else if ltb (length buffer) (total_size buffer)
    then wait
    else if not (get_or buffer (total_size buffer - 2) 0 == b'\r')
        || not (get_or buffer (total_size buffer - 1) 0 == b'\n')
    then skip
    else accept

-- A round, given what the rounds after it do if the first byte is dropped.
unfoldable pub act : Verdict → List ℕ → Option CanFrame × List ℕ → Option CanFrame × List ℕ
act wait buffer later = (none, buffer)
act skip buffer later = later
act accept buffer later = (some (decode_packet buffer), drop (total_size buffer) buffer)

unfoldable pub push : List ℕ → List ℕ → List ℕ
push buffer received = buffer ++ received

-- Each round that goes on drops a byte, so the loop is a recursion on the buffer.
unfoldable pub poll : List ℕ → Option CanFrame × List ℕ
poll [] = (none, [])
poll (b ∷ rest) = act (inspect (b ∷ rest)) (b ∷ rest) (poll rest)
