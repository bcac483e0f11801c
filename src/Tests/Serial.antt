-- ===== src/Tests/Serial.antt =====
-- The serial framing and transport on a stream that is cut inside a packet.
use robstride_driver.Common.{
  ℕ, ◌≡◌, ◌≢◌, refl, arith, List, [], ◌∷◌, ◌++◌, map, none, some, ok, err, finished, waiting,
  system_error,
}
use robstride_driver.Protocol.Types.{CanFrame}
use robstride_driver.AtSerial.Framing.{encode_frame, decode_packet}
use robstride_driver.AtSerial.Parser.{poll, act, inspect, push}
use robstride_driver.AtSerial.Parser.Stream.{
  drain, IsIdle, drain-IsIdle, receive_chunks, receive_chunks_lem, flat,
}
use robstride_driver.AtSerial.Parser.Packets.{
  carried, poll_skips, encode_all, receive_chunks-encode_all,
}
use robstride_driver.AtSerial.Transport.{
  WriteAnswer, ReadAnswer, send, send_loop, receive, receive_loop, receive_round, remaining_timeval,
  read_chunk,
}
use robstride_driver.AtSerial.Transport.Sending.{Carries, send-Carries}
use robstride_driver.AtSerial.Transport.Receiving.{Keeps, receive-Keeps, receive_ends, arriving}
use robstride_driver.AtSerial.Transport.Delivering.{Delivers, receive-Delivers}
use robstride_driver.Tests.Data.{enable_frame, short_frame, short_packet}

encode_frame_short : encode_frame short_frame ≡ short_packet
unfolding encode_frame
encode_frame_short = refl

poll_half : poll (b'A' ∷ b'T' ∷ []) ≡ (none, b'A' ∷ b'T' ∷ [])
unfolding poll act inspect
poll_half = refl

-- Two frames, in chunks of which the first ends inside the first packet.
abbrev two_frames : List CanFrame
two_frames = short_frame ∷ enable_frame ∷ []

abbrev chunks : List (List ℕ)
chunks =
    (b'A' ∷ b'T' ∷ 0x90 ∷ [])
    ∷ []
    ∷ (0x07 ∷ 0xE8 ∷ 0x0C ∷ 2 ∷ 5 ∷ 0x70 ∷ b'\r' ∷ b'\n' ∷ b'A' ∷ b'T' ∷ 0x18 ∷ [])
    ∷ (0x07 ∷ 0xEB ∷ 0xFC ∷ 8 ∷ 0 ∷ 0 ∷ 0 ∷ 0 ∷ 0 ∷ 0 ∷ 0 ∷ 0 ∷ b'\r' ∷ b'\n' ∷ [])
    ∷ []

chunks-encode_all : flat chunks ≡ encode_all two_frames
unfolding encode_frame
chunks-encode_all = refl

IsIdle-empty : IsIdle []
unfolding drain poll
IsIdle-empty = (refl, omega arith)

receive_chunks-encode_all_example : receive_chunks [] chunks ≡ (map carried two_frames, [])
receive_chunks-encode_all_example =
    receive_chunks-encode_all two_frames chunks (omega arith, (omega arith, tt)) chunks-encode_all

receive_chunks_lem_example : receive_chunks [] chunks ≡ drain (flat chunks)
receive_chunks_lem_example = receive_chunks_lem [] chunks IsIdle-empty

drain-IsIdle_example : IsIdle (drain (b'A' ∷ b'T' ∷ short_packet)).1
drain-IsIdle_example = drain-IsIdle (b'A' ∷ b'T' ∷ short_packet)

poll_short : poll short_packet ≡ (some short_frame, [])
unfolding poll act inspect decode_packet
poll_short = refl

poll_skips_example : poll (0xFF ∷ b'T' ∷ b'\n' ∷ short_packet) ≡ (some short_frame, [])
poll_skips_example =
    poll_skips (0xFF ∷ b'T' ∷ b'\n' ∷ []) short_packet short_frame []
      (ground arith, (ground arith, (ground arith, tt))) poll_short

-- A partial write, a signal, and the rest.
abbrev writes : List WriteAnswer
writes = WriteAnswer.written 4 ∷ WriteAnswer.write_interrupted ∷ WriteAnswer.written 7 ∷ []

-- A partial write, and then the device fails.
abbrev failing : List WriteAnswer
failing = WriteAnswer.written 4 ∷ WriteAnswer.write_failed ∷ []

send_failing :
    send failing short_frame ≡ (finished (err system_error), b'A' ∷ b'T' ∷ 0x90 ∷ 0x07 ∷ [])
unfolding send encode_frame
send_failing = refl

send-Carries_example : Carries (encode_frame short_frame) (send failing short_frame)
send-Carries_example = send-Carries failing short_frame

-- The packet comes in two reads, with a signal between them.
abbrev answers : List ReadAnswer
answers =
    ReadAnswer.received (b'A' ∷ b'T' ∷ 0x90 ∷ [])
    ∷ ReadAnswer.select_interrupted
    ∷ ReadAnswer.received (0x07 ∷ 0xE8 ∷ 0x0C ∷ 2 ∷ 5 ∷ 0x70 ∷ b'\r' ∷ b'\n' ∷ [])
    ∷ []

abbrev clock : List ℕ
clock = 10 ∷ 20 ∷ 30 ∷ 40 ∷ []

receive_answers : (receive 0 1 clock answers []).call ≡ finished (ok (some short_frame))
unfolding receive receive_loop receive_round read_chunk poll act inspect decode_packet push
receive_answers = refl

-- The timeouts are what is left of the millisecond, in microseconds.
receive_asks :
    (receive 0 1 (10 ∷ 200_000 ∷ 1_000_000 ∷ []) answers []).timeouts
    ≡ record { tv_sec = 0; tv_usec = 999 } ∷ record { tv_sec = 0; tv_usec = 800 } ∷ []
unfolding receive receive_loop receive_round remaining_timeval read_chunk poll inspect push act
receive_asks = refl

receive-Keeps_example : Keeps ([] ++ arriving answers) (receive 0 1 clock answers [])
receive-Keeps_example = receive-Keeps 0 1 clock answers []

receive_ends_example : (receive 0 1 (10 ∷ 20 ∷ 1_000_000 ∷ []) answers []).call ≢ waiting
receive_ends_example =
    receive_ends 0 1 1_000_000 (10 ∷ 20 ∷ []) [] answers [] (omega arith) (omega arith)

arriving_sent : arriving answers ≡ (send writes short_frame).1 ++ []
unfolding send send_loop encode_frame
arriving_sent = refl

receive-Delivers_example :
    ((send writes short_frame).0 ≡ finished (ok tt))
    × Delivers (carried short_frame) [] (receive 5 1 clock answers [])
unfolding encode_frame
receive-Delivers_example =
    receive-Delivers writes short_frame 5 1 clock answers []
      ((λ e. cc), ((λ e. cc), ((λ e. cc), tt))) (omega arith) (omega arith)
      (omega arith, (omega arith, (omega arith, (omega arith, tt)))) (tt, (tt, (tt, tt)))
      (omega arith) arriving_sent
