-- ===== src/AtSerial/Transport.antt =====
-- `AtSerialCanInterface::send` and `receive`. What the system calls and the clock answer is a
-- script, one entry for each round of the loop; a script that ends leaves the call waiting.
pub mod Sending
pub mod Receiving
pub mod Delivering
pub mod Timeouts
use robstride_driver.Common.{
  ℕ, ◌+◌, ◌-◌, ◌*◌, ◌/◌, ◌%◌, List, [], ◌∷◌, ◌++◌, ltb, leb, if◌then◌else◌, length, take, drop,
  Option, none, some, Result, ok, err, Call, finished, waiting, system_error,
}
use robstride_driver.Protocol.Types.{CanFrame}
use robstride_driver.SocketCan.{Timeval}
use robstride_driver.AtSerial.Framing.{encode_frame}
use robstride_driver.AtSerial.Parser.{poll, push}

-- What one `::write` answers: a number of bytes, EINTR, or another error.
pub data WriteAnswer : Type 0 where
  written : ℕ → WriteAnswer
  write_interrupted write_failed : WriteAnswer

-- The loop of `send`, with the bytes that the device has taken.
unfoldable pub send_loop : List WriteAnswer → List ℕ → ℕ → List ℕ → Call (Unit {0}) × List ℕ
send_loop [] packet sent line =
    if ltb sent (length packet) then (waiting, line) else (finished (ok tt), line)
send_loop (written n ∷ script) packet sent line =
    let more = send_loop script packet (sent + n) (line ++ take n (drop sent packet)) in
    if ltb sent (length packet) then more else (finished (ok tt), line)
send_loop (write_interrupted ∷ script) packet sent line =
    let more = send_loop script packet sent line in
    if ltb sent (length packet) then more else (finished (ok tt), line)
send_loop (write_failed ∷ script) packet sent line =
    if ltb sent (length packet)
    then (finished (err system_error), line)
    else (finished (ok tt), line)

unfoldable pub send : List WriteAnswer → CanFrame → Call (Unit {0}) × List ℕ
unfolding send_loop
send script frame = send_loop script (encode_frame frame) 0 []

-- What `::select` and then `::read` answer in one round.
pub data ReadAnswer : Type 0 where
  select_timeout select_interrupted select_failed read_interrupted read_failed : ReadAnswer
  received : List ℕ → ReadAnswer

-- What a call of `receive` leaves: its outcome, the buffer, the answers that it did not use, and the
-- timeouts that it gave to `::select`, the first one first.
pub record Received : Type 0 where
  pub call : Call (Option CanFrame)
  pub buffer : List ℕ
  pub later : List ReadAnswer
  pub timeouts : List Timeval

abbrev pub finish : Result (Option CanFrame) → List ℕ → List ReadAnswer → Received
finish r buffer later = record { call = finished r; buffer = buffer; later = later; timeouts = [] }

abbrev pub wait_on : List ReadAnswer → List ℕ → Received
wait_on later buffer = record { call = waiting; buffer = buffer; later = later; timeouts = [] }

-- The time to the deadline, in nanoseconds, as the timeout of `::select`.
unfoldable pub remaining_timeval : ℕ → ℕ → Timeval
remaining_timeval deadline now =
    let remaining = (deadline - now) / 1000 in
    record { tv_sec = remaining / 1000000; tv_usec = remaining % 1000000 }

abbrev pub after_select : Timeval → Received → Received
after_select tv r = record r { timeouts = tv ∷ r.timeouts }

-- `::select` and `::read`; `again` is the next round of the loop.
unfoldable pub read_chunk :
    List ReadAnswer → List ℕ → (List ReadAnswer → List ℕ → Received) → Received
read_chunk [] buffer again = wait_on [] buffer
read_chunk (select_timeout ∷ later) buffer again = finish (ok none) buffer later
read_chunk (select_interrupted ∷ later) buffer again = again later buffer
read_chunk (select_failed ∷ later) buffer again = finish (err system_error) buffer later
read_chunk (read_interrupted ∷ later) buffer again = again later buffer
read_chunk (read_failed ∷ later) buffer again = finish (err system_error) buffer later
read_chunk (received chunk ∷ later) buffer again = again later (push buffer chunk)

-- A round, after what `poll` gave; the clock is read only if that is no frame. The times are in
-- nanoseconds, and without a reading the call waits.
unfoldable pub receive_round :
    ℕ
    → Option ℕ
    → List ReadAnswer
    → Option CanFrame × List ℕ
    → (List ReadAnswer → List ℕ → Received)
    → Received
receive_round deadline reading answers (some f, rest) again = finish (ok (some f)) rest answers
receive_round deadline none answers (none, rest) again = wait_on answers rest
receive_round deadline (some now) answers (none, rest) again =
    if leb deadline now
    then finish (ok none) rest answers
    else after_select (remaining_timeval deadline now) (read_chunk answers rest again)

-- The loop, over the readings of the clock.
unfoldable pub receive_loop : ℕ → List ℕ → List ReadAnswer → List ℕ → Received
receive_loop deadline [] answers buffer = receive_round deadline none answers (poll buffer) wait_on
receive_loop deadline (now ∷ clock) answers buffer =
    receive_round deadline (some now) answers (poll buffer) (receive_loop deadline clock)

-- `receive(timeout)` called at the time `start`, with the timeout in milliseconds.
unfoldable pub receive : ℕ → ℕ → List ℕ → List ReadAnswer → List ℕ → Received
receive start timeout clock answers buffer =
    receive_loop (start + timeout * 1000000) clock answers buffer
