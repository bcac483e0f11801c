-- ===== src/AtSerial/Transport/Timeouts.antt =====
-- The timeouts that `receive` gives to `::select`.
use robstride_driver.Common.{
  ℕ, ◌+◌, ◌*◌, ◌≤◌, ◌<◌, arith, All, List, [], ◌∷◌, inl, inr, Bool-cases, leb,
}
use robstride_driver.SocketCan.{Timeval}
use robstride_driver.AtSerial.Parser.{push}
use robstride_driver.AtSerial.Parser.Stream.{poll-cases}
use robstride_driver.AtSerial.Transport.{
  ReadAnswer, select_timeout, select_interrupted, select_failed, read_interrupted, read_failed,
  received, Received, remaining_timeval, read_chunk, receive_round, receive_loop, receive,
}

-- A valid timeout of at most this many milliseconds.
pub record IsWithin (timeout : ℕ) (tv : Timeval) : Type 0 where
  pub normal : tv.tv_usec < 1000000
  pub total : tv.tv_sec * 1000000 + tv.tv_usec ≤ timeout * 1000

remaining_timeval-IsWithin :
    (start timeout now : ℕ)
    → start ≤ now
    → IsWithin timeout (remaining_timeval (start + timeout * 1000000) now)
unfolding remaining_timeval
remaining_timeval-IsWithin start timeout now le = record {
  normal = omega arith;
  total = omega arith;
}

module _ (P : Timeval → Type 0) where
  read_chunk-timeouts :
      (answers : List ReadAnswer) (buffer : List ℕ) (again : List ReadAnswer → List ℕ → Received)
      → ((later : List ReadAnswer) (b : List ℕ) → All P (again later b).timeouts)
      → All P (read_chunk answers buffer again).timeouts
  unfolding read_chunk
  read_chunk-timeouts [] buffer again h = tt
  read_chunk-timeouts (select_timeout ∷ later) buffer again h = tt
  read_chunk-timeouts (select_interrupted ∷ later) buffer again h = h later buffer
  read_chunk-timeouts (select_failed ∷ later) buffer again h = tt
  read_chunk-timeouts (read_interrupted ∷ later) buffer again h = h later buffer
  read_chunk-timeouts (read_failed ∷ later) buffer again h = tt
  read_chunk-timeouts (received chunk ∷ later) buffer again h = h later (push buffer chunk)

  receive_loop-timeouts :
      (deadline : ℕ) (clock : List ℕ) (answers : List ReadAnswer) (buffer : List ℕ)
      → All (λ now. P (remaining_timeval deadline now)) clock
      → All P (receive_loop deadline clock answers buffer).timeouts
  unfolding receive_loop receive_round
  receive_loop-timeouts deadline [] answers buffer h = elim (poll-cases buffer) [
    | inl (r, e) ↦ rw e tt
    | inr (f, r, e) ↦ rw e tt
  ]
  receive_loop-timeouts deadline (now ∷ clock) answers buffer (p, h) = elim (poll-cases buffer) [
    | inl (r, e) ↦ rw e (elim (Bool-cases (leb deadline now)) [
      | inl late ↦ rw late tt
      | inr early ↦ rw early (
        p,
        read_chunk-timeouts answers r _ (λ later b. receive_loop-timeouts deadline clock later b h),
      )
    ])
    | inr (f, r, e) ↦ rw e tt
  ]

All-IsWithin :
    (start timeout : ℕ) (clock : List ℕ)
    → All (λ now. start ≤ now) clock
    → All (λ now. IsWithin timeout (remaining_timeval (start + timeout * 1000000) now)) clock
All-IsWithin start timeout [] h = tt
All-IsWithin start timeout (now ∷ clock) (le, h) =
    (remaining_timeval-IsWithin start timeout now le, All-IsWithin start timeout clock h)

-- If the clock does not go back, each timeout that `receive` gives to `::select` is valid and at
-- most the timeout of the call.
pub receive-timeouts :
    (start timeout : ℕ) (clock : List ℕ) (answers : List ReadAnswer) (buffer : List ℕ)
    → All (λ now. start ≤ now) clock
    → All (IsWithin timeout) (receive start timeout clock answers buffer).timeouts
unfolding receive
receive-timeouts start timeout clock answers buffer h =
    receive_loop-timeouts _ _ clock answers buffer (All-IsWithin start timeout clock h)
