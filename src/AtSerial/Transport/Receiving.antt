-- ===== src/AtSerial/Transport/Receiving.antt =====
-- No frame is lost, made up or put out of order by a call of `receive`, however it ends.
use robstride_driver.Common.{
  ℕ, ◌+◌, ◌*◌, ◌≤◌, ◌≢◌, suc, length, true, ◌≡◌, refl, sym, arith, List, [], ◌∷◌, ◌++◌, Option,
  none, some, ok, err, Call, finished, waiting, inl, inr, Bool-cases, leb,
}
use mathlib.Core.List.{append_assoc}
use robstride_driver.Protocol.Types.{CanFrame}
use robstride_driver.AtSerial.Parser.{poll, push}
use robstride_driver.AtSerial.Parser.Rounds.{poll-append_some, poll-append_none}
use robstride_driver.AtSerial.Parser.Stream.{drain, drain-some, drain_lem, poll-cases}
use robstride_driver.AtSerial.Transport.{
  ReadAnswer, select_timeout, select_interrupted, select_failed, read_interrupted, read_failed,
  received, Received, read_chunk, receive_round, receive_loop, receive,
}

-- The bytes that the answers still bring, in order.
abbrev pub arriving : List ReadAnswer → List ℕ
arriving [] = []
arriving (received chunk ∷ later) = chunk ++ arriving later
arriving (select_timeout ∷ later) = arriving later
arriving (select_interrupted ∷ later) = arriving later
arriving (select_failed ∷ later) = arriving later
arriving (read_interrupted ∷ later) = arriving later
arriving (read_failed ∷ later) = arriving later

-- The frame that a call returns, as a list of at most one.
abbrev pub returned : Call (Option CanFrame) → List CanFrame
returned (finished (ok (some f))) = f ∷ []
returned (finished (ok none)) = []
returned (finished (err e)) = []
returned waiting = []

-- What the stream holds for a client: the frames and the bytes behind them.
abbrev pub Keeps : List ℕ → Received → Type 0
Keeps stream r =
    let left = drain (r.buffer ++ arriving r.later) in
    drain stream ≡ (returned r.call ++ left.0, left.1)

read_chunk-Keeps :
    (answers : List ReadAnswer) (buffer : List ℕ) (again : List ReadAnswer → List ℕ → Received)
    → ((later : List ReadAnswer) (b : List ℕ) → Keeps (b ++ arriving later) (again later b))
    → Keeps (buffer ++ arriving answers) (read_chunk answers buffer again)
unfolding read_chunk push
read_chunk-Keeps [] buffer again h = refl
read_chunk-Keeps (select_timeout ∷ later) buffer again h = refl
read_chunk-Keeps (select_interrupted ∷ later) buffer again h = h later buffer
read_chunk-Keeps (select_failed ∷ later) buffer again h = refl
read_chunk-Keeps (read_interrupted ∷ later) buffer again h = h later buffer
read_chunk-Keeps (read_failed ∷ later) buffer again h = refl
read_chunk-Keeps (received chunk ∷ later) buffer again h =
    rw (← append_assoc buffer chunk (arriving later)) (h later (buffer ++ chunk))

drain-poll-none :
    (xs ys : List ℕ) {r : List ℕ} → poll xs ≡ (none, r) → drain (xs ++ ys) ≡ drain (r ++ ys)
drain-poll-none xs ys {r} e =
    rw (drain_lem (xs ++ ys), poll-append_none xs ys e) (sym (drain_lem (r ++ ys)))

receive_loop-Keeps :
    (deadline : ℕ) (clock : List ℕ) (answers : List ReadAnswer) (buffer : List ℕ)
    → Keeps (buffer ++ arriving answers) (receive_loop deadline clock answers buffer)
unfolding receive_loop receive_round
receive_loop-Keeps deadline [] answers buffer = elim (poll-cases buffer) [
  | inl (r, e) ↦ rw (e, drain-poll-none buffer (arriving answers) e) refl
  | inr (f, r, e) ↦
      rw e (drain-some (buffer ++ arriving answers) (poll-append_some buffer (arriving answers) e))
]
receive_loop-Keeps deadline (now ∷ clock) answers buffer = elim (poll-cases buffer) [
  | inl (r, e) ↦
      rw (e, drain-poll-none buffer (arriving answers) e)
        (elim (Bool-cases (leb deadline now)) [
          | inl late ↦ rw late
          | inr early ↦ rw early (read_chunk-Keeps answers r _ (receive_loop-Keeps deadline clock))
        ])
  | inr (f, r, e) ↦
      rw e (drain-some (buffer ++ arriving answers) (poll-append_some buffer (arriving answers) e))
]

-- However a call of `receive` ends, by a frame, by the deadline, by an exception of `select` or
-- `read`, or still waiting, the frames in the parser's buffer and the bytes yet to come are, in
-- order, the frame that it returns and then those that are left.
pub receive-Keeps :
    (start timeout : ℕ) (clock : List ℕ) (answers : List ReadAnswer) (buffer : List ℕ)
    → Keeps (buffer ++ arriving answers) (receive start timeout clock answers buffer)
unfolding receive
receive-Keeps start timeout clock answers buffer = receive_loop-Keeps _ clock answers buffer

read_chunk_ends :
    (answers : List ReadAnswer) (buffer : List ℕ) (again : List ReadAnswer → List ℕ → Received)
    (n : ℕ)
    → suc n ≤ length answers
    → ((later : List ReadAnswer) (b : List ℕ) → n ≤ length later → (again later b).call ≢ waiting)
    → (read_chunk answers buffer again).call ≢ waiting
unfolding read_chunk
read_chunk_ends [] buffer again n le h = absurd (omega arith)
read_chunk_ends (select_timeout ∷ later) buffer again n le h = λ e. cc
read_chunk_ends (select_interrupted ∷ later) buffer again n le h = h later buffer (omega arith)
read_chunk_ends (select_failed ∷ later) buffer again n le h = λ e. cc
read_chunk_ends (read_interrupted ∷ later) buffer again n le h = h later buffer (omega arith)
read_chunk_ends (read_failed ∷ later) buffer again n le h = λ e. cc
read_chunk_ends (received chunk ∷ later) buffer again n le h =
    h later (push buffer chunk) (omega arith)

receive_loop_ends :
    (deadline now : ℕ) (early clock : List ℕ) (answers : List ReadAnswer) (buffer : List ℕ)
    → deadline ≤ now
    → length early ≤ length answers
    → (receive_loop deadline (early ++ now ∷ clock) answers buffer).call ≢ waiting
unfolding receive_loop receive_round
receive_loop_ends deadline now [] clock answers buffer past enough = elim (poll-cases buffer) [
  | inl (r, e) ↦ rw e (let late : leb deadline now ≡ true = ground arith in rw late (λ w. cc))
  | inr (f, r, e) ↦ rw e (λ w. cc)
]
receive_loop_ends deadline now (t ∷ early) clock answers buffer past enough =
    elim (poll-cases buffer) [
      | inl (r, e) ↦ rw e (elim (Bool-cases (leb deadline t)) [
        | inl late ↦ rw late (λ w. cc)
        | inr on_time ↦ rw on_time (
            read_chunk_ends answers r _ (length early) enough
              (λ later b le. receive_loop_ends deadline now early clock later b past le))
      ])
      | inr (f, r, e) ↦ rw e (λ w. cc)
    ]

-- A call of `receive` returns or throws once the clock has reached its deadline, if each round
-- before that has an answer of the system calls.
pub receive_ends :
    (start timeout now : ℕ) (early clock : List ℕ) (answers : List ReadAnswer) (buffer : List ℕ)
    → start + timeout * 1000000 ≤ now
    → length early ≤ length answers
    → (receive start timeout (early ++ now ∷ clock) answers buffer).call ≢ waiting
unfolding receive
receive_ends start timeout now early clock answers buffer =
    receive_loop_ends _ now early clock answers buffer
