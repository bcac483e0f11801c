-- ===== src/AtSerial/Transport/Delivering.antt =====
-- A frame that one end of the serial line sends and the other receives.
use robstride_driver.Common.{
  ℕ, ◌+◌, ◌*◌, ◌≤◌, ◌<◌, ◌≡◌, sym, ap, ◌∙◌, arith, All, List, [], ◌∷◌, ◌++◌, length, false, leb,
  none, some, ok, finished, inl, inr,
}
use mathlib.Core.List.{append_assoc, append-nil}
use robstride_driver.Protocol.Types.{CanFrame}
use robstride_driver.AtSerial.Framing.{encode_frame}
use robstride_driver.AtSerial.Parser.{poll, push}
use robstride_driver.AtSerial.Parser.Rounds.{poll-append_some, poll-append_none}
use robstride_driver.AtSerial.Parser.Stream.{poll-cases}
use robstride_driver.AtSerial.Parser.Packets.{carried, IsSendable, poll-encode_frame}
use robstride_driver.AtSerial.Transport.{
  WriteAnswer, ReadAnswer, select_timeout, select_interrupted, select_failed, read_interrupted,
  read_failed, received, Received, read_chunk, receive_round, receive_loop, receive, send,
}
use robstride_driver.AtSerial.Transport.Sending.{accepted, NoFailure, send_delivers}
use robstride_driver.AtSerial.Transport.Receiving.{arriving}

-- An answer that does not end the loop: bytes, or a signal.
abbrev pub GoesOn : ReadAnswer → Type 0
GoesOn (received chunk) = Unit
GoesOn select_interrupted = Unit
GoesOn read_interrupted = Unit
GoesOn _ = ⊥

-- The call returns the frame, and what is not used of the stream is `rest`.
abbrev pub Delivers : CanFrame → List ℕ → Received → Type 0
Delivers f rest r = (r.call ≡ finished (ok (some f))) × (r.buffer ++ arriving r.later ≡ rest)

read_chunk-Delivers :
    (answers : List ReadAnswer) (buffer rest : List ℕ) (f : CanFrame)
    (again : List ReadAnswer → List ℕ → Received) (n : ℕ)
    → All GoesOn answers
    → length answers ≤ n
    → poll (buffer ++ []) ≡ (none, buffer)
    → poll (buffer ++ arriving answers) ≡ (some f, rest)
    → ((later : List ReadAnswer) (b : List ℕ)
        → All GoesOn later
        → length later < n
        → poll (b ++ arriving later) ≡ (some f, rest)
        → Delivers f rest (again later b))
    → Delivers f rest (read_chunk answers buffer again)
unfolding read_chunk push
read_chunk-Delivers [] buffer rest f again n goes le empty found next = cc
read_chunk-Delivers (select_interrupted ∷ later) buffer rest f again n (g, goes) le empty found
      next =
    next later buffer goes (omega arith) found
read_chunk-Delivers (read_interrupted ∷ later) buffer rest f again n (g, goes) le empty found next =
    next later buffer goes (omega arith) found
read_chunk-Delivers (received chunk ∷ later) buffer rest f again n (g, goes) le empty found next =
    next later (buffer ++ chunk) goes (omega arith)
      (rw (append_assoc buffer chunk (arriving later)) found)
read_chunk-Delivers (select_timeout ∷ later) buffer rest f again n (g, goes) le empty found next =
    elim g [ ]
read_chunk-Delivers (select_failed ∷ later) buffer rest f again n (g, goes) le empty found next =
    elim g [ ]
read_chunk-Delivers (read_failed ∷ later) buffer rest f again n (g, goes) le empty found next =
    elim g [ ]

-- The loop over the bytes of a stream that starts with a frame.
receive_loop-Delivers :
    (deadline : ℕ) (clock : List ℕ) (answers : List ReadAnswer) (buffer rest : List ℕ)
    (f : CanFrame)
    → All (λ now. now < deadline) clock
    → All GoesOn answers
    → length answers < length clock
    → poll (buffer ++ arriving answers) ≡ (some f, rest)
    → Delivers f rest (receive_loop deadline clock answers buffer)
unfolding receive_loop receive_round
receive_loop-Delivers deadline [] answers buffer rest f early goes le found = absurd (omega arith)
receive_loop-Delivers deadline (now ∷ clock) answers buffer rest f (on_time, early) goes le found =
    elim (poll-cases buffer) [
      | inl (r, e) ↦
          let not_late : leb deadline now ≡ false = ground arith in
          let empty : poll (r ++ []) ≡ (none, r) =
            sym (poll-append_none buffer [] e) ∙ ap poll (append-nil buffer) ∙ e in
          rw (e, not_late)
            (read_chunk-Delivers answers r rest f _ (length clock) goes (omega arith) empty
              (sym (poll-append_none buffer (arriving answers) e) ∙ found)
              λ later b goes' lt found'.
                receive_loop-Delivers deadline clock later b rest f early goes' lt found')
      | inr (g, r, e) ↦
          let whole : (some g, r ++ arriving answers) ≡ (some f, rest) =
            sym (poll-append_some buffer (arriving answers) e) ∙ found in
          rw e (ap (λ p. finished (ok (p.0))) whole, ap (λ p. p.1) whole)
    ]

-- A packet that comes in time at the front of a stream.
pub receive_arriving :
    (f : CanFrame) (start timeout : ℕ) (clock : List ℕ) (answers : List ReadAnswer) (more : List ℕ)
    → IsSendable f
    → All (λ now. now < start + timeout * 1000000) clock
    → All GoesOn answers
    → length answers < length clock
    → arriving answers ≡ encode_frame f ++ more
    → Delivers (carried f) more (receive start timeout clock answers [])
unfolding receive
receive_arriving f start timeout clock answers more sendable early goes le arrive =
    receive_loop-Delivers (start + timeout * 1000000) clock answers [] more (carried f) early goes
      le (ap poll arrive ∙ poll-encode_frame f more sendable)

-- If no write fails and the writes take as many bytes as the packet has, `send` returns, and a
-- `receive` at the other end of the line returns the frame as the line carries it, whatever chunks
-- and signals the bytes come in, and leaves exactly the bytes behind the packet. The frame has at
-- most 8 bytes of data, select and read neither fail nor time out, and each of their answers comes
-- before the deadline, with a further reading of the clock.
pub receive-Delivers :
    (script : List WriteAnswer) (f : CanFrame) (start timeout : ℕ) (clock : List ℕ)
    (answers : List ReadAnswer) (more : List ℕ)
    → NoFailure script
    → length (encode_frame f) ≤ accepted script
    → IsSendable f
    → All (λ now. now < start + timeout * 1000000) clock
    → All GoesOn answers
    → length answers < length clock
    → arriving answers ≡ (send script f).1 ++ more
    → ((send script f).0 ≡ finished (ok tt))
      × Delivers (carried f) more (receive start timeout clock answers [])
receive-Delivers script f start timeout clock answers more none_fails enough sendable early goes le
      arrive =
    let sent = send_delivers script f none_fails enough in
    (
      ap (λ p. p.0) sent,
      receive_arriving f start timeout clock answers more sendable early goes le
          (arrive ∙ ap (λ p. p.1 ++ more) sent),
    )
